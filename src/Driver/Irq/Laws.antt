-- ===== src/Driver/Irq/Laws.antt =====
-- What a row of interrupts does.
use deep_space_detection.Base.{
  ℕ, ◌≡◌, refl, ap, sym, ◌∙◌, List, [], ◌∷◌, ◌++◌, Bool, true, false, ◌==◌, ◌&&◌, ◌||◌,
  if◌then◌else◌, Run, ok, fault, ◌>>=◌, some, Bool-cases, inl, inr,
}
use mathlib.Core.Path.{ap₂}
use mathlib.Core.List.{append-nil, append_assoc}
use deep_space_detection.Driver.Registers.{Register, pl_irq_task_num}
use deep_space_detection.Driver.Device.{
  Completion, Pointer, to, dangling, uninitialised, Device, writel,
}
use deep_space_detection.Driver.Irq.{
  s2mm_ps_done, s2mm_pl_done, complete_at, irq_handler, interrupts,
}

-- Whether an interrupt ends a transfer, by the flags for the last burst of each direction.
abbrev pub ends : Bool → Bool → ℕ → Bool
ends ps pl i = (i == s2mm_ps_done && ps) || (i == s2mm_pl_done && pl)

abbrev pub any_ends : Bool → Bool → List ℕ → Bool
any_ends ps pl [] = false
any_ends ps pl (i ∷ is) = ends ps pl i || any_ends ps pl is

-- The handler clears the interrupt register once for each.
abbrev pub clears : List ℕ → List (Register × ℕ)
clears [] = []
clears (i ∷ is) = (pl_irq_task_num, 0) ∷ clears is

module _ (K : Completion) where
  abbrev pub after : Bool → Bool → K.State → List ℕ → K.State
  after ps pl c [] = c
  after ps pl c (i ∷ is) = after ps pl (if ends ps pl i then K.complete c else c) is

  abbrev handle : Bool → Bool → Device K.State → Pointer K.State → Run (Device K.State)
  handle p q d ptr =
      (if p then complete_at K d ptr else if q then complete_at K d ptr else ok d) >>= λ d.
      ok (writel 0 pl_irq_task_num d)

  handle_live :
      (p q : Bool) (d : Device K.State) (c : K.State)
      → handle p q d (to c)
        ≡ ok
            (writel 0 pl_irq_task_num (if p || q then record d { comp = to (K.complete c) } else d))
  unfolding complete_at
  handle_live true q d c = refl
  handle_live false true d c = refl
  handle_live false false d c = refl

  -- One interrupt completes the transfer exactly if it reports the end of a write and the flag for
  -- the last burst of that direction is set; it always clears the interrupt register, and changes
  -- nothing else.
  pub irq_handler_lem :
      (i : ℕ) (d : Device K.State) (c : K.State)
      → d.comp ≡ to c
      → irq_handler K i d
        ≡ ok (
            writel 0 pl_irq_task_num (
              if ends d.last_s2mm_ps_done d.last_s2mm_pl_done i
              then record d { comp = to (K.complete c) }
              else d))
  unfolding irq_handler
  irq_handler_lem i d c e =
      let p = i == s2mm_ps_done && d.last_s2mm_ps_done in
      let q = i == s2mm_pl_done && d.last_s2mm_pl_done in ap (handle p q d) e ∙ handle_live p q d c

  handle_dangling :
      (p q : Bool) (d : Device K.State) → (p || q) ≡ true → handle p q d dangling ≡ fault
  unfolding complete_at
  handle_dangling true q d h = refl
  handle_dangling false true d h = refl
  handle_dangling false false d h = cc

  after_step :
      (b : Bool) (d : Device K.State) (c : K.State)
      → d.comp ≡ to c
      → (if b then record d { comp = to (K.complete c) } else d)
        ≡ record d { comp = to (if b then K.complete c else c) }
  after_step true d c e = refl
  after_step false d c e = λ i. record d { comp = e i }

  -- A row of interrupts, handled while the driver's completion is alive, completes it once for
  -- each that reports the end of a write whose flag for the last burst is set; it clears the
  -- interrupt register once for each, and changes nothing else.
  pub interrupts_lem :
      (is : List ℕ) (d : Device K.State) (c : K.State)
      → d.comp ≡ to c
      → interrupts K is d
        ≡ ok (record d {
          comp = to (after d.last_s2mm_ps_done d.last_s2mm_pl_done c is);
          written = d.written ++ clears is;
        })
  unfolding interrupts
  interrupts_lem [] d c e =
      ap₂ (λ p l. ok (record d { comp = p; written = l })) e (sym (append-nil d.written))
  interrupts_lem (j ∷ is) d c e =
      let ps = d.last_s2mm_ps_done in
      let pl = d.last_s2mm_pl_done in
      let b = ends ps pl j in
      let c' = if b then K.complete c else c in
      let d' = writel 0 pl_irq_task_num (record d { comp = to c' }) in
      rw (irq_handler_lem j d c e ∙ ap (λ x. ok (writel 0 pl_irq_task_num x)) (after_step b d c e))
        (interrupts_lem is d' c' refl
          ∙ ap (λ l. ok (record d { comp = to (after ps pl c' is); written = l }))
              (append_assoc d.written ((pl_irq_task_num, 0) ∷ []) (clears is)))

  -- A late interrupt that ends a transfer whose function has returned writes through the pointer
  -- to its stack frame.
  pub irq_handler_dangling :
      (i : ℕ) (d : Device K.State)
      → d.comp ≡ dangling
      → ends d.last_s2mm_ps_done d.last_s2mm_pl_done i ≡ true
      → irq_handler K i d ≡ fault
  unfolding irq_handler
  irq_handler_dangling i d e h =
      let p = i == s2mm_ps_done && d.last_s2mm_ps_done in
      let q = i == s2mm_pl_done && d.last_s2mm_pl_done in
      ap (handle p q d) e ∙ handle_dangling p q d h

  handle_idle :
      (p q : Bool) (d : Device K.State) (ptr : Pointer K.State)
      → (p || q) ≡ false
      → handle p q d ptr ≡ ok (writel 0 pl_irq_task_num d)
  handle_idle true q d ptr h = cc
  handle_idle false true d ptr h = cc
  handle_idle false false d ptr h = refl

  handle_uninitialised :
      (p q : Bool) (d : Device K.State) → (p || q) ≡ true → handle p q d uninitialised ≡ fault
  unfolding complete_at
  handle_uninitialised true q d h = refl
  handle_uninitialised false true d h = refl
  handle_uninitialised false false d h = cc

  -- Interrupts of which one ends a transfer, by the flags, write to a completion that is not
  -- initialised.
  pub interrupts_uninitialised :
      (is : List ℕ) (d : Device K.State)
      → d.comp ≡ uninitialised
      → any_ends d.last_s2mm_ps_done d.last_s2mm_pl_done is ≡ true
      → interrupts K is d ≡ fault
  unfolding interrupts irq_handler
  interrupts_uninitialised [] d e h = cc
  interrupts_uninitialised (i ∷ is) d e h =
      let ps = d.last_s2mm_ps_done in
      let pl = d.last_s2mm_pl_done in
      let p = i == s2mm_ps_done && ps in
      let q = i == s2mm_pl_done && pl in
      elim (Bool-cases (ends ps pl i)) [
        | inl a ↦
            ap (λ r. r >>= λ d. interrupts K is d)
              (ap (handle p q d) e ∙ handle_uninitialised p q d a)
        | inr a ↦
            rw (handle_idle p q d d.comp a)
              (interrupts_uninitialised is (writel 0 pl_irq_task_num d) e (rw a at h))
      ]

  -- Interrupts that end no transfer only clear the interrupt register, wherever the pointer to the
  -- completion leads.
  pub interrupts_idle :
      (is : List ℕ) (d : Device K.State)
      → any_ends d.last_s2mm_ps_done d.last_s2mm_pl_done is ≡ false
      → interrupts K is d ≡ ok (record d { written = d.written ++ clears is })
  unfolding interrupts irq_handler
  interrupts_idle [] d h = ap (λ l. ok (record d { written = l })) (sym (append-nil d.written))
  interrupts_idle (i ∷ is) d h =
      let ps = d.last_s2mm_ps_done in
      let pl = d.last_s2mm_pl_done in
      elim (Bool-cases (ends ps pl i)) [
        | inl e ↦ cc (rw e at h)
        | inr e ↦ rw (handle_idle (i == s2mm_ps_done && ps) (i == s2mm_pl_done && pl) d d.comp e) (
            interrupts_idle is (writel 0 pl_irq_task_num d) (rw e at h)
            ∙ ap (λ l. ok (record d { written = l }))
                (append_assoc d.written ((pl_irq_task_num, 0) ∷ []) (clears is)))
      ]

  -- A wait after the interrupts succeeds exactly if one of them ended the transfer.
  pub wait-after :
      (ps pl : Bool) (c : K.State) (is : List ℕ)
      → ((t : K.State) × (K.wait c ≡ some t))
      → (t : K.State) × (K.wait (after ps pl c is) ≡ some t)
  wait-after ps pl c [] h = h
  wait-after ps pl c (i ∷ is) h =
      wait-after ps pl (if ends ps pl i then K.complete c else c) is (step (ends ps pl i))
    where
      step : (b : Bool) → (t : K.State) × (K.wait (if b then K.complete c else c) ≡ some t)
      step true = K.wait-complete c
      step false = h

  pub wait-after_ends :
      (ps pl : Bool) (c : K.State) (is : List ℕ)
      → any_ends ps pl is ≡ true
      → (t : K.State) × (K.wait (after ps pl c is) ≡ some t)
  wait-after_ends ps pl c [] h = cc
  wait-after_ends ps pl c (i ∷ is) h = elim (Bool-cases (ends ps pl i)) [
    | inl e ↦ rw e (wait-after ps pl (K.complete c) is (K.wait-complete c))
    | inr e ↦ rw e (wait-after_ends ps pl c is (rw e at h))
  ]

  pub after_none :
      (ps pl : Bool) (c : K.State) (is : List ℕ) → any_ends ps pl is ≡ false → after ps pl c is ≡ c
  after_none ps pl c [] h = refl
  after_none ps pl c (i ∷ is) h = elim (Bool-cases (ends ps pl i)) [
    | inl e ↦ cc (rw e at h)
    | inr e ↦ rw e (after_none ps pl c is (rw e at h))
  ]
