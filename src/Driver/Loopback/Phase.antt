-- ===== src/Driver/Loopback/Phase.antt =====
-- The bursts of one direction of the loopback with the interrupts between them.
use deep_space_detection.Base.{
  ℕ, ◌≡◌, refl, ap, sym, ◌∙◌, List, [], ◌∷◌, ◌++◌, Bool, true, false, ◌==◌, ◌||◌, if◌then◌else◌, ok,
  some, Bool-cases, inl, inr,
}
use mathlib.Core.Path.{ap₂}
use mathlib.Core.List.{append-nil, append_assoc}
use deep_space_detection.Driver.Registers.{Register}
use deep_space_detection.Driver.Device.{Completion, to, Device}
use deep_space_detection.Driver.Burst.Plan.{Item, run_plan}
use deep_space_detection.Driver.Irq.Laws.{
  clears, any_ends, after, interrupts_lem, wait-after, wait-after_ends, after_none,
}
use deep_space_detection.Driver.Loopback.{arriving, later, issue}

-- A flag after the bursts, if the last one sets it by `f`.
abbrev pub marked : (Bool → Bool) → List Item → Bool → Bool
marked f [] b = b
marked f (i ∷ is) b = marked f is (if i.left == 0 then f b else b)

-- The interrupts that are still to come after the bursts.
abbrev pub after_bursts : List Item → List (List ℕ) → List (List ℕ)
after_bursts [] arrivals = arrivals
after_bursts (i ∷ is) arrivals = after_bursts is (later arrivals)

-- Whether an interrupt ends the transfer while the bursts are set up.
abbrev pub signalled :
    (Bool → Bool) → (Bool → Bool) → List Item → Bool → Bool → List (List ℕ) → Bool
signalled fps fpl [] ps pl arrivals = false
signalled fps fpl (i ∷ is) ps pl arrivals =
    let ps' = if i.left == 0 then fps ps else ps in
    let pl' = if i.left == 0 then fpl pl else pl in
    any_ends ps' pl' (arriving arrivals) || signalled fps fpl is ps' pl' (later arrivals)

-- What the bursts write, with the interrupt handler's clearing between them.
abbrev pub burst_log :
    (ℕ → ℕ → List (Register × ℕ)) → List Item → List (List ℕ) → List (Register × ℕ)
burst_log registers [] arrivals = []
burst_log registers (i ∷ is) arrivals =
    registers i.address i.units
    ++ clears (arriving arrivals)
    ++ burst_log registers is (later arrivals)

assoc : {A : Type 0} (a b c e : List A) → a ++ b ++ c ++ e ≡ a ++ (b ++ c ++ e)
assoc a b c e = ap (λ l. l ++ e) (append_assoc a b c) ∙ append_assoc a (b ++ c) e

module _ (K : Completion) (fps fpl : Bool → Bool) where
  abbrev pub state_after : List Item → Bool → Bool → K.State → List (List ℕ) → K.State
  state_after [] ps pl c arrivals = c
  state_after (i ∷ is) ps pl c arrivals =
      let ps' = if i.left == 0 then fps ps else ps in
      let pl' = if i.left == 0 then fpl pl else pl in
      state_after is ps' pl' (after K ps' pl' c (arriving arrivals)) (later arrivals)

  pub wait-state_after :
      (is : List Item) (ps pl : Bool) (c : K.State) (arrivals : List (List ℕ))
      → ((t : K.State) × (K.wait c ≡ some t))
      → (t : K.State) × (K.wait (state_after is ps pl c arrivals) ≡ some t)
  wait-state_after [] ps pl c arrivals h = h
  wait-state_after (i ∷ is) ps pl c arrivals h =
      let ps' = if i.left == 0 then fps ps else ps in
      let pl' = if i.left == 0 then fpl pl else pl in
      wait-state_after is ps' pl' (after K ps' pl' c (arriving arrivals)) (later arrivals)
        (wait-after K ps' pl' c (arriving arrivals) h)

  pub wait-state_after-signalled :
      (is : List Item) (ps pl : Bool) (c : K.State) (arrivals : List (List ℕ))
      → signalled fps fpl is ps pl arrivals ≡ true
      → (t : K.State) × (K.wait (state_after is ps pl c arrivals) ≡ some t)
  wait-state_after-signalled [] ps pl c arrivals h = cc
  wait-state_after-signalled (i ∷ is) ps pl c arrivals h =
      let ps' = if i.left == 0 then fps ps else ps in
      let pl' = if i.left == 0 then fpl pl else pl in
      let c' = after K ps' pl' c (arriving arrivals) in
      elim (Bool-cases (any_ends ps' pl' (arriving arrivals))) [
        | inl e ↦
            wait-state_after is ps' pl' c' (later arrivals)
              (wait-after_ends K ps' pl' c (arriving arrivals) e)
        | inr e ↦ wait-state_after-signalled is ps' pl' c' (later arrivals) (rw e at h)
      ]

  pub state_after_quiet :
      (is : List Item) (ps pl : Bool) (c : K.State) (arrivals : List (List ℕ))
      → signalled fps fpl is ps pl arrivals ≡ false
      → state_after is ps pl c arrivals ≡ c
  state_after_quiet [] ps pl c arrivals h = refl
  state_after_quiet (i ∷ is) ps pl c arrivals h =
      let ps' = if i.left == 0 then fps ps else ps in
      let pl' = if i.left == 0 then fpl pl else pl in
      elim (Bool-cases (any_ends ps' pl' (arriving arrivals))) [
        | inl e ↦ cc (rw e at h)
        | inr e ↦
            rw (after_none K ps' pl' c (arriving arrivals) e)
              (state_after_quiet is ps' pl' c (later arrivals) (rw e at h))
      ]

  module _ (command : ℕ → ℕ → Device K.State → Device K.State)
      (registers : ℕ → ℕ → List (Register × ℕ))
      (command_lem : (n size : ℕ) (d : Device K.State)
        → command n size d ≡ record d { written = d.written ++ registers n size }) where
    abbrev mark : Device K.State → Device K.State
    mark d = record d {
      last_s2mm_ps_done = fps d.last_s2mm_ps_done;
      last_s2mm_pl_done = fpl d.last_s2mm_pl_done;
    }

    -- The device after the bursts.
    abbrev pub device_after : List Item → Device K.State → K.State → List (List ℕ) → Device K.State
    device_after is d c arrivals = record d {
      last_s2mm_ps_done = marked fps is d.last_s2mm_ps_done;
      last_s2mm_pl_done = marked fpl is d.last_s2mm_pl_done;
      comp = to (state_after is d.last_s2mm_ps_done d.last_s2mm_pl_done c arrivals);
      written = d.written ++ burst_log registers is arrivals;
    }

    mark_if : Bool → Device K.State → Device K.State
    mark_if b d = record d {
      last_s2mm_ps_done = if b then fps d.last_s2mm_ps_done else d.last_s2mm_ps_done;
      last_s2mm_pl_done = if b then fpl d.last_s2mm_pl_done else d.last_s2mm_pl_done;
    }

    if_mark : (b : Bool) (d : Device K.State) → (if b then mark d else d) ≡ mark_if b d
    unfolding mark_if
    if_mark true d = refl
    if_mark false d = refl

    pub run_plan-issue :
        (is : List Item) (d : Device K.State) (c : K.State) (arrivals : List (List ℕ))
        → d.comp ≡ to c
        → run_plan (issue K mark command) (ok (d, arrivals)) is
          ≡ ok (device_after is d c arrivals, after_bursts is arrivals)
    unfolding mark_if
    run_plan-issue [] d c arrivals e =
        ap₂ (λ p l. ok (record d { comp = p; written = l }, arrivals)) e
          (sym (append-nil d.written))
    run_plan-issue (i ∷ is) d c arrivals e =
        let d₁ = mark_if (i.left == 0) d in
        let d₂ = record d₁ { written = d.written ++ registers i.address i.units } in
        let c' = after K d₁.last_s2mm_ps_done d₁.last_s2mm_pl_done c (arriving arrivals) in
        let d₃ = record d₂ { comp = to c'; written = d₂.written ++ clears (arriving arrivals) } in
        rw
          (
            if_mark (i.left == 0) d,
            command_lem i.address i.units d₁,
            interrupts_lem K (arriving arrivals) d₂ c e,
          )
          (run_plan-issue is d₃ c' (later arrivals) refl
            ∙ ap
                (λ l. ok (
                  record (device_after (i ∷ is) d c arrivals) { written = l },
                  after_bursts (i ∷ is) arrivals,
                ))
                (assoc d.written (registers i.address i.units) (clears (arriving arrivals))
                  (burst_log registers is (later arrivals))))
