-- ===== src/Driver/Calls/Idle.antt =====
-- What every call of the driver keeps: the list of mapped areas, and a completion without owner.
use deep_space_detection.Base.{
  true, ℕ, ◌≡◌, ◌≢◌, refl, sym, ap, ◌∙◌, arith, ◌⊎◌, inl, inr, Bool-cases, ◌==◌, ◌&&◌,
  if◌then◌else◌, List, [], ◌∷◌, Option, none, some, ok, fault, Post, Post-then, Post-if,
}
use mathlib.Core.Path.{subst, Path}
use deep_space_detection.Driver.Device.{Completion, Pointer, null, dangling, Device}
use deep_space_detection.Driver.Memory.{
  Rc, Allocation, Memory, Vma, update, unset, mapped, efault, axitangxi_mmap,
}
use deep_space_detection.Driver.Memory.Laws.{Live, Absent, update_self}
use deep_space_detection.Driver.Irq.{irq_handler, complete_at, s2mm_ps_done, s2mm_pl_done}
use deep_space_detection.Driver.Loopback.{Transaction, Returned, axitangxi_psddr_plddr_loopback}
use deep_space_detection.Driver.Loopback.Dangling.{Dangles, axitangxi_psddr_plddr_loopback-Dangles}
use deep_space_detection.Driver.Ioctl.{
  IoctlNumbers, NetworkAccReg, psddr_plddr_loopback, with_copy, axitangxi_ioctl,
}
use deep_space_detection.Driver.Ioctl.Laws.{
  axitangxi_ioctl_unchanged, axitangxi_ioctl-psddr_plddr_loopback,
}
use deep_space_detection.Driver.Calls.{
  Driver, IsNew, Call, Reachable, open_file, release_file, mmap, munmap, user_maps, keeps_areas,
  ioctl, interrupt, start, after_call,
}

-- No function that is running owns the completion.
abbrev pub IsUnowned : {S : Type 0} → Pointer S → Type 0
IsUnowned p = (p ≡ null) ⊎ (p ≡ dangling)

-- An object that is not allocated is on no list of those that are.
Live-Absent :
    (objects : ℕ → Option Allocation) (p : ℕ) (ps : List ℕ)
    → objects p ≡ none
    → Live objects ps
    → Absent p ps
Live-Absent objects p [] free h = tt
Live-Absent objects p (q ∷ qs) free ((a, e), h) = (apart, Live-Absent objects p qs free h)
  where
    apart : p ≢ q
    apart same = cc

Live-update :
    (objects : ℕ → Option Allocation) (p : ℕ) (v : Option Allocation) (ps : List ℕ)
    → Absent p ps
    → Live objects ps
    → Live (update objects p v) ps
Live-update objects p v [] apart h = tt
Live-update objects p v (q ∷ qs) (apart, rest) ((a, e), h) =
    ((a, other ∙ e), Live-update objects p v qs rest h)
  where
    other : update objects p v q ≡ objects q
    other = ground arith

mmap-Live :
    (vma : Vma) (object kbuff : Option ℕ) (virt_to_phys : ℕ → ℕ) (remapped : Rc) (m : Memory)
    → IsNew object m
    → Live m.objects m.addr_list
    → let m' = (axitangxi_mmap vma object kbuff virt_to_phys remapped m).1 in
      Live m'.objects m'.addr_list
unfolding axitangxi_mmap
mmap-Live vma none kbuff virt_to_phys remapped m new h = h
mmap-Live vma (some p) none virt_to_phys remapped m new h =
    Live-update m.objects p (some unset) m.addr_list (Live-Absent m.objects p m.addr_list new h) h
mmap-Live vma (some p) (some b) virt_to_phys (some e) m new h =
    Live-update m.objects p (some unset) m.addr_list (Live-Absent m.objects p m.addr_list new h) h
mmap-Live vma (some p) (some b) virt_to_phys none m new h =
    let apart = Live-Absent m.objects p m.addr_list new h in
    let a = mapped vma b (virt_to_phys b) in
    (
      (a, update_self (update m.objects p (some unset)) p (some a)),
      Live-update (update m.objects p (some unset)) p (some a) m.addr_list apart
          (Live-update m.objects p (some unset) m.addr_list apart h),
    )

module _ (K : Completion) (N : IoctlNumbers) where
  -- Every listed area is allocated, and the completion has no owner.
  abbrev pub IsIdle : Driver K N → Type 0
  IsIdle s = Live s.memory.objects s.memory.addr_list × IsUnowned s.device.comp

  pub complete_at-fault :
      (d : Device K.State) (p : Pointer K.State) → IsUnowned p → complete_at K d p ≡ fault
  unfolding complete_at
  complete_at-fault d p h = elim h [ inl e ↦ rw e refl | inr e ↦ rw e refl ]

  irq_handler-comp :
      (i : ℕ) (d : Device K.State)
      → IsUnowned d.comp
      → Post (λ e. e.comp ≡ d.comp) (irq_handler K i d)
  unfolding irq_handler
  irq_handler-comp i d h =
      let same : Device K.State → Type 0 = λ e. e.comp ≡ d.comp in
      Post-then same same
        (if i == s2mm_ps_done && d.last_s2mm_ps_done
          then complete_at K d d.comp
          else if i == s2mm_pl_done && d.last_s2mm_pl_done
          then complete_at K d d.comp
          else ok d)
        _
        (rw (complete_at-fault d d.comp h) (
          Post-if same (i == s2mm_ps_done && d.last_s2mm_ps_done) _ _ tt
            (Post-if same (i == s2mm_pl_done && d.last_s2mm_pl_done) _ _ tt refl)))
        λ e kept. kept

  device_of : Option (Returned K) → Device K.State → Device K.State
  device_of (some (ok (rc, e))) d = e
  device_of none d = d
  device_of (some fault) d = d

  -- A result that is known, of a call that may leave the pointer dangling.
  Dangles-comp :
      (r : Option (Returned K)) (rc : Rc) (e : Device K.State)
      → r ≡ some (ok (rc, e))
      → Dangles K r
      → IsUnowned e.comp
  Dangles-comp r rc e run h = inr (rw run at h)

  same_device :
      (rc rc' : Rc) (d e : Device K.State)
      → Path (Option (Returned K)) (some (ok (rc', d))) (some (ok (rc, e)))
      → IsUnowned d.comp
      → IsUnowned e.comp
  unfolding device_of
  same_device rc rc' d e run h = subst (λ x. IsUnowned x.comp) (ap (λ r. device_of r d) run) h

  with_copy-comp :
      (k : ℕ) (m : Memory) (transaction : Option Transaction) (d e : Device K.State)
      (arrivals : List (List ℕ)) (rc : Rc)
      → with_copy K transaction d (λ t. axitangxi_psddr_plddr_loopback K k m t d arrivals)
        ≡ some (ok (rc, e))
      → IsUnowned d.comp
      → IsUnowned e.comp
  with_copy-comp k m none d e arrivals rc run h = same_device rc (some efault) d e run h
  with_copy-comp k m (some t) d e arrivals rc run h =
      Dangles-comp (axitangxi_psddr_plddr_loopback K k m t d arrivals) rc e run
        (axitangxi_psddr_plddr_loopback-Dangles K k m t d arrivals)

  ioctl-comp :
      (k : ℕ) (m : Memory) (transaction : Option Transaction) (registers : Option NetworkAccReg)
      (cmd : ℕ) (d e : Device K.State) (arrivals : List (List ℕ)) (rc : Rc)
      → axitangxi_ioctl K N k m transaction registers cmd d arrivals ≡ some (ok (rc, e))
      → IsUnowned d.comp
      → IsUnowned e.comp
  ioctl-comp k m transaction registers cmd d e arrivals rc run h =
      elim (Bool-cases (cmd == psddr_plddr_loopback N)) [
        | inl is ↦
            let same : cmd ≡ psddr_plddr_loopback N = ground arith in
            with_copy-comp k m transaction d e arrivals rc
              (sym (axitangxi_ioctl-psddr_plddr_loopback K N k m transaction registers d arrivals)
                ∙ ap (λ c. axitangxi_ioctl K N k m transaction registers c d arrivals) (sym same)
                ∙ run)
              h
        | inr isnt ↦
            let other : cmd ≢ psddr_plddr_loopback N = λ same. ground arith in
            let (rc', unchanged) =
              axitangxi_ioctl_unchanged K N k m transaction registers d arrivals cmd other in
            same_device rc rc' d e (sym unchanged ∙ run) h
      ]

  Call-IsIdle :
      {s t : Driver K N} (call : Call K N s t) → keeps_areas K N call ≡ true → IsIdle s → IsIdle t
  Call-IsIdle open_file keeps h = h
  Call-IsIdle (munmap object) keeps h = absurd (cc keeps)
  Call-IsIdle release_file keeps h = h
  Call-IsIdle (user_maps reads) keeps h = h
  Call-IsIdle {s = s} (mmap vma object kbuff virt_to_phys remapped opened new) keeps
        (live, unowned) =
      (mmap-Live vma object kbuff virt_to_phys remapped s.memory new live, unowned)
  Call-IsIdle {s = s} (ioctl k transaction registers cmd arrivals rc e opened run) keeps
        (live, unowned) =
      (live, ioctl-comp k s.memory transaction registers cmd s.device e arrivals rc run unowned)
  Call-IsIdle {s = s} (interrupt i e run) keeps (live, unowned) =
      let kept = irq_handler-comp i s.device unowned in
      (live, subst IsUnowned (sym (rw run at kept)) unowned)

  -- The invariant.
  pub Reachable-IsIdle : {s : Driver K N} → Reachable K N s → IsIdle s
  Reachable-IsIdle start = (tt, inl refl)
  Reachable-IsIdle (after_call before call keeps) = Call-IsIdle call keeps (Reachable-IsIdle before)
