-- ===== src/Driver/Loopback/Leg.antt =====
-- One direction of the loopback: the bursts, the interrupts, and the wait for the completion.
use deep_space_detection.Base.{
  ℕ, ◌≡◌, refl, ap, ◌∙◌, List, ◌++◌, Bool, true, false, ◌||◌, ok, Option, none, some, Bool-cases,
  inl, inr,
}
use mathlib.Core.List.{append_assoc}
use deep_space_detection.Driver.Registers.{Register}
use deep_space_detection.Driver.Device.{Completion, to, Device}
use deep_space_detection.Driver.Burst.Plan.{Item, run_plan}
use deep_space_detection.Driver.Irq.Laws.{
  clears, any_ends, after, interrupts_lem, wait-after, wait-after_ends, after_none,
}
use deep_space_detection.Driver.Loopback.{
  arriving, later, issue, init_completion, wait_response, woken,
}
use deep_space_detection.Driver.Loopback.Phase.{
  marked, after_bursts, signalled, burst_log, state_after, device_after, wait-state_after-signalled,
  state_after_quiet, run_plan-issue,
}

-- Whether an interrupt ends the transfer before the wait does.
abbrev pub heard : (Bool → Bool) → (Bool → Bool) → List Item → Bool → Bool → List (List ℕ) → Bool
heard fps fpl is ps pl arrivals =
    signalled fps fpl is ps pl arrivals
    || any_ends (marked fps is ps) (marked fpl is pl) (arriving (after_bursts is arrivals))

-- All that one direction writes.
abbrev pub leg_log : (ℕ → ℕ → List (Register × ℕ)) → List Item → List (List ℕ) → List (Register × ℕ)
leg_log registers is arrivals =
    burst_log registers is arrivals ++ clears (arriving (after_bursts is arrivals))

module _ (K : Completion) (fps fpl : Bool → Bool) where
  abbrev last_state : List Item → Bool → Bool → List (List ℕ) → K.State
  last_state is ps pl arrivals =
      after K (marked fps is ps) (marked fpl is pl) (state_after K fps fpl is ps pl K.init arrivals)
        (arriving (after_bursts is arrivals))

  wait-last_state-heard :
      (is : List Item) (ps pl : Bool) (arrivals : List (List ℕ))
      → heard fps fpl is ps pl arrivals ≡ true
      → (t : K.State) × (K.wait (last_state is ps pl arrivals) ≡ some t)
  wait-last_state-heard is ps pl arrivals h =
      let ps' = marked fps is ps in
      let pl' = marked fpl is pl in
      let c = state_after K fps fpl is ps pl K.init arrivals in
      elim (Bool-cases (signalled fps fpl is ps pl arrivals)) [
        | inl e ↦
            wait-after K ps' pl' c (arriving (after_bursts is arrivals))
              (wait-state_after-signalled K fps fpl is ps pl K.init arrivals e)
        | inr e ↦ wait-after_ends K ps' pl' c (arriving (after_bursts is arrivals)) (rw e at h)
      ]

  wait-last_state_quiet :
      (is : List Item) (ps pl : Bool) (arrivals : List (List ℕ))
      → heard fps fpl is ps pl arrivals ≡ false
      → K.wait (last_state is ps pl arrivals) ≡ none
  wait-last_state_quiet is ps pl arrivals h =
      let ps' = marked fps is ps in
      let pl' = marked fpl is pl in
      elim (Bool-cases (signalled fps fpl is ps pl arrivals)) [
        | inl e ↦ cc (rw e at h)
        | inr e ↦
            rw
              (
                state_after_quiet K fps fpl is ps pl K.init arrivals e,
                after_none K ps' pl' K.init (arriving (after_bursts is arrivals)) (rw e at h),
              )
              K.wait-init
      ]

  -- What is left when the wait ends.
  abbrev pub Left : List Item → Device K.State → List (Register × ℕ) → Device K.State → Type 0
  Left is d log e =
      (e.last_s2mm_ps_done ≡ marked fps is d.last_s2mm_ps_done)
      × (e.last_s2mm_pl_done ≡ marked fpl is d.last_s2mm_pl_done)
      × (e.written ≡ d.written ++ log)

  woken_lem :
      (d : Device K.State) (o : Option K.State) (b : Bool)
      → (b ≡ true → (t : K.State) × (o ≡ some t))
      → (b ≡ false → o ≡ none)
      → (e : Device K.State) × (woken K d o ≡ (e, b))
        × (e.last_s2mm_ps_done ≡ d.last_s2mm_ps_done)
        × (e.last_s2mm_pl_done ≡ d.last_s2mm_pl_done)
        × (e.written ≡ d.written)
  woken_lem d (some c) true t f = (record d { comp = to c }, refl, refl, refl, refl)
  woken_lem d none false t f = (d, refl, refl, refl, refl)
  woken_lem d (some c) false t f = cc (f refl)
  woken_lem d none true t f = let (_, e) = t refl in cc e

  module _ (command : ℕ → ℕ → Device K.State → Device K.State)
      (registers : ℕ → ℕ → List (Register × ℕ))
      (command_lem : (n size : ℕ) (d : Device K.State)
        → command n size d ≡ record d { written = d.written ++ registers n size }) where
    abbrev mark : Device K.State → Device K.State
    mark d = record d {
      last_s2mm_ps_done = fps d.last_s2mm_ps_done;
      last_s2mm_pl_done = fpl d.last_s2mm_pl_done;
    }

    -- The wait is completed in time exactly if some interrupt ended the transfer.
    pub wait_response_lem :
        (is : List Item) (d : Device K.State) (arrivals : List (List ℕ))
        → (e : Device K.State) × (wait_response K
              (run_plan (issue K mark command) (ok (init_completion K d, arrivals)) is)
            ≡ ok (
              (e, heard fps fpl is d.last_s2mm_ps_done d.last_s2mm_pl_done arrivals),
              later (after_bursts is arrivals),
            ))
          × Left is d (leg_log registers is arrivals) e
    wait_response_lem is d arrivals =
        let d' = init_completion K d in
        let d₁ = device_after K fps fpl command registers command_lem is d' K.init arrivals in
        let arrivals' = after_bursts is arrivals in
        let c = last_state is d.last_s2mm_ps_done d.last_s2mm_pl_done arrivals in
        let d₂ = record d₁ { comp = to c; written = d₁.written ++ clears (arriving arrivals') } in
        let (e, w, ps, pl, l) =
          woken_lem d₂ (K.wait c)
            (heard fps fpl is d.last_s2mm_ps_done d.last_s2mm_pl_done arrivals)
            (wait-last_state-heard is d.last_s2mm_ps_done d.last_s2mm_pl_done arrivals)
            (wait-last_state_quiet is d.last_s2mm_ps_done d.last_s2mm_pl_done arrivals) in
        (
          e,
          rw
              (
                run_plan-issue K fps fpl command registers command_lem is d' K.init arrivals refl,
                interrupts_lem K (arriving arrivals') d₁
                    (state_after K fps fpl is d.last_s2mm_ps_done d.last_s2mm_pl_done K.init
                      arrivals)
                    refl,
              )
              (ap (λ r. ok (r, later arrivals')) w),
          (
            ps,
            pl,
            l
                ∙ append_assoc d.written (burst_log registers is arrivals)
                    (clears (arriving arrivals')),
          ),
        )
