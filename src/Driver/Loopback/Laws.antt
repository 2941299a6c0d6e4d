-- ===== src/Driver/Loopback/Laws.antt =====
-- The return code of the loopback, and what it leaves behind.
use deep_space_detection.Base.{
  ℕ, not, fault, arith, ◌≡◌, ◌≤◌, ◌<◌, ◌*◌, ◌-◌, ◌^◌, refl, ap, sym, ◌∙◌, List, [], ◌++◌, Bool,
  true, false, ◌&&◌, if◌then◌else◌, ok, ◌>>=◌, Option, none, some, Bool-cases, inl, inr, u32,
}
use mathlib.Core.List.{append-nil, append_assoc}
use deep_space_detection.Driver.Registers.{Register}
use deep_space_detection.Driver.Device.{Completion, dangling, uninitialised, Device}
use deep_space_detection.Driver.Burst.Plan.{Item, plan, run_plan, transfer-plan}
use deep_space_detection.Driver.Commands.{mm2s_ps_data_s2mm_pl, s2mm_ps_data_mm2s_pl}
use deep_space_detection.Driver.Commands.Laws.{
  psddr_plddr_registers, plddr_psddr_registers, to_card, from_card,
}
use deep_space_detection.Driver.Memory.{etime, Memory, axitangxi_uservirt_to_phys}
use deep_space_detection.Driver.Loopback.{
  Transaction, transfer_of, arriving, later, Running, both_legs, reads_words, loopback_at, issue,
  mark_s2mm_pl, mark_s2mm_ps, init_completion, continue, wait_response, after_wait, Returned, leave,
  axitangxi_psddr_plddr, axitangxi_plddr_psddr, axitangxi_psddr_plddr_loopback, first_leg,
  second_leg,
}
use deep_space_detection.Driver.Irq.Laws.{
  any_ends, clears, interrupts_idle, interrupts_uninitialised,
}
use deep_space_detection.Driver.Loopback.Phase.{marked, after_bursts}
use deep_space_detection.Driver.Loopback.Leg.{heard, leg_log, wait_response_lem, Left}

-- The flag that the last burst sets.
abbrev pub keep : Bool → Bool
keep b = b

abbrev pub set : Bool → Bool
set b = true

module _ (K : Completion) where
  -- The end of the function.
  returned : Running K → Option (Returned K)
  returned s = some (s >>= λ (d, arrivals). ok (none, leave K d))

  after_last_wait :
      (b : Bool) (e : Device K.State) (arrivals : List (List ℕ))
      → after_wait K (ok ((e, b), arrivals)) returned
        ≡ some (ok (if b then none else some etime, leave K e))
  unfolding returned
  after_last_wait true e arrivals = refl
  after_last_wait false e arrivals = refl

  after_first_wait :
      (b : Bool) (e : Device K.State) (arrivals : List (List ℕ))
      (next : Running K → Option (Returned K))
      → after_wait K (ok ((e, b), arrivals)) next
        ≡ (if b then next (ok (e, arrivals)) else some (ok (some etime, leave K e)))
  after_first_wait true e arrivals next = refl
  after_first_wait false e arrivals next = refl

  module _ (k : ℕ) (t : Transaction) where
    -- The bursts from an address on.
    abbrev pub bursts : ℕ → List Item
    bursts a = plan k (u32 t.burst_size) (u32 a) (u32 t.tx_data_size)

    -- Whether each wait of the loopback is completed in time.
    abbrev pub first_heard : ℕ → Device K.State → List (List ℕ) → Bool
    first_heard tx d arrivals =
        heard keep set (bursts tx) d.last_s2mm_ps_done d.last_s2mm_pl_done arrivals

    abbrev pub second_heard : ℕ → ℕ → Device K.State → List (List ℕ) → Bool
    second_heard tx rx d arrivals =
        heard set keep (bursts rx) (marked keep (bursts tx) d.last_s2mm_ps_done)
          (marked set (bursts tx) d.last_s2mm_pl_done) (later (after_bursts (bursts tx) arrivals))

    -- All that the loopback writes.
    abbrev pub loopback_log : ℕ → ℕ → Device K.State → List (List ℕ) → List (Register × ℕ)
    loopback_log tx rx d arrivals =
        leg_log (psddr_plddr_registers (u32 tx)) (bursts tx) arrivals
        ++ (if first_heard tx d arrivals
            then leg_log (plddr_psddr_registers (u32 tx)) (bursts rx)
                (later (after_bursts (bursts tx) arrivals))
            else [])

    module _ (some_units : 0 < u32 t.burst_size) (whole : u32 t.burst_data ≡ 16 * u32 t.burst_size)
        (fits : u32 t.tx_data_size ≤ 2 ^ 32 - 16)
        (fuel : u32 t.tx_data_size ≤ k * (16 * u32 t.burst_size)) where
      to_card_leg :
          (tx rx : ℕ) (s : Running K)
          → axitangxi_psddr_plddr K k (transfer_of t tx rx) s
            ≡ some (
                run_plan
                  (issue K (mark_s2mm_pl K) (λ next size. mm2s_ps_data_s2mm_pl next (u32 tx) size))
                  s
                  (bursts tx))
      unfolding axitangxi_psddr_plddr
      to_card_leg tx rx s = rw whole (
          transfer-plan
            (issue K (mark_s2mm_pl K) (λ next size. mm2s_ps_data_s2mm_pl next (u32 tx) size)) k s
            (u32 t.burst_size) (u32 tx) (u32 t.tx_data_size) some_units fits fuel)

      from_card_leg :
          (tx rx : ℕ) (s : Running K)
          → axitangxi_plddr_psddr K k (transfer_of t tx rx) s
            ≡ some (
                run_plan
                  (issue K (mark_s2mm_ps K) (λ next size. s2mm_ps_data_mm2s_pl next (u32 tx) size))
                  s
                  (bursts rx))
      unfolding axitangxi_plddr_psddr
      from_card_leg tx rx s = rw whole (
          transfer-plan
            (issue K (mark_s2mm_ps K) (λ next size. s2mm_ps_data_mm2s_pl next (u32 tx) size)) k s
            (u32 t.burst_size) (u32 rx) (u32 t.tx_data_size) some_units fits fuel)

      -- The first direction of the loopback, up to the end of its wait.
      first_leg_lem :
          (tx rx : ℕ) (d : Device K.State) (arrivals : List (List ℕ))
          (next : Running K → Option (Returned K))
          → (e : Device K.State) × (first_leg K k (transfer_of t tx rx) d arrivals next
              ≡ after_wait K
                  (ok (
                    (
                      e,
                      heard keep set (bursts tx) d.last_s2mm_ps_done d.last_s2mm_pl_done arrivals,
                    ),
                    later (after_bursts (bursts tx) arrivals),
                  ))
                  next)
            × Left K keep set
                (bursts tx)
                d
                (leg_log (psddr_plddr_registers (u32 tx)) (bursts tx) arrivals)
                e
      first_leg_lem tx rx d arrivals next =
          let (e, w, left) =
            wait_response_lem K keep set (λ n size. mm2s_ps_data_s2mm_pl n (u32 tx) size)
              (psddr_plddr_registers (u32 tx)) (to_card K (u32 tx)) (bursts tx) d arrivals in
          (
            e,
            ap (λ o. continue o (λ s. after_wait K (wait_response K s) next))
                  (to_card_leg tx rx (ok (init_completion K d, arrivals)))
                ∙ ap (λ r. after_wait K r next) w,
            left,
          )

      second_leg_lem :
          (tx rx : ℕ) (d : Device K.State) (arrivals : List (List ℕ))
          → (e : Device K.State) × (second_leg K k (transfer_of t tx rx) (ok (d, arrivals))
              ≡ some (
                  ok (
                    if heard set keep (bursts rx) d.last_s2mm_ps_done d.last_s2mm_pl_done arrivals
                        then none
                        else some etime,
                    leave K e,
                  )))
            × Left K set keep
                (bursts rx)
                d
                (leg_log (plddr_psddr_registers (u32 tx)) (bursts rx) arrivals)
                e
      unfolding returned
      second_leg_lem tx rx d arrivals =
          let (e, w, left) =
            wait_response_lem K set keep (λ n size. s2mm_ps_data_mm2s_pl n (u32 tx) size)
              (plddr_psddr_registers (u32 tx)) (from_card K (u32 tx)) (bursts rx) d arrivals in
          (
            e,
            ap (λ o. continue o (λ s. after_wait K (wait_response K s) returned))
                  (from_card_leg tx rx (ok (init_completion K d, arrivals)))
                ∙ ap (λ r. after_wait K r returned) w
                ∙ after_last_wait
                    (heard set keep (bursts rx) d.last_s2mm_ps_done d.last_s2mm_pl_done arrivals) e
                    (later (after_bursts (bursts rx) arrivals)),
            left,
          )

      -- Both directions, from the first `init_completion` on.
      both_legs_lem :
          (tx rx : ℕ) (d : Device K.State) (arrivals : List (List ℕ))
          → (e : Device K.State) × (both_legs K k (transfer_of t tx rx) d arrivals
              ≡ some (
                  ok (
                    if first_heard tx d arrivals && second_heard tx rx d arrivals
                        then none
                        else some etime,
                    e,
                  )))
            × (e.comp ≡ dangling)
            × (e.written ≡ d.written ++ loopback_log tx rx d arrivals)
      both_legs_lem tx rx d arrivals =
          let (e₁, w₁, (ps₁, pl₁, l₁)) =
            first_leg_lem tx rx d arrivals (second_leg K k (transfer_of t tx rx)) in
          let arrivals' = later (after_bursts (bursts tx) arrivals) in
          let (e₂, w₂, (ps₂, pl₂, l₂)) = second_leg_lem tx rx e₁ arrivals' in
          let split =
            after_first_wait (first_heard tx d arrivals) e₁ arrivals'
              (second_leg K k (transfer_of t tx rx)) in
          elim (Bool-cases (first_heard tx d arrivals)) [
            | inl h ↦ (
              leave K e₂,
              rw (w₁, split, h, w₂, ps₁, pl₁) refl,
              refl,
              rw (h, l₂, l₁)
                  (append_assoc d.written
                    (leg_log (psddr_plddr_registers (u32 tx)) (bursts tx) arrivals)
                    (leg_log (plddr_psddr_registers (u32 tx)) (bursts rx) arrivals')),
            )
            | inr h ↦ (
              leave K e₁,
              rw (w₁, split, h) refl,
              refl,
              rw (h, l₁) (ap (λ l. d.written ++ l) (sym (append-nil _))),
            )
          ]

      -- For a transaction whose bursts have some units of 16 bytes each and whose size is at
      -- most 2 ^ 32 - 16, with fuel for the bursts, where the searches for both addresses come
      -- to an end, with 0 for an address that the driver does not know, where the ten words from
      -- the user's pointer to the data to send can be read, and where no interrupt before the
      -- first `init_completion` ends a transfer by the flags as they were left, the loopback
      -- returns: 0 if in both directions an interrupt ends the transfer before the wait does,
      -- and `-ETIME` otherwise. It has then written the bursts of the plan to the card, in
      -- order, the second direction only after the first, with one clear for each interrupt; and
      -- the pointer to its completion dangles.
      pub axitangxi_psddr_plddr_loopback_lem :
          (m : Memory) (tx rx : ℕ) (d : Device K.State) (arrivals : List (List ℕ))
          → axitangxi_uservirt_to_phys m t.rx_data_ps_ptr ≡ ok rx
          → axitangxi_uservirt_to_phys m t.tx_data_ps_ptr ≡ ok tx
          → reads_words m.reads 10 t.tx_data_ps_ptr ≡ true
          → any_ends d.last_s2mm_ps_done d.last_s2mm_pl_done (arriving arrivals) ≡ false
          → let rest = later arrivals in
            (e : Device K.State) × (axitangxi_psddr_plddr_loopback K k m t d arrivals
              ≡ some (
                  ok (
                    if first_heard tx d rest && second_heard tx rx d rest then none else some etime,
                    e,
                  )))
            × (e.comp ≡ dangling)
            × (e.written ≡ d.written ++ clears (arriving arrivals) ++ loopback_log tx rx d rest)
      unfolding axitangxi_psddr_plddr_loopback loopback_at
      axitangxi_psddr_plddr_loopback_lem m tx rx d arrivals erx etx readable quiet =
          let d' = record d {
            comp = uninitialised;
            written = d.written ++ clears (arriving arrivals);
          } in
          let (e, run, dangles, log) = both_legs_lem tx rx d' (later arrivals) in
          let idle =
            interrupts_idle K (arriving arrivals) (record d { comp = uninitialised }) quiet in
          (e, rw (erx, etx, readable, idle) run, dangles, log)

  -- Where the searches for both addresses come to an end, for any transaction and any fuel, the
  -- loopback faults if one of the ten words from the user's pointer to the data to send cannot
  -- be read, and if one of the interrupts before the first `init_completion` ends a transfer by
  -- the flags as they were left: the handler then writes to the completion before it is
  -- initialised.
  pub axitangxi_psddr_plddr_loopback_faults :
      (k : ℕ) (m : Memory) (t : Transaction) (tx rx : ℕ) (d : Device K.State)
      (arrivals : List (List ℕ))
      → axitangxi_uservirt_to_phys m t.rx_data_ps_ptr ≡ ok rx
      → axitangxi_uservirt_to_phys m t.tx_data_ps_ptr ≡ ok tx
      → (reads_words m.reads 10 t.tx_data_ps_ptr
          && not (any_ends d.last_s2mm_ps_done d.last_s2mm_pl_done (arriving arrivals)))
        ≡ false
      → axitangxi_psddr_plddr_loopback K k m t d arrivals ≡ some fault
  unfolding axitangxi_psddr_plddr_loopback loopback_at
  axitangxi_psddr_plddr_loopback_faults k m t tx rx d arrivals erx etx h =
      let early = any_ends d.last_s2mm_ps_done d.last_s2mm_pl_done (arriving arrivals) in
      elim (Bool-cases (reads_words m.reads 10 t.tx_data_ps_ptr)) [
        | inl readable ↦
            let ended : early ≡ true = ground (arith, h, readable) in
            let dead =
              interrupts_uninitialised K (arriving arrivals) (record d { comp = uninitialised })
                refl ended in
            rw (erx, etx, readable, dead) refl
        | inr unreadable ↦ rw (erx, etx, unreadable) refl
      ]
