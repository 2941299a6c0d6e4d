-- ===== src/Driver/Loopback/Dangling.antt =====
-- What the loopback leaves of the pointer to its completion, for any transaction.
use deep_space_detection.Base.{
  ℕ, ◌≡◌, refl, Bool, true, false, List, Option, none, some, Run, ok, fault, ◌>>=◌, Post,
}
use deep_space_detection.Driver.Device.{Completion, dangling, uninitialised, Device}
use deep_space_detection.Driver.Irq.{interrupts}
use deep_space_detection.Driver.Memory.{Memory, axitangxi_uservirt_to_phys}
use deep_space_detection.Driver.Loopback.{
  Transaction, both_legs, once_ready, show_words, reads_words, arriving, later, Running, Returned,
  continue, after_wait, wait_response, second_leg, transfer_of, leave, loopback_at,
  axitangxi_psddr_plddr, axitangxi_plddr_psddr, init_completion, axitangxi_psddr_plddr_loopback,
}

module _ (K : Completion) where
  -- If the call returns, the pointer dangles.
  abbrev pub Dangles : Option (Returned K) → Type 0
  Dangles none = Unit
  Dangles (some r) = Post (λ x. x.1.comp ≡ dangling) r

  after_wait-Dangles :
      (w : Run ((Device K.State × Bool) × List (List ℕ))) (next : Running K → Option (Returned K))
      → ((s : Running K) → Dangles (next s))
      → Dangles (after_wait K w next)
  after_wait-Dangles fault next h = tt
  after_wait-Dangles (ok ((d, false), arrivals)) next h = refl
  after_wait-Dangles (ok ((d, true), arrivals)) next h = h (ok (d, arrivals))

  continue-Dangles :
      (o : Option (Running K)) (f : Running K → Option (Returned K))
      → ((s : Running K) → Dangles (f s))
      → Dangles (continue o f)
  continue-Dangles none f h = tt
  continue-Dangles (some s) f h = h s

  returned-Dangles : (s : Running K) → Dangles (some (s >>= λ (d, arrivals). ok (none, leave K d)))
  returned-Dangles fault = tt
  returned-Dangles (ok (d, arrivals)) = refl

  second_leg-Dangles :
      (k : ℕ) (t : Transaction) (tx rx : ℕ) (s : Running K)
      → Dangles (second_leg K k (transfer_of t tx rx) s)
  second_leg-Dangles k t tx rx s =
      continue-Dangles
        (axitangxi_plddr_psddr K k (transfer_of t tx rx)
          (s >>= λ (d, arrivals). ok (init_completion K d, arrivals)))
        _ λ r. after_wait-Dangles (wait_response K r) _ returned-Dangles

  once_ready-Dangles :
      (r : Run (Device K.State)) (next : Device K.State → Option (Returned K))
      → ((d : Device K.State) → Dangles (next d))
      → Dangles (once_ready K r next)
  once_ready-Dangles fault next h = tt
  once_ready-Dangles (ok d) next h = h d

  both_legs-Dangles :
      (k : ℕ) (t : Transaction) (tx rx : ℕ) (d : Device K.State) (arrivals : List (List ℕ))
      → Dangles (both_legs K k (transfer_of t tx rx) d arrivals)
  both_legs-Dangles k t tx rx d arrivals =
      continue-Dangles
        (axitangxi_psddr_plddr K k (transfer_of t tx rx) (ok (init_completion K d, arrivals))) _
        λ r. after_wait-Dangles (wait_response K r) _ (second_leg-Dangles k t tx rx)

  show_words-Dangles :
      (b : Bool) (k : ℕ) (t : Transaction) (tx rx : ℕ) (d : Device K.State)
      (arrivals : List (List ℕ))
      → Dangles (show_words K b k (transfer_of t tx rx) d arrivals)
  show_words-Dangles false k t tx rx d arrivals = tt
  show_words-Dangles true k t tx rx d arrivals =
      once_ready-Dangles (interrupts K (arriving arrivals) (record d { comp = uninitialised })) _
        λ e. both_legs-Dangles k t tx rx e (later arrivals)

  loopback_at-Dangles :
      (k : ℕ) (reads : ℕ → Bool) (t : Transaction) (rx tx : Run ℕ) (d : Device K.State)
      (arrivals : List (List ℕ))
      → Dangles (loopback_at K k reads t rx tx d arrivals)
  unfolding loopback_at
  loopback_at-Dangles k reads t fault tx d arrivals = tt
  loopback_at-Dangles k reads t (ok rx) fault d arrivals = tt
  loopback_at-Dangles k reads t (ok rx) (ok tx) d arrivals =
      show_words-Dangles (reads_words reads 10 t.tx_data_ps_ptr) k t tx rx d arrivals

  pub axitangxi_psddr_plddr_loopback-Dangles :
      (k : ℕ) (m : Memory) (t : Transaction) (d : Device K.State) (arrivals : List (List ℕ))
      → Dangles (axitangxi_psddr_plddr_loopback K k m t d arrivals)
  unfolding axitangxi_psddr_plddr_loopback
  axitangxi_psddr_plddr_loopback-Dangles k m t d arrivals =
      loopback_at-Dangles k m.reads t (axitangxi_uservirt_to_phys m t.rx_data_ps_ptr)
        (axitangxi_uservirt_to_phys m t.tx_data_ps_ptr) d arrivals
