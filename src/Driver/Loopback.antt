-- ===== src/Driver/Loopback.antt =====
-- The transfers of axi_tangxi.c. Interrupts arrive between the bursts and before each wait: the
-- `arrivals` of a function say which.
pub mod Phase
pub mod Leg
pub mod Laws
pub mod Dangling
use deep_space_detection.Base.{
  ◌+◌, u64, ◌&&◌, zero, suc, Bool, ℕ, ◌==◌, ◌||◌, if◌then◌else◌, true, false, List, [], ◌∷◌, Option,
  none, some, Run, ok, fault, ◌>>=◌, u32,
}
use deep_space_detection.Driver.Burst.{Burst, transfer}
use deep_space_detection.Driver.Device.{
  Completion, Pointer, null, to, dangling, uninitialised, Device,
}
use deep_space_detection.Driver.Commands.{
  mm2s_ps_data_tangxi, mm2s_ps_data_s2mm_pl, s2mm_ps_data_mm2s_pl,
}
use deep_space_detection.Driver.Irq.{interrupts}
use deep_space_detection.Driver.Memory.{Errno, etime, Rc, Memory, axitangxi_uservirt_to_phys}

-- `struct axitangxi_transaction`, less the fields that nothing reads.
pub record Transaction : Type 0 where
  pub tx_data_size : ℕ
  pub rx_data_size : ℕ
  pub burst_size : ℕ
  pub burst_count : ℕ
  pub burst_data : ℕ
  pub tx_data_ps_ptr : ℕ
  pub rx_data_ps_ptr : ℕ
  pub node : ℕ

-- `struct axitangxi_transfer`: the addresses are physical.
pub record Transfer : Type 0 where
  pub tx_data_size : ℕ
  pub rx_data_size : ℕ
  pub burst_size : ℕ
  pub burst_count : ℕ
  pub burst_data : ℕ
  pub tx_data_ps_ptr : ℕ
  pub rx_data_ps_ptr : ℕ
  pub tx_data_pl_ptr : ℕ
  pub rx_data_pl_ptr : ℕ
  pub node : ℕ

-- The interrupts that arrive next, and those after them.
abbrev pub arriving : List (List ℕ) → List ℕ
arriving [] = []
arriving (is ∷ iss) = is

abbrev pub later : List (List ℕ) → List (List ℕ)
later [] = []
later (is ∷ iss) = iss

-- The first values of the loop's variables.
abbrev pub first_burst : ℕ → Transfer → ℕ → Burst
first_burst size t next = record {
  data_remaining = u32 size;
  burst_size = u32 t.burst_size;
  burst_data = u32 t.burst_data;
  next = next;
}

-- What the loopback copies: the address on the card is the one of the data to send.
abbrev pub transfer_of : Transaction → ℕ → ℕ → Transfer
transfer_of t tx rx = record {
  tx_data_size = t.tx_data_size;
  rx_data_size = t.rx_data_size;
  burst_size = t.burst_size;
  burst_count = t.burst_count;
  burst_data = t.burst_data;
  tx_data_ps_ptr = u32 tx;
  rx_data_ps_ptr = u32 rx;
  tx_data_pl_ptr = u32 tx;
  rx_data_pl_ptr = u32 tx;
  node = t.node;
}

-- What follows a loop, if the loop has ended.
abbrev pub continue {ℓ} : {A B : Type ℓ} → Option A → (A → Option B) → Option B
continue none f = none
continue (some a) f = f a

-- Whether so many words can be read, from an address on.
abbrev pub reads_words : (ℕ → Bool) → ℕ → ℕ → Bool
reads_words reads zero p = true
reads_words reads (suc n) p = reads p && reads_words reads n (u64 (p + 4))

module _ (K : Completion) where
  -- A running transfer: the device, and the arrivals that are still to come.
  abbrev pub Running : Type 0
  Running = Run (Device K.State × List (List ℕ))

  -- One burst: `mark` sets the flag for the last one, `command` writes its registers, and then the
  -- next interrupts arrive.
  abbrev pub issue :
      (Device K.State → Device K.State)
      → (ℕ → ℕ → Device K.State → Device K.State)
      → Running
      → ℕ
      → ℕ
      → ℕ
      → Running
  issue mark command s next size left = do
    (d, arrivals) ← s
    let d = if left == 0 then mark d else d
    d ← interrupts K (arriving arrivals) (command next size d)
    ok (d, later arrivals)

  abbrev pub mark_s2mm_pl : Device K.State → Device K.State
  mark_s2mm_pl d = record d { last_s2mm_pl_done = true }

  abbrev pub mark_s2mm_ps : Device K.State → Device K.State
  mark_s2mm_ps d = record d { last_s2mm_ps_done = true }

  -- The number before the transfer is the fuel for the rounds of the loop.
  unfoldable pub axitangxi_psddr_plddr : ℕ → Transfer → Running → Option Running
  axitangxi_psddr_plddr k t s =
      transfer (issue mark_s2mm_pl (λ next size. mm2s_ps_data_s2mm_pl next t.tx_data_pl_ptr size)) k
        s (first_burst t.tx_data_size t t.tx_data_ps_ptr)

  -- The size is the one of the data that was sent.
  unfoldable pub axitangxi_plddr_psddr : ℕ → Transfer → Running → Option Running
  axitangxi_plddr_psddr k t s =
      transfer (issue mark_s2mm_ps (λ next size. s2mm_ps_data_mm2s_pl next t.tx_data_pl_ptr size)) k
        s (first_burst t.tx_data_size t t.rx_data_ps_ptr)

  unfoldable pub batch_mm2s_ps_data_tangxi : ℕ → Transfer → Running → Option Running
  batch_mm2s_ps_data_tangxi k t s =
      transfer (issue (λ d. d) (λ next size. mm2s_ps_data_tangxi next t.rx_data_pl_ptr size 0 3)) k
        s (first_burst t.tx_data_size t t.tx_data_ps_ptr)

  unfoldable pub batch_s2mm_ps_data_mm2s_pl : ℕ → Transfer → Running → Option Running
  batch_s2mm_ps_data_mm2s_pl k t s =
      transfer (issue (λ d. d) (λ next size. s2mm_ps_data_mm2s_pl next t.rx_data_pl_ptr size)) k s
        (first_burst t.rx_data_size t t.rx_data_ps_ptr)

  -- It returns 0 always. The delays are not modelled.
  unfoldable pub axi_tangxi_loopback : ℕ → Transfer → Running → Option Running
  axi_tangxi_loopback k t s =
      continue (batch_mm2s_ps_data_tangxi k t s) (batch_s2mm_ps_data_mm2s_pl k t)

  -- `init_completion(axitangxi_irq_data.comp)`
  abbrev pub init_completion : Device K.State → Device K.State
  init_completion d = record d { comp = to K.init }

  -- The pointer is not reset when the function that owns the completion returns.
  abbrev pub leave : Device K.State → Device K.State
  leave d = record d { comp = dangling }

  abbrev pub woken : Device K.State → Option K.State → Device K.State × Bool
  woken d none = (d, false)
  woken d (some c) = (record d { comp = to c }, true)

  abbrev pub wait_at : Device K.State → Pointer K.State → Run (Device K.State × Bool)
  wait_at d null = fault
  wait_at d (to c) = ok (woken d (K.wait c))
  wait_at d dangling = fault
  wait_at d uninitialised = fault

  -- `wait_for_completion_timeout(axitangxi_irq_data.comp, timeout)`, after the interrupts that
  -- arrive meanwhile: whether it was completed in time, and the later arrivals.
  abbrev pub wait_response : Running → Run ((Device K.State × Bool) × List (List ℕ))
  wait_response s = do
    (d, arrivals) ← s
    d ← interrupts K (arriving arrivals) d
    r ← wait_at d d.comp
    ok (r, later arrivals)

  abbrev pub Returned : Type 0
  Returned = Run (Rc × Device K.State)

  abbrev pub after_wait :
      Run ((Device K.State × Bool) × List (List ℕ)) → (Running → Option Returned) → Option Returned
  after_wait fault next = some fault
  after_wait (ok ((d, false), arrivals)) next = some (ok (some etime, leave d))
  after_wait (ok ((d, true), arrivals)) next = next (ok (d, arrivals))

  abbrev pub first_leg :
      ℕ → Transfer → Device K.State → List (List ℕ) → (Running → Option Returned) → Option Returned
  first_leg k t d arrivals next =
      continue (axitangxi_psddr_plddr k t (ok (init_completion d, arrivals)))
        (λ s. after_wait (wait_response s) next)

  abbrev pub second_leg : ℕ → Transfer → Running → Option Returned
  second_leg k t s =
      continue (axitangxi_plddr_psddr k t (s >>= λ (d, arrivals). ok (init_completion d, arrivals)))
        (λ s. after_wait (wait_response s) (λ s. some (s >>= λ (d, arrivals). ok (none, leave d))))

  -- The two directions, from the first `init_completion` on.
  abbrev pub both_legs : ℕ → Transfer → Device K.State → List (List ℕ) → Option Returned
  both_legs k x d arrivals = first_leg k x d arrivals (second_leg k x)

  -- After the interrupts that arrive while the completion is not initialised.
  abbrev pub once_ready :
      Run (Device K.State) → (Device K.State → Option Returned) → Option Returned
  once_ready fault next = some fault
  once_ready (ok d) next = next d

  -- From the pointer to the completion on. The first ten words of the data to send are read and
  -- printed, through the user's pointer.
  abbrev pub show_words : Bool → ℕ → Transfer → Device K.State → List (List ℕ) → Option Returned
  show_words false k x d arrivals = some fault
  show_words true k x d arrivals =
      once_ready (interrupts K (arriving arrivals) (record d { comp = uninitialised }))
        (λ d. both_legs k x d (later arrivals))

  loopback_at :
      ℕ
      → (ℕ → Bool)
      → Transaction
      → Run ℕ
      → Run ℕ
      → Device K.State
      → List (List ℕ)
      → Option Returned
  loopback_at k reads t fault tx d arrivals = some fault
  loopback_at k reads t (ok rx) fault d arrivals = some fault
  loopback_at k reads t (ok rx) (ok tx) d arrivals =
      show_words (reads_words reads 10 t.tx_data_ps_ptr) k (transfer_of t tx rx) d arrivals

  -- `none` only if the fuel for the rounds of a loop is not enough. The first arrivals are those
  -- before the first `init_completion`.
  unfoldable pub axitangxi_psddr_plddr_loopback :
      ℕ → Memory → Transaction → Device K.State → List (List ℕ) → Option Returned
  unfolding loopback_at
  axitangxi_psddr_plddr_loopback k m t d arrivals =
      loopback_at k m.reads t (axitangxi_uservirt_to_phys m t.rx_data_ps_ptr)
        (axitangxi_uservirt_to_phys m t.tx_data_ps_ptr) d arrivals
