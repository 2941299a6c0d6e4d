-- ===== src/Driver/Device.antt =====
-- What the driver shares with the card and with its interrupt handler: the writes to registers,
-- the flags of `axitangxi_irq_data`, and the completion that it points to.
use deep_space_detection.Base.{ℕ, ◌≡◌, List, [], ◌∷◌, ◌++◌, Bool, false, Option, none, some}
use deep_space_detection.Driver.Registers.{Register}

-- `struct completion` of the kernel: `init_completion`, `complete`, and a wait, which is `none`
-- when it times out.
pub record Completion : Type 1 where
  pub State : Type 0
  pub init : State
  pub complete : State → State
  pub wait : State → Option State
  pub wait-init : wait init ≡ none
  pub wait-complete : (s : State) → (t : State) × (wait (complete s) ≡ some t)

-- A pointer to a completion on the stack: `uninitialised` until `init_completion`, and dangling
-- once the function that owns it has returned.
pub data Pointer (S : Type 0) : Type 0 where
  null : Pointer S
  to : S → Pointer S
  dangling uninitialised : Pointer S

-- `axitangxi_irq_data`, with the writes to the registers so far, the oldest first.
pub record Device (S : Type 0) : Type 0 where
  pub last_mm2s_ps_done : Bool
  pub last_s2mm_ps_done : Bool
  pub last_mm2s_pl_done : Bool
  pub last_s2mm_pl_done : Bool
  pub last_req_data_done : Bool
  pub last_read_result_done : Bool
  pub network_acc_handle_done : Bool
  pub comp : Pointer S
  pub written : List (Register × ℕ)

-- `struct axitangxi_irq_data axitangxi_irq_data = {0};`
abbrev pub initial : {S : Type 0} → Device S
initial = record {
  last_mm2s_ps_done = false;
  last_s2mm_ps_done = false;
  last_mm2s_pl_done = false;
  last_s2mm_pl_done = false;
  last_req_data_done = false;
  last_read_result_done = false;
  network_acc_handle_done = false;
  comp = null;
  written = [];
}

-- `writel(value, register)`.
abbrev pub writel : {S : Type 0} → ℕ → Register → Device S → Device S
writel v r d = record d { written = d.written ++ (r, v) ∷ [] }
