-- ===== src/Driver/Accelerator.antt =====
-- The functions of axi_tangxi.c that take `struct network_acc_args`. Nothing in the driver calls
-- them.
use deep_space_detection.Base.{ℕ}
use deep_space_detection.Driver.Registers.{
  Register, network_acc_trans_addr, network_acc_trans_size, network_acc_entropy_addr,
  network_acc_entropy_size,
}
use deep_space_detection.Driver.Device.{Device}
use deep_space_detection.Driver.Commands.{network_acc_config_dev, network_acc_start_dev}

-- `struct network_acc_args`
pub record NetworkAccArgs : Type 0 where
  pub control : ℕ
  pub weight_addr : ℕ
  pub weight_size : ℕ
  pub quantify_addr : ℕ
  pub quantify_size : ℕ
  pub picture_addr : ℕ
  pub picture_size : ℕ
  pub trans_addr : ℕ
  pub trans_size : ℕ
  pub entropy_addr : ℕ
  pub entropy_size : ℕ

module _ {S : Type 0} where
  abbrev pub network_acc_config : NetworkAccArgs → Device S → Device S
  network_acc_config args d =
      network_acc_config_dev args.weight_addr args.weight_size args.quantify_addr args.quantify_size
        args.picture_addr args.picture_size d

  abbrev pub network_acc_start : NetworkAccArgs → Device S → Device S
  network_acc_start args d = network_acc_start_dev args.control d

-- The four parameters after the reads; `readl` is what the registers hold.
abbrev get_network_acc_args_dev : (Register → ℕ) → ℕ → ℕ → ℕ → ℕ → ℕ × ℕ × ℕ × ℕ
get_network_acc_args_dev readl trans_addr trans_size entropy_addr entropy_size = (
  readl network_acc_trans_addr,
  readl network_acc_trans_size,
  readl network_acc_entropy_addr,
  readl network_acc_entropy_size,
)

-- The parameters are copies of the fields: the record stays as it is.
abbrev pub get_network_acc_args : (Register → ℕ) → NetworkAccArgs → NetworkAccArgs
get_network_acc_args readl args =
    let parameters =
      get_network_acc_args_dev readl args.trans_addr args.trans_size args.entropy_addr
        args.entropy_size in
    args
