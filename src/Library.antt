-- ===== src/Library.antt =====
-- The user-space library of the card: recipes-modules/axi-tangxi/include/libaxitangxi.c and .h
-- under project-spec/meta-user.
pub mod Laws
pub mod Accelerator
pub mod Example
mod Tests
use deep_space_detection.Base.{
  ℕ, ◌+◌, ◌-◌, ◌*◌, ◌/◌, ◌^◌, Bool, true, false, ltb, Option, none, some, Run, ok, fault, u8, u32,
  u64,
}
use deep_space_detection.Driver.Loopback.{Transaction}

-- `BURST_SIZE`, in units of 16 bytes.
abbrev pub burst_size_max : ℕ
burst_size_max = 65536

-- `struct axitangxi_dev`, and its one instance, the global `axitangxi_dev`. `fd` is `none` where
-- `open` failed.
pub record AxitangxiDev : Type 0 where
  pub initialized : Bool
  pub fd : Option ℕ
  pub tx_data_size : ℕ
  pub rx_data_size : ℕ
  pub burst_size : ℕ
  pub burst_count : ℕ
  pub burst_data : ℕ
  pub tx_data_ps_ptr : ℕ
  pub rx_data_ps_ptr : ℕ
  pub tx_data_pl_ptr : ℕ
  pub rx_data_pl_ptr : ℕ
  pub node : ℕ

-- `struct axitangxi_dev axitangxi_dev = {0};`
abbrev pub zeroed : AxitangxiDev
zeroed = record {
  initialized = false;
  fd = some 0;
  tx_data_size = 0;
  rx_data_size = 0;
  burst_size = 0;
  burst_count = 0;
  burst_data = 0;
  tx_data_ps_ptr = 0;
  rx_data_ps_ptr = 0;
  tx_data_pl_ptr = 0;
  rx_data_pl_ptr = 0;
  node = 0;
}

-- `initialized` is tested by an assertion; then the device file is opened.
abbrev open_with : Bool → Option ℕ → AxitangxiDev → Run (Bool × AxitangxiDev)
open_with true opened dev = fault
open_with false none dev = ok (false, record dev { fd = none })
open_with false (some fd) dev = ok (true, record dev { fd = some fd; initialized = true })

-- With the result of `open`: whether the device is returned, or NULL.
unfoldable pub axitangxi_dev_init : Option ℕ → AxitangxiDev → Run (Bool × AxitangxiDev)
axitangxi_dev_init opened dev = open_with dev.initialized opened dev

-- With whether `close` succeeds. The assertion that it does is a fault where it fails.
unfoldable pub axitangxi_destroy : Bool → AxitangxiDev → Run AxitangxiDev
axitangxi_destroy true dev = ok (record dev { initialized = false })
axitangxi_destroy false dev = fault

-- `x - 1` on `size_t`.
abbrev pub before : ℕ → ℕ
before x = u64 (x + 2 ^ 64 - 1)

-- The addresses on the card are those of the data to send.
unfoldable pub axitangxi_data_init : ℕ → ℕ → ℕ → ℕ → AxitangxiDev → AxitangxiDev
axitangxi_data_init tx_size rx_size tx_buf rx_buf dev = record dev {
  burst_size = burst_size_max;
  tx_data_size = tx_size;
  rx_data_size = rx_size;
  burst_count = u64 (before tx_size / (burst_size_max * 16) + 1);
  burst_data = burst_size_max * 16;
  tx_data_ps_ptr = tx_buf;
  rx_data_ps_ptr = rx_buf;
  tx_data_pl_ptr = u32 tx_buf;
  rx_data_pl_ptr = u32 tx_buf;
}

-- The transaction that `axitangxi_psddr_plddr_loopback` passes to the driver.
unfoldable pub loopback_transaction : AxitangxiDev → Transaction
loopback_transaction dev = record {
  tx_data_size = dev.tx_data_size;
  rx_data_size = dev.rx_data_size;
  burst_size = dev.burst_size;
  burst_count = dev.burst_count;
  burst_data = dev.burst_data;
  tx_data_ps_ptr = dev.tx_data_ps_ptr;
  rx_data_ps_ptr = dev.rx_data_ps_ptr;
  node = dev.node;
}
