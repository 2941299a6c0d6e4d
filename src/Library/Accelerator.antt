-- ===== src/Library/Accelerator.antt =====
-- The buffers and the network accelerator in libaxitangxi.c. The local `iargs` of the three tests
-- starts uninitialised: what it holds is an argument, `iargs`.
pub mod Laws
use deep_space_detection.Base.{ℕ, Bool, true, false, List, [], Option, none, some, Run, ok, fault}
use deep_space_detection.Driver.Device.{Completion, Device}
use deep_space_detection.Driver.Memory.{Rc, Memory}
use deep_space_detection.Driver.Loopback.{Returned}
use deep_space_detection.Driver.Ioctl.{
  IoctlNumbers, NetworkAccReg, axitangxi_ioctl, network_acc_config, network_acc_start,
  network_acc_get,
}

-- `struct network_acc_dev`
pub record NetworkAccDev : Type 0 where
  pub initialized : Bool
  pub fd : Option ℕ
  pub control : ℕ
  pub weight_addr : ℕ
  pub weight_size : ℕ
  pub quantify_addr : ℕ
  pub quantify_size : ℕ
  pub picture_addr : ℕ
  pub picture_size : ℕ
  pub trans_addr : ℕ
  pub trans_size : ℕ
  pub entropy_addr : ℕ
  pub entropy_size : ℕ

-- With the result of `mmap`, `none` for `MAP_FAILED`: the address, or NULL.
abbrev pub axitangxi_malloc : Option ℕ → Option ℕ
axitangxi_malloc mapped = mapped

-- With whether `munmap` succeeds. The assertion that it does is a fault where it fails.
abbrev pub axitangxi_free : Bool → Run (Unit {0})
axitangxi_free true = ok tt
axitangxi_free false = fault

-- `fd` is that of the driver's device, so that each `ioctl` is the driver's handler.
module _ (K : Completion) (N : IoctlNumbers) (k : ℕ) (m : Memory) (iargs : NetworkAccReg) where
  abbrev config_args : NetworkAccDev → NetworkAccReg
  config_args dev = record iargs {
    weight_addr = dev.weight_addr;
    weight_size = dev.weight_size;
    quantify_addr = dev.quantify_addr;
    quantify_size = dev.quantify_size;
    picture_addr = dev.picture_addr;
    picture_size = dev.picture_size;
  }

  abbrev call : ℕ → NetworkAccReg → Device K.State → Option (Returned K)
  call cmd args d = axitangxi_ioctl K N k m none (some args) cmd d []

  unfoldable pub acc_config_test : NetworkAccDev → Device K.State → Option (Returned K)
  acc_config_test dev d = call (network_acc_config N) (config_args dev) d

  unfoldable pub acc_start_test : NetworkAccDev → Device K.State → Option (Returned K)
  acc_start_test dev d = call (network_acc_start N) iargs d

  -- The fields are set before the call.
  unfoldable pub acc_get_test : NetworkAccDev → Device K.State → NetworkAccDev × Option (Returned K)
  acc_get_test dev d = (
    record dev {
      trans_addr = iargs.trans_addr;
      trans_size = iargs.trans_size;
      entropy_addr = iargs.entropy_addr;
      entropy_size = iargs.entropy_size;
    },
    call (network_acc_get N) iargs d,
  )
