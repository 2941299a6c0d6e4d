-- ===== src/Driver/Ioctl.antt =====
-- `axitangxi_ioctl` of axitangxi_dev.c, with `acc_config`, `acc_start` and `acc_get` of
-- axi_tangxi.c.
pub mod Laws
use deep_space_detection.Base.{
  ◌^◌, ℕ, ◌≡◌, ◌<◌, Bool, true, false, ◌==◌, ◌||◌, leb, not, if◌then◌else◌, List, Option, none,
  some, Run, ok,
}
use deep_space_detection.Driver.Device.{Completion, Device}
use deep_space_detection.Driver.Memory.{Errno, enotty, efault, Rc, Memory}
use deep_space_detection.Driver.Loopback.{Transaction, Returned, axitangxi_psddr_plddr_loopback}

-- The kernel's macros `_IOC_TYPE`, `_IOC_NR` and `_IOR` (the last argument is the size of the type).
pub record IoctlNumbers : Type 0 where
  pub ioc_type : ℕ → ℕ
  pub ioc_nr : ℕ → ℕ
  pub ior : ℕ → ℕ → ℕ → ℕ
  pub ioc_type-ior :
      (magic nr size : ℕ)
      → magic < 256
      → nr < 256
      → size < 2 ^ 14
      → ioc_type (ior magic nr size) ≡ magic
  pub ioc_nr-ior :
      (magic nr size : ℕ) → magic < 256 → nr < 256 → size < 2 ^ 14 → ioc_nr (ior magic nr size) ≡ nr

-- `struct network_acc_reg`
pub record NetworkAccReg : Type 0 where
  pub control : ℕ
  pub weight_addr : ℕ
  pub weight_size : ℕ
  pub quantify_addr : ℕ
  pub quantify_size : ℕ
  pub picture_addr : ℕ
  pub picture_size : ℕ
  pub trans_addr : ℕ
  pub trans_size : ℕ
  pub entropy_addr : ℕ
  pub entropy_size : ℕ

-- 'Y'
abbrev pub ioctl_magic : ℕ
ioctl_magic = 0x59

abbrev pub num_ioctls : ℕ
num_ioctls = 10

-- On the 64-bit processor.
abbrev pub sizeof_transaction : ℕ
sizeof_transaction = 72

abbrev pub sizeof_network_acc_reg : ℕ
sizeof_network_acc_reg = 44

module _ (N : IoctlNumbers) where
  abbrev pub psddr_plddr_loopback : ℕ
  psddr_plddr_loopback = N.ior ioctl_magic 0 sizeof_transaction

  abbrev pub psddr_tangxi_loopback : ℕ
  psddr_tangxi_loopback = N.ior ioctl_magic 1 sizeof_transaction

  abbrev pub network_acc_config : ℕ
  network_acc_config = N.ior ioctl_magic 2 sizeof_network_acc_reg

  abbrev pub network_acc_start : ℕ
  network_acc_start = N.ior ioctl_magic 3 sizeof_network_acc_reg

  abbrev pub network_acc_get : ℕ
  network_acc_get = N.ior ioctl_magic 4 sizeof_network_acc_reg

module _ (K : Completion) where
  -- The three functions below fill a local record at most, and print.
  unfoldable pub acc_config : NetworkAccReg → Device K.State → Rc × Device K.State
  acc_config args d = (none, d)

  unfoldable pub acc_start : Device K.State → Rc × Device K.State
  acc_start d = (none, d)

  unfoldable pub acc_get : NetworkAccReg → Device K.State → Rc × Device K.State
  acc_get args d = (none, d)

  -- A handler that has an argument to copy from user space: `none` if the copy fails.
  abbrev pub with_copy :
      {A : Type 0} → Option A → Device K.State → (A → Option (Returned K)) → Option (Returned K)
  with_copy none d handler = some (ok (some efault, d))
  with_copy (some a) d handler = handler a

  -- `k` is the fuel for the loops of the loopback, and `transaction` and `registers` are what
  -- `copy_from_user` gives for the pointer in `arg`.
  unfoldable pub axitangxi_ioctl :
      IoctlNumbers
      → ℕ
      → Memory
      → Option Transaction
      → Option NetworkAccReg
      → ℕ
      → Device K.State
      → List (List ℕ)
      → Option (Returned K)
  unfolding acc_config acc_start acc_get
  axitangxi_ioctl N k m transaction registers cmd d arrivals =
      if not (N.ioc_type cmd == ioctl_magic)
      then some (ok (some enotty, d))
      else if leb num_ioctls (N.ioc_nr cmd)
      then some (ok (some enotty, d))
      else if cmd == psddr_plddr_loopback N
      then with_copy transaction d (λ t. axitangxi_psddr_plddr_loopback K k m t d arrivals)
      else if cmd == psddr_tangxi_loopback N
      then with_copy transaction d (λ t. some (ok (none, d)))
      else if cmd == network_acc_config N
      then with_copy registers d (λ r. some (ok (acc_config r d)))
      else if cmd == network_acc_start N
      then some (ok (acc_start d))
      else if cmd == network_acc_get N
      then with_copy registers d (λ r. some (ok (acc_get r d)))
      else some (ok (some enotty, d))
