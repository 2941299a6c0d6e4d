-- ===== src/Library/Example.antt =====
-- examples/axitangxi_test.c, the demonstration of the library on one transfer of 1 MB there and
-- back. The messages are left out.
pub mod Laws
use deep_space_detection.Base.{
  ℕ, zero, suc, ◌+◌, ◌*◌, ◌/◌, ◌^◌, ◌==◌, ltb, if◌then◌else◌, Bool, List, [], ◌∷◌, Option, none,
  some, Run, ok, fault, ◌>>=◌, u32,
}
use deep_space_detection.Driver.Device.{Completion, Device}
use deep_space_detection.Driver.Memory.{Rc, Memory}
use deep_space_detection.Driver.Loopback.{Returned}
use deep_space_detection.Driver.Ioctl.{
  IoctlNumbers, NetworkAccReg, axitangxi_ioctl, psddr_plddr_loopback,
}
use deep_space_detection.Library.{
  AxitangxiDev, zeroed, axitangxi_dev_init, axitangxi_destroy, axitangxi_data_init,
  loopback_transaction,
}
use deep_space_detection.Library.Accelerator.{
  NetworkAccDev, axitangxi_malloc, axitangxi_free, acc_config_test, acc_start_test, acc_get_test,
}

-- `tx_size` and `rx_size`.
abbrev pub size : ℕ
size = 1024 * 1024

-- A `size_t` that is stored in an `int`, as the number of rounds of a loop from 0 up to it.
abbrev pub int_rounds : ℕ → ℕ
int_rounds n = if ltb (u32 n) (2 ^ 31) then u32 n else 0

-- The loop of `verify_data`: how many of the first words differ.
unfoldable pub differences : ℕ → List ℕ → List ℕ → Run ℕ
differences zero rx tx = ok 0
differences (suc n) (a ∷ rx) (b ∷ tx) = do
  count ← differences n rx tx
  ok (if a == b then count else count + 1)
differences (suc n) [] tx = fault
differences (suc n) (a ∷ rx) [] = fault

unfoldable pub verify_data : AxitangxiDev → List ℕ → List ℕ → Run ℕ
verify_data dev rx tx = differences (int_rounds (dev.tx_data_size / 4)) rx tx

-- The words that are sent: 1, 2, and so on.
unfoldable pub fill : ℕ → ℕ → List ℕ
fill zero i = []
fill (suc n) i = i ∷ fill n (i + 1)

-- What the system answers: `open`, the two `mmap` (`none` for `MAP_FAILED`), `munmap` at an
-- address, and `close`.
pub record Answers : Type 0 where
  pub opened : Option ℕ
  pub tx_mapped : Option ℕ
  pub rx_mapped : Option ℕ
  pub unmaps : ℕ → Bool
  pub closes : Bool

-- A chain of runs that may want more rounds.
abbrev pub and_then {ℓ κ} :
    {A : Type ℓ} {B : Type κ} → Option (Run A) → (A → Option (Run B)) → Option (Run B)
and_then none f = none
and_then (some fault) f = some fault
and_then (some (ok a)) f = f a

-- `as_acc` is the device's structure read as the one of the accelerator, whose `fd` is at the same
-- place; `iargs` is what the uninitialised structures of the accelerator's calls hold; `rx` is
-- what the card has left in the buffer for the data that come back.
module _ (K : Completion) (N : IoctlNumbers) (k : ℕ) (m : Memory) (iargs : NetworkAccReg)
    (as_acc : NetworkAccDev) (rx : List ℕ) (arrivals : List (List ℕ)) where
  -- From the loopback to the last call of the accelerator: its result, and the count of
  -- `verify_data`.
  unfoldable pub exercise : AxitangxiDev → Device K.State → Option (Run (Rc × ℕ × Device K.State))
  exercise dev d =
      and_then
        (axitangxi_ioctl K N k m (some (loopback_transaction dev)) none (psddr_plddr_loopback N) d
          arrivals)
        λ looped. and_then (some (verify_data dev rx (fill (size / 4) 1))) λ count.
          and_then (acc_config_test K N k m iargs as_acc looped.1) λ configured.
            and_then (acc_start_test K N k m iargs as_acc configured.1) λ started.
              and_then (acc_get_test K N k m iargs as_acc started.1).1
                λ got. some (ok (got.0, count, got.1))

  -- Behind the labels: both buffers, and the device.
  abbrev pub clean_up : Answers → ℕ → ℕ → AxitangxiDev → Run AxitangxiDev
  clean_up a tx_buffer rx_buffer dev = do
    freed ← axitangxi_free (a.unmaps tx_buffer)
    freed ← axitangxi_free (a.unmaps rx_buffer)
    axitangxi_destroy a.closes dev

  -- With both buffers.
  abbrev pub with_buffers :
      Answers → ℕ → ℕ → AxitangxiDev → Device K.State → Option (Run (Rc × ℕ × Device K.State))
  with_buffers a tx_buffer rx_buffer dev d =
      let dev = axitangxi_data_init size size tx_buffer rx_buffer dev in
      and_then (exercise dev d)
        λ r. and_then (some (clean_up a tx_buffer rx_buffer dev)) λ closed. some (ok r)

  -- The second buffer. Without it `rc` is returned, which has no value.
  abbrev pub with_tx :
      Answers
      → ℕ
      → Option ℕ
      → AxitangxiDev
      → Device K.State
      → Option (Run (Rc × ℕ × Device K.State))
  with_tx a tx_buffer none dev d = some fault
  with_tx a tx_buffer (some rx_buffer) dev d = with_buffers a tx_buffer rx_buffer dev d

  -- The first buffer. Without it `rx_buffer` is given to `munmap`, which has no value.
  abbrev pub with_device :
      Answers → Option ℕ → AxitangxiDev → Device K.State → Option (Run (Rc × ℕ × Device K.State))
  with_device a none dev d = some fault
  with_device a (some tx_buffer) dev d = with_tx a tx_buffer (axitangxi_malloc a.rx_mapped) dev d

  -- The exit status, `none` for 1, which the program has where the device cannot be opened; and
  -- otherwise that of the last call, with what `verify_data` prints.
  unfoldable pub main : Answers → Device K.State → Option (Run (Option (Rc × ℕ × Device K.State)))
  main a d = and_then (some (axitangxi_dev_init a.opened zeroed)) λ init.
      if init.0
      then and_then (with_device a (axitangxi_malloc a.tx_mapped) init.1 d)
          (λ r. some (ok (some r)))
      else some (ok none)
