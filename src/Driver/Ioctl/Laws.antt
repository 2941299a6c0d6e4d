-- ===== src/Driver/Ioctl/Laws.antt =====
-- What an ioctl does to the card, for each command.
use deep_space_detection.Base.{
  ==_refl, ℕ, ◌≡◌, ◌≢◌, refl, arith, Bool, true, false, ◌==◌, leb, not, if◌then◌else◌, List, Option,
  none, some, ok,
}
use deep_space_detection.Driver.Device.{Completion, Device}
use deep_space_detection.Driver.Memory.{enotty, efault, Rc, Memory}
use deep_space_detection.Driver.Loopback.{Transaction, Returned, axitangxi_psddr_plddr_loopback}
use deep_space_detection.Driver.Ioctl.{
  IoctlNumbers, NetworkAccReg, psddr_plddr_loopback, psddr_tangxi_loopback, network_acc_config,
  network_acc_start, network_acc_get, with_copy, axitangxi_ioctl, ioctl_magic, num_ioctls,
  sizeof_transaction,
}

module _ (K : Completion) (N : IoctlNumbers) (k : ℕ) (m : Memory) (transaction : Option Transaction)
    (registers : Option NetworkAccReg) (d : Device K.State) (arrivals : List (List ℕ)) where
  -- The results that leave the card as it is.
  Unchanged : Option (Returned K) → Type 0
  Unchanged r = (rc : Rc) × (r ≡ some (ok (rc, d)))

  Unchanged-if :
      (b : Bool) (x y : Option (Returned K))
      → Unchanged x
      → Unchanged y
      → Unchanged (if b then x else y)
  Unchanged-if true x y p q = p
  Unchanged-if false x y p q = q

  Unchanged-with_copy :
      {A : Type 0} (o : Option A) (rc : Rc) → Unchanged (with_copy K o d (λ a. some (ok (rc, d))))
  unfolding Unchanged
  Unchanged-with_copy none rc = (some efault, refl)
  Unchanged-with_copy (some a) rc = (rc, refl)

  Unchanged-returned : (rc : Rc) → Unchanged (some (ok (rc, d)))
  unfolding Unchanged
  Unchanged-returned rc = (rc, refl)

  Unchanged-axitangxi_ioctl :
      (cmd : ℕ)
      → cmd ≢ psddr_plddr_loopback N
      → Unchanged (axitangxi_ioctl K N k m transaction registers cmd d arrivals)
  unfolding axitangxi_ioctl
  Unchanged-axitangxi_ioctl cmd other =
      let no : (cmd == psddr_plddr_loopback N) ≡ false = ground arith in
      rw no (
        Unchanged-if (not (N.ioc_type cmd == ioctl_magic)) _ _ (Unchanged-returned (some enotty)) (
          Unchanged-if (leb num_ioctls (N.ioc_nr cmd)) _ _ (Unchanged-returned (some enotty)) (
            Unchanged-if (cmd == psddr_tangxi_loopback N) _ _ (Unchanged-with_copy transaction none)
              (Unchanged-if (cmd == network_acc_config N) _ _ (Unchanged-with_copy registers none) (
                Unchanged-if (cmd == network_acc_start N) _ _ (Unchanged-returned none) (
                  Unchanged-if (cmd == network_acc_get N) _ _ (Unchanged-with_copy registers none)
                    (Unchanged-returned (some enotty))))))))

  -- No command but the loopback changes the card: those for the network accelerator, which are
  -- there to configure it, to start it and to read its results, neither write a register nor
  -- fault.
  pub axitangxi_ioctl_unchanged :
      (cmd : ℕ)
      → cmd ≢ psddr_plddr_loopback N
      → (rc : Rc) × (axitangxi_ioctl K N k m transaction registers cmd d arrivals
          ≡ some (ok (rc, d)))
  unfolding Unchanged
  axitangxi_ioctl_unchanged cmd other = Unchanged-axitangxi_ioctl cmd other

  -- The loopback's command passes the checks before the switch, and runs the loopback on the
  -- transaction if that can be copied; if not, the call fails with `-EFAULT`.
  pub axitangxi_ioctl-psddr_plddr_loopback :
      axitangxi_ioctl K N k m transaction registers (psddr_plddr_loopback N) d arrivals
      ≡ with_copy K transaction d (λ t. axitangxi_psddr_plddr_loopback K k m t d arrivals)
  unfolding axitangxi_ioctl
  axitangxi_ioctl-psddr_plddr_loopback =
      rw
        (
          N.ioc_type-ior ioctl_magic 0 sizeof_transaction (omega arith) (omega arith) (omega arith),
          N.ioc_nr-ior ioctl_magic 0 sizeof_transaction (omega arith) (omega arith) (omega arith),
          ==_refl (psddr_plddr_loopback N),
        )
        refl

  -- Every command but the five of the driver fails with `-ENOTTY`.
  pub axitangxi_ioctl_unknown :
      (cmd : ℕ)
      → cmd ≢ psddr_plddr_loopback N
      → cmd ≢ psddr_tangxi_loopback N
      → cmd ≢ network_acc_config N
      → cmd ≢ network_acc_start N
      → cmd ≢ network_acc_get N
      → axitangxi_ioctl K N k m transaction registers cmd d arrivals ≡ some (ok (some enotty, d))
  unfolding axitangxi_ioctl
  axitangxi_ioctl_unknown cmd a b c e f = ground arith
