-- ===== src/Library/Accelerator/Laws.antt =====
-- The accelerator's part of the library, through to the driver.
use deep_space_detection.Base.{
  ℕ, ◌≡◌, ◌≢◌, ◌<◌, ◌≤◌, ◌^◌, ◌∙◌, sym, ap, [], refl, Bool-cases, inl, inr, leb, if◌then◌else◌,
  false, ◌==◌, ==_refl, none, some, ok, arith,
}
use deep_space_detection.Driver.Device.{Completion, Device}
use deep_space_detection.Driver.Memory.{Memory, enotty}
use deep_space_detection.Driver.Ioctl.{
  IoctlNumbers, NetworkAccReg, axitangxi_ioctl, acc_config, acc_start, acc_get, ioctl_magic,
  num_ioctls, network_acc_config, network_acc_start, network_acc_get, sizeof_network_acc_reg,
  sizeof_transaction,
}
use deep_space_detection.Library.Accelerator.{
  NetworkAccDev, acc_config_test, acc_start_test, acc_get_test,
}

-- The numbers of two commands differ.
ior-differ :
    (N : IoctlNumbers) (a b s t : ℕ)
    → a < 256
    → b < 256
    → s < 2 ^ 14
    → t < 2 ^ 14
    → a ≢ b
    → (N.ior ioctl_magic a s == N.ior ioctl_magic b t) ≡ false
ior-differ N a b s t ha hb hs ht apart =
    elim (Bool-cases (N.ior ioctl_magic a s == N.ior ioctl_magic b t)) [
      | inl e ↦
          let equal : N.ior ioctl_magic a s ≡ N.ior ioctl_magic b t = ground arith in
          absurd (
            apart (
              sym (N.ioc_nr-ior ioctl_magic a s (omega arith) ha hs)
              ∙ ap N.ioc_nr equal
              ∙ N.ioc_nr-ior ioctl_magic b t (omega arith) hb ht))
      | inr e ↦ e
    ]

module _ (K : Completion) (N : IoctlNumbers) (k : ℕ) (m : Memory) where
  -- The commands behind the loopbacks come past the checks.
  past_loopbacks :
      (n : ℕ) (args : NetworkAccReg) (d : Device K.State)
      → 2 ≤ n
      → n < num_ioctls
      → let cmd = N.ior ioctl_magic n sizeof_network_acc_reg in
        axitangxi_ioctl K N k m none (some args) cmd d [] ≡ (
          if cmd == network_acc_config N
          then some (ok (acc_config K args d))
          else if cmd == network_acc_start N
          then some (ok (acc_start K d))
          else if cmd == network_acc_get N
          then some (ok (acc_get K args d))
          else some (ok (some enotty, d)))
  unfolding axitangxi_ioctl
  past_loopbacks n args d least most =
      let size = sizeof_network_acc_reg in
      let few : leb num_ioctls n ≡ false = ground arith in
      rw
        (
          N.ioc_type-ior ioctl_magic n size (omega arith) (omega arith) (omega arith),
          N.ioc_nr-ior ioctl_magic n size (omega arith) (omega arith) (omega arith),
          few,
          ior-differ N n 0 size sizeof_transaction (omega arith) (omega arith) (omega arith)
              (omega arith) (λ e. omega arith),
          ior-differ N n 1 size sizeof_transaction (omega arith) (omega arith) (omega arith)
              (omega arith) (λ e. omega arith),
        )
        refl

  later_than :
      (n b : ℕ)
      → b < n
      → n < num_ioctls
      → (N.ior ioctl_magic n sizeof_network_acc_reg == N.ior ioctl_magic b sizeof_network_acc_reg)
        ≡ false
  later_than n b h most =
      ior-differ N n b sizeof_network_acc_reg sizeof_network_acc_reg (omega arith) (omega arith)
        (omega arith) (omega arith) (λ e. omega arith)

  -- The library's calls that configure and start the network accelerator and ask for its results
  -- return 0, through the driver's handler, and leave the card as it was: no register is
  -- written.
  pub acc-tests :
      (iargs : NetworkAccReg) (dev : NetworkAccDev) (d : Device K.State)
      → (acc_config_test K N k m iargs dev d ≡ some (ok (none, d)))
        × (acc_start_test K N k m iargs dev d ≡ some (ok (none, d)))
        × ((acc_get_test K N k m iargs dev d).1 ≡ some (ok (none, d)))
  unfolding acc_config_test acc_start_test acc_get_test acc_config acc_start acc_get
  acc-tests iargs dev d = (
    past_loopbacks 2 _ d (omega arith) (omega arith) ∙ rw (==_refl (network_acc_config N)) refl,
    past_loopbacks 3 _ d (omega arith) (omega arith)
        ∙ rw (later_than 3 2 (omega arith) (omega arith), ==_refl (network_acc_start N)) refl,
    past_loopbacks 4 _ d (omega arith) (omega arith)
        ∙ rw
            (
              later_than 4 2 (omega arith) (omega arith),
              later_than 4 3 (omega arith) (omega arith),
              ==_refl (network_acc_get N),
            )
            refl,
  )
