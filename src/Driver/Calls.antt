-- ===== src/Driver/Calls.antt =====
-- The calls of the driver one after the other, as the kernel makes them for `axitangxi_fops` of
-- axitangxi_dev.c and for the interrupt.
pub mod Idle
pub mod Laws
pub mod Tests
use deep_space_detection.Base.{Bool, true, ℕ, ◌≡◌, List, [], Option, none, some, ok, false}
use deep_space_detection.Driver.Device.{Completion, Device, initial}
use deep_space_detection.Driver.Memory.{Rc, Memory, Vma, axitangxi_mmap, axitangxi_vma_close}
use deep_space_detection.Driver.Irq.{irq_handler}
use deep_space_detection.Driver.Loopback.{Transaction}
use deep_space_detection.Driver.Ioctl.{IoctlNumbers, NetworkAccReg, axitangxi_ioctl}

-- `private_data` of a file: the driver's one device, or nothing.
pub record File : Type 0 where
  pub has_device : Option (Unit {0})

-- It returns 0.
abbrev pub axitangxi_open : File → Rc × File
axitangxi_open file = (none, record file { has_device = some tt })

-- It returns 0.
abbrev pub axitangxi_release : File → Rc × File
axitangxi_release file = (none, file)

-- `kmalloc` gives an object that is not allocated.
abbrev pub IsNew : Option ℕ → Memory → Type 0
IsNew none m = Unit
IsNew (some p) m = m.objects p ≡ none

module _ (K : Completion) (N : IoctlNumbers) where
  -- What lasts from call to call.
  pub record Driver : Type 0 where
    pub file : File
    pub memory : Memory
    pub device : Device K.State

  -- After `axitangxi_init`, and before the device file is opened.
  abbrev pub started : Driver
  started = record {
    file = record { has_device = none };
    memory = record {
      objects = λ p. none;
      buffers = λ p. false;
      addr_list = [];
      reads = λ a. false;
    };
    device = initial;
  }

  -- One call that runs through. `mmap` and `ioctl` are for a file that was opened; `user_maps` is any
  -- other change of what user memory can be read.
  pub data Call (s : Driver) : Driver → Type 0 where
    open_file : Call s (record s { file = (axitangxi_open s.file).1 })
    release_file : Call s (record s { file = (axitangxi_release s.file).1 })
    mmap :
        (vma : Vma) (object kbuff : Option ℕ) (virt_to_phys : ℕ → ℕ) (remapped : Rc)
        → s.file.has_device ≡ some tt
        → IsNew object s.memory
        → Call s (record s {
          memory = (axitangxi_mmap vma object kbuff virt_to_phys remapped s.memory).1;
        })
    munmap : (object : ℕ) → Call s (record s { memory = axitangxi_vma_close object s.memory })
    user_maps :
        (reads : ℕ → Bool) → Call s (record s { memory = record s.memory { reads = reads } })
    ioctl :
        (k : ℕ) (transaction : Option Transaction) (registers : Option NetworkAccReg) (cmd : ℕ)
        (arrivals : List (List ℕ)) (rc : Rc) (e : Device K.State)
        → s.file.has_device ≡ some tt
        → axitangxi_ioctl K N k s.memory transaction registers cmd s.device arrivals
          ≡ some (ok (rc, e))
        → Call s (record s { device = e })
    interrupt :
        (i : ℕ) (e : Device K.State)
        → irq_handler K i s.device ≡ ok e
        → Call s (record s { device = e })

  -- Whether a call leaves the areas mapped.
  abbrev pub keeps_areas : {s t : Driver} → Call s t → Bool
  keeps_areas (munmap object) = false
  keeps_areas (user_maps reads) = true
  keeps_areas open_file = true
  keeps_areas release_file = true
  keeps_areas (mmap vma object kbuff virt_to_phys remapped opened new) = true
  keeps_areas (ioctl k transaction registers cmd arrivals rc e opened run) = true
  keeps_areas (interrupt i e run) = true

  -- The states after any calls but `munmap`.
  pub data Reachable : Driver → Type 0 where
    start : Reachable started
    after_call :
        {s t : Driver} → Reachable s → (call : Call s t) → keeps_areas call ≡ true → Reachable t
