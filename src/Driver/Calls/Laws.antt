-- ===== src/Driver/Calls/Laws.antt =====
-- What holds of the driver in every state that its calls reach.
use deep_space_detection.Base.{
  ◌||◌, ℕ, ◌*◌, ◌-◌, ◌^◌, ◌≤◌, ◌<◌, ◌≡◌, refl, ◌∙◌, Bool, true, false, ◌==◌, ◌&&◌, if◌then◌else◌,
  List, Option, some, ok, fault, u32,
}
use deep_space_detection.Driver.Device.{Completion, dangling, Device}
use deep_space_detection.Driver.Memory.{Rc}
use deep_space_detection.Driver.Memory.Laws.{Live-uservirt_to_phys}
use deep_space_detection.Driver.Irq.{irq_handler, complete_at, s2mm_ps_done, s2mm_pl_done}
use deep_space_detection.Driver.Irq.Laws.{ends, any_ends}
use deep_space_detection.Driver.Loopback.{Transaction, reads_words, arriving}
use deep_space_detection.Driver.Loopback.Laws.{axitangxi_psddr_plddr_loopback_lem}
use deep_space_detection.Driver.Ioctl.{
  IoctlNumbers, NetworkAccReg, psddr_plddr_loopback, axitangxi_ioctl,
}
use deep_space_detection.Driver.Ioctl.Laws.{axitangxi_ioctl-psddr_plddr_loopback}
use deep_space_detection.Driver.Calls.{Driver, Reachable}
use deep_space_detection.Driver.Calls.Idle.{IsUnowned, complete_at-fault, Reachable-IsIdle}

module _ (K : Completion) (N : IoctlNumbers) where
  -- In every state that the driver reaches by calls of open, release, mmap and ioctl, by
  -- interrupts, and by changes of what user memory can be read, in any order, where `kmalloc`
  -- gives objects that are not allocated: a loopback whose burst size is positive, whose bursts
  -- are 16 bytes for each unit of it, and whose data are at most 2 ^ 32 - 16 bytes, returns,
  -- with fuel for its bursts, and leaves the pointer to its completion dangling, if the ten
  -- words from the user's pointer to the data to send can be read, and if no interrupt before
  -- the first `init_completion` ends a transfer by the flags as they were left. Only `munmap` is
  -- left out.
  pub Reachable-loopback :
      (s : Driver K N) (k : ℕ) (t : Transaction) (registers : Option NetworkAccReg)
      (arrivals : List (List ℕ))
      → Reachable K N s
      → 0 < u32 t.burst_size
      → u32 t.burst_data ≡ 16 * u32 t.burst_size
      → u32 t.tx_data_size ≤ 2 ^ 32 - 16
      → u32 t.tx_data_size ≤ k * (16 * u32 t.burst_size)
      → reads_words s.memory.reads 10 t.tx_data_ps_ptr ≡ true
      → any_ends s.device.last_s2mm_ps_done s.device.last_s2mm_pl_done (arriving arrivals) ≡ false
      → (rc : Rc) × (e : Device K.State) × (axitangxi_ioctl K N k s.memory
            (some t)
            registers
            (psddr_plddr_loopback N)
            s.device
            arrivals
          ≡ some (ok (rc, e)))
        × (e.comp ≡ dangling)
  Reachable-loopback s k t registers arrivals reached units whole fits fuel readable quiet =
      let (live, _) = Reachable-IsIdle K N reached in
      let (rx, erx) = Live-uservirt_to_phys s.memory t.rx_data_ps_ptr live in
      let (tx, etx) = Live-uservirt_to_phys s.memory t.tx_data_ps_ptr live in
      let (e, run, dangles, _) =
        axitangxi_psddr_plddr_loopback_lem K k t units whole fits fuel s.memory tx rx s.device
          arrivals erx etx readable quiet in
      (
        _,
        e,
        axitangxi_ioctl-psddr_plddr_loopback K N k s.memory (some t) registers s.device arrivals
            ∙ run,
        dangles,
      )

  handle_unowned :
      (p q : Bool) (d : Device K.State)
      → (p || q) ≡ true
      → IsUnowned d.comp
      → (if p then complete_at K d d.comp else if q then complete_at K d d.comp else ok d) ≡ fault
  handle_unowned true q d h unowned = complete_at-fault K N d d.comp unowned
  handle_unowned false true d h unowned = complete_at-fault K N d d.comp unowned
  handle_unowned false false d h unowned = absurd (cc h)

  -- In every state that the driver reaches by calls of open, release, mmap and ioctl, by
  -- interrupts, and by changes of what user memory can be read, in any order, where `kmalloc`
  -- gives objects that are not allocated: a late interrupt that ends a transfer, by the flags
  -- that a loopback has left set, makes the handler follow a null or dangling pointer.
  pub Reachable-interrupt :
      (s : Driver K N) (i : ℕ)
      → Reachable K N s
      → ends s.device.last_s2mm_ps_done s.device.last_s2mm_pl_done i ≡ true
      → irq_handler K i s.device ≡ fault
  unfolding irq_handler
  Reachable-interrupt s i reached h =
      rw
        (handle_unowned (i == s2mm_ps_done && s.device.last_s2mm_ps_done)
          (i == s2mm_pl_done && s.device.last_s2mm_pl_done) s.device h
          (Reachable-IsIdle K N reached).1)
        refl
