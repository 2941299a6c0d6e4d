-- ===== src/Library/Laws.antt =====
-- What the library asks of the driver.
use deep_space_detection.Base.{
  ℕ, ◌-◌, ◌*◌, ◌^◌, ◌≡◌, ◌≤◌, ◌<◌, refl, ◌∙◌, arith, true, false, List, Option, some, ok, fault,
  ◌>>=◌, length,
}
use deep_space_detection.Driver.Burst.Plan.{plan}
use deep_space_detection.Driver.Burst.Cover.{length-plan}
use deep_space_detection.Driver.Device.{Completion, Device, dangling}
use deep_space_detection.Driver.Memory.{Rc, Memory, axitangxi_uservirt_to_phys}
use deep_space_detection.Driver.Ioctl.{
  IoctlNumbers, NetworkAccReg, axitangxi_ioctl, psddr_plddr_loopback,
}
use deep_space_detection.Driver.Ioctl.Laws.{axitangxi_ioctl-psddr_plddr_loopback}
use deep_space_detection.Driver.Irq.Laws.{any_ends}
use deep_space_detection.Driver.Loopback.{reads_words, arriving}
use deep_space_detection.Driver.Loopback.Laws.{axitangxi_psddr_plddr_loopback_lem}
use deep_space_detection.Library.{
  AxitangxiDev, axitangxi_dev_init, axitangxi_destroy, axitangxi_data_init, loopback_transaction,
  burst_size_max,
}

-- For some data, at most 2 ^ 32 - 16 bytes, the number of bursts that the library announces is
-- the number that the driver's plan has for them.
pub axitangxi_data_init-burst_count :
    (k tx_size rx_size tx_buf rx_buf : ℕ) (dev : AxitangxiDev) (a : ℕ)
    → 0 < tx_size
    → tx_size ≤ 2 ^ 32 - 16
    → tx_size ≤ k * (16 * burst_size_max)
    → let dev' = axitangxi_data_init tx_size rx_size tx_buf rx_buf dev in
      length (plan k dev'.burst_size a dev'.tx_data_size) ≡ dev'.burst_count
unfolding axitangxi_data_init
axitangxi_data_init-burst_count k tx_size rx_size tx_buf rx_buf dev a pos fits fuel =
    let (low, high) = length-plan k burst_size_max a tx_size (omega arith) fuel in omega arith

-- After a device was opened and destroyed it can be opened again; before that, a second opening
-- fails an assertion.
pub axitangxi_dev_init-again :
    (f g : ℕ) (dev : AxitangxiDev)
    → dev.initialized ≡ false
    → (dev' : AxitangxiDev) × (axitangxi_dev_init (some f) dev ≡ ok (true, dev'))
      × ((opened : Option ℕ) → axitangxi_dev_init opened dev' ≡ fault)
      × ((axitangxi_destroy true dev' >>= λ dev. axitangxi_dev_init (some g) dev)
          ≡ ok (true, record dev' { fd = some g }))
unfolding axitangxi_dev_init axitangxi_destroy
axitangxi_dev_init-again f g dev e =
    (record dev { fd = some f; initialized = true }, rw e refl, λ opened. refl, refl)

module _ (K : Completion) (N : IoctlNumbers) (m : Memory) (registers : Option NetworkAccReg)
    (tx_size rx_size tx_buf rx_buf tx rx : ℕ) (dev : AxitangxiDev)
    (fits : tx_size ≤ 2 ^ 32 - 16) where
  abbrev ready : AxitangxiDev
  ready = axitangxi_data_init tx_size rx_size tx_buf rx_buf dev

  -- For data of at most 4 GB less 16 bytes, in buffers whose addresses are known to the driver,
  -- the ioctl that the library makes for the loopback ends within as many rounds as the bursts
  -- that the library announces, and leaves the pointer to the completion dangling.
  pub data_init-loopback :
      (d : Device K.State) (arrivals : List (List ℕ))
      → axitangxi_uservirt_to_phys m rx_buf ≡ ok rx
      → axitangxi_uservirt_to_phys m tx_buf ≡ ok tx
      → reads_words m.reads 10 tx_buf ≡ true
      → any_ends d.last_s2mm_ps_done d.last_s2mm_pl_done (arriving arrivals) ≡ false
      → (rc : Rc) × (e : Device K.State) × (axitangxi_ioctl K N ready.burst_count m
            (some (loopback_transaction ready))
            registers
            (psddr_plddr_loopback N)
            d
            arrivals
          ≡ some (ok (rc, e)))
        × (e.comp ≡ dangling)
  unfolding axitangxi_data_init loopback_transaction
  data_init-loopback d arrivals erx etx readable quiet =
      let t = loopback_transaction ready in
      let (e, run, dangles, _) =
        axitangxi_psddr_plddr_loopback_lem K ready.burst_count t (omega arith) (omega arith)
          (omega arith) (omega arith) m tx rx d arrivals erx etx readable quiet in
      (
        _,
        e,
        axitangxi_ioctl-psddr_plddr_loopback K N ready.burst_count m (some t) registers d arrivals
            ∙ run,
        dangles,
      )
