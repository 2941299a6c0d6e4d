-- ===== src/Driver/Calls/Tests.antt =====
-- The driver after its file was opened, two areas were mapped, and a loopback was made.
use deep_space_detection.Base.{ℕ, ◌+◌, ◌≡◌, ◌∙◌, refl, arith, true, Option, none, some, ok, fault}
use deep_space_detection.Driver.Device.{Device, dangling, initial}
use deep_space_detection.Driver.Memory.{Rc, axitangxi_mmap, axitangxi_uservirt_to_phys}
use deep_space_detection.Driver.Loopback.{
  Returned, axitangxi_psddr_plddr, axitangxi_plddr_psddr, axitangxi_psddr_plddr_loopback,
}
use deep_space_detection.Driver.Irq.{irq_handler, interrupts, complete_at}
use deep_space_detection.Driver.Irq.Laws.{ends}
use deep_space_detection.Driver.Burst.{transfer, advance, prepare}
use deep_space_detection.Driver.Commands.{mm2s_ps_data_s2mm_pl, s2mm_ps_data_mm2s_pl}
use deep_space_detection.Driver.Ioctl.Laws.{axitangxi_ioctl-psddr_plddr_loopback}
use deep_space_detection.Driver.Ioctl.{axitangxi_ioctl, psddr_plddr_loopback}
use deep_space_detection.Driver.Calls.{
  Driver, started, Reachable, open_file, mmap, ioctl, start, after_call,
}
use deep_space_detection.Driver.Calls.Laws.{Reachable-loopback, Reachable-interrupt}
use deep_space_detection.Driver.Tests.{
  counter, numbers, two_areas, area, other_area, one_area, transaction, reported, words_read,
}

abbrev opened : Driver counter numbers
opened = record (started counter numbers) { file = record { has_device = some tt } }

abbrev ready : Driver counter numbers
ready = record opened { memory = two_areas }

free_2 : one_area.objects 2 ≡ none
unfolding axitangxi_mmap
free_2 = refl

ready-Reachable : Reachable counter numbers ready
ready-Reachable =
    after_call
      (after_call (after_call start open_file refl)
        (mmap area (some 1) (some 5000) (λ p. p + 0x10_0000) none refl refl) refl)
      (mmap other_area (some 2) (some 9000) (λ p. p + 0x10_0000) none refl free_2) refl

Reachable-loopback_example :
    (rc : Rc) × (e : Device ℕ) × (axitangxi_ioctl counter numbers 3 two_areas
        (some transaction)
        none
        (psddr_plddr_loopback numbers)
        ready.device
        reported
      ≡ some (ok (rc, e)))
    × (e.comp ≡ dangling)
Reachable-loopback_example =
    Reachable-loopback counter numbers ready 3 transaction none reported ready-Reachable
      (omega arith) refl (omega arith) (omega arith) words_read refl

abbrev device_of : Option (Returned counter) → Device ℕ
device_of (some (ok (rc, e))) = e
device_of (some fault) = initial
device_of none = initial

abbrev returned : Option (Returned counter)
returned = axitangxi_psddr_plddr_loopback counter 3 two_areas transaction ready.device reported

abbrev left_behind : Device ℕ
left_behind = device_of returned

returned_0 : returned ≡ some (ok (none, left_behind))
unfolding axitangxi_psddr_plddr_loopback axitangxi_uservirt_to_phys axitangxi_mmap
    axitangxi_psddr_plddr transfer advance prepare interrupts irq_handler mm2s_ps_data_s2mm_pl
    complete_at axitangxi_plddr_psddr s2mm_ps_data_mm2s_pl
returned_0 = refl

flagged : ends left_behind.last_s2mm_ps_done left_behind.last_s2mm_pl_done 257 ≡ true
unfolding axitangxi_psddr_plddr_loopback axitangxi_uservirt_to_phys axitangxi_mmap
    axitangxi_psddr_plddr transfer advance prepare interrupts irq_handler mm2s_ps_data_s2mm_pl
    complete_at axitangxi_plddr_psddr s2mm_ps_data_mm2s_pl
flagged = refl

abbrev looped : Driver counter numbers
looped = record ready { device = left_behind }

looped-Reachable : Reachable counter numbers looped
looped-Reachable =
    after_call ready-Reachable
      (ioctl 3 (some transaction) none (psddr_plddr_loopback numbers) reported none left_behind refl
        (axitangxi_ioctl-psddr_plddr_loopback counter numbers 3 two_areas (some transaction) none
            ready.device reported
          ∙ returned_0))
      refl

Reachable-interrupt_example : irq_handler counter 257 left_behind ≡ fault
Reachable-interrupt_example =
    Reachable-interrupt counter numbers looped 257 looped-Reachable flagged
