-- ===== src/Driver/Setup/Tests.antt =====
-- A start of the driver where the kernel refuses the interrupt and one of the mappings, and the stop.
use deep_space_detection.Base.{◌==◌, not, ◌≡◌, [], ◌∷◌, true, none, some}
use deep_space_detection.Base.Signed.{pos, negsuc}
use deep_space_detection.Driver.Memory.{enomem}
use deep_space_detection.Driver.Registers.{dma_mm2s_ps_size, physical, reg_unmap}
use deep_space_detection.Driver.Setup.{Answers, interrupt, mapping, axitangxi_init, axitangxi_exit}
use deep_space_detection.Driver.Setup.Laws.{axitangxi_init-result, axitangxi_exit-axitangxi_init}

abbrev busy : Answers
busy = record {
  finds_node = true;
  request_irq = negsuc 15;
  alloc_chrdev_region = pos 0;
  cdev_add = pos 0;
  class_create = none;
  device_create = none;
  ioremap = λ r. not (physical r == 0x8000_0004);
}

axitangxi_init-result_example :
    (axitangxi_init (record busy { device_create = some enomem })).0 ≡ some enomem
axitangxi_init-result_example = axitangxi_init-result (record busy { device_create = some enomem })

axitangxi_exit-axitangxi_init_example :
    axitangxi_exit ((axitangxi_init busy).1)
    ≡ record { held = []; not_held = interrupt ∷ mapping dma_mm2s_ps_size ∷ [] }
unfolding physical reg_unmap
axitangxi_exit-axitangxi_init_example =
    axitangxi_exit-axitangxi_init busy (axitangxi_init-result busy)
