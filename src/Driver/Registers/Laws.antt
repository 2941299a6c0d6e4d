-- ===== src/Driver/Registers/Laws.antt =====
-- The mapping of the registers.
use deep_space_detection.Base.{ℕ, ◌+◌, ◌%◌, ◌≡◌, refl, ◌==◌, if◌then◌else◌, List, [], ◌∷◌}
use deep_space_detection.Driver.Registers.{
  Register, physical, reg_map, reg_unmap, dma_mm2s_ps_addr, dma_mm2s_ps_size, noc_data_pkg_addr,
  noc_data_pkg_ctl, noc_ctl_pkg_ctl, csram_write_ctl, dma_s2mm_ps_addr, dma_s2mm_ps_size,
  result_read_addr, result_read_ctl, tx_riscv_reset_ctl, dma_mm2s_pl_addr, dma_mm2s_pl_size,
  dma_s2mm_pl_addr, dma_s2mm_pl_size, pl_irq_task_num, network_acc_control, network_acc_weight_addr,
  network_acc_weight_size, network_acc_quantify_addr, network_acc_quantify_size,
  network_acc_picture_addr, network_acc_picture_size, network_acc_trans_addr,
  network_acc_trans_size, network_acc_entropy_addr, network_acc_entropy_size,
}

-- How many registers of a list lie at an address.
abbrev pub count_at : ℕ → List Register → ℕ
count_at p [] = 0
count_at p (r ∷ rs) = (if physical r == p then 1 else 0) + count_at p rs

-- Every register is mapped once and unmapped once, no other is mapped to its address, and the
-- address is a multiple of the four bytes mapped, so that no two mappings overlap.
pub reg_map_once :
    (r : Register)
    → (count_at (physical r) reg_map ≡ 1)
      × (count_at (physical r) reg_unmap ≡ 1)
      × (physical r % 4 ≡ 0)
unfolding physical reg_map reg_unmap
reg_map_once dma_mm2s_ps_addr = (refl, refl, refl)
reg_map_once dma_mm2s_ps_size = (refl, refl, refl)
reg_map_once noc_data_pkg_addr = (refl, refl, refl)
reg_map_once noc_data_pkg_ctl = (refl, refl, refl)
reg_map_once noc_ctl_pkg_ctl = (refl, refl, refl)
reg_map_once csram_write_ctl = (refl, refl, refl)
reg_map_once dma_s2mm_ps_addr = (refl, refl, refl)
reg_map_once dma_s2mm_ps_size = (refl, refl, refl)
reg_map_once result_read_addr = (refl, refl, refl)
reg_map_once result_read_ctl = (refl, refl, refl)
reg_map_once tx_riscv_reset_ctl = (refl, refl, refl)
reg_map_once dma_mm2s_pl_addr = (refl, refl, refl)
reg_map_once dma_mm2s_pl_size = (refl, refl, refl)
reg_map_once dma_s2mm_pl_addr = (refl, refl, refl)
reg_map_once dma_s2mm_pl_size = (refl, refl, refl)
reg_map_once pl_irq_task_num = (refl, refl, refl)
reg_map_once network_acc_control = (refl, refl, refl)
reg_map_once network_acc_weight_addr = (refl, refl, refl)
reg_map_once network_acc_weight_size = (refl, refl, refl)
reg_map_once network_acc_quantify_addr = (refl, refl, refl)
reg_map_once network_acc_quantify_size = (refl, refl, refl)
reg_map_once network_acc_picture_addr = (refl, refl, refl)
reg_map_once network_acc_picture_size = (refl, refl, refl)
reg_map_once network_acc_trans_addr = (refl, refl, refl)
reg_map_once network_acc_trans_size = (refl, refl, refl)
reg_map_once network_acc_entropy_addr = (refl, refl, refl)
reg_map_once network_acc_entropy_size = (refl, refl, refl)
