-- ===== src/Driver/Registers.antt =====
-- The registers of the card, as axitangxi_dev.h numbers them and `reg_map` and `reg_unmap` of
-- axitangxi_dev.c map them.
pub mod Laws
use deep_space_detection.Base.{ℕ, List, [], ◌∷◌}

-- One constructor for each `void __iomem *` of axitangxi_dev.c.
pub data Register : Type 0 where
  dma_mm2s_ps_addr dma_mm2s_ps_size noc_data_pkg_addr noc_data_pkg_ctl : Register
  noc_ctl_pkg_ctl csram_write_ctl dma_s2mm_ps_addr dma_s2mm_ps_size : Register
  result_read_addr result_read_ctl tx_riscv_reset_ctl dma_mm2s_pl_addr : Register
  dma_mm2s_pl_size dma_s2mm_pl_addr dma_s2mm_pl_size pl_irq_task_num : Register
  network_acc_control network_acc_weight_addr network_acc_weight_size network_acc_quantify_addr :
      Register
  network_acc_quantify_size network_acc_picture_addr network_acc_picture_size
        network_acc_trans_addr :
      Register
  network_acc_trans_size network_acc_entropy_addr network_acc_entropy_size : Register

-- The physical address that a register is mapped from; each mapping is four bytes long.
unfoldable pub physical : Register → ℕ
physical dma_mm2s_ps_addr = 0x8000_0000
physical dma_mm2s_ps_size = 0x8000_0004
physical noc_data_pkg_addr = 0x8000_0008
physical noc_data_pkg_ctl = 0x8000_000c
physical noc_ctl_pkg_ctl = 0x8000_0010
physical csram_write_ctl = 0x8000_0014
physical dma_s2mm_ps_addr = 0x8000_0018
physical dma_s2mm_ps_size = 0x8000_001c
physical result_read_addr = 0x8000_0020
physical result_read_ctl = 0x8000_0024
physical tx_riscv_reset_ctl = 0x8000_0028
physical dma_mm2s_pl_addr = 0x8000_0030
physical dma_mm2s_pl_size = 0x8000_0034
physical dma_s2mm_pl_addr = 0x8000_0038
physical dma_s2mm_pl_size = 0x8000_003c
physical pl_irq_task_num = 0x8000_002c
physical network_acc_control = 0x8000_0100
physical network_acc_weight_addr = 0x8000_0104
physical network_acc_weight_size = 0x8000_0108
physical network_acc_quantify_addr = 0x8000_010c
physical network_acc_quantify_size = 0x8000_0110
physical network_acc_picture_addr = 0x8000_0114
physical network_acc_picture_size = 0x8000_0118
physical network_acc_trans_addr = 0x8000_011c
physical network_acc_trans_size = 0x8000_0120
physical network_acc_entropy_addr = 0x8000_0124
physical network_acc_entropy_size = 0x8000_0128

-- The calls of `ioremap`, in order.
unfoldable pub reg_map : List Register
reg_map =
    dma_mm2s_ps_addr ∷ dma_mm2s_ps_size ∷ noc_data_pkg_addr ∷ noc_data_pkg_ctl ∷ noc_ctl_pkg_ctl
    ∷ csram_write_ctl ∷ dma_s2mm_ps_addr ∷ dma_s2mm_ps_size ∷ result_read_addr ∷ result_read_ctl
    ∷ tx_riscv_reset_ctl ∷ dma_mm2s_pl_addr ∷ dma_mm2s_pl_size ∷ dma_s2mm_pl_addr ∷ dma_s2mm_pl_size
    ∷ pl_irq_task_num ∷ network_acc_control ∷ network_acc_weight_addr ∷ network_acc_weight_size
    ∷ network_acc_quantify_addr ∷ network_acc_quantify_size ∷ network_acc_picture_addr
    ∷ network_acc_picture_size ∷ network_acc_trans_addr ∷ network_acc_trans_size
    ∷ network_acc_entropy_addr ∷ network_acc_entropy_size ∷ []

-- The calls of `iounmap`, in order.
unfoldable pub reg_unmap : List Register
reg_unmap =
    dma_mm2s_ps_addr ∷ dma_mm2s_ps_size ∷ noc_data_pkg_addr ∷ noc_data_pkg_ctl ∷ noc_ctl_pkg_ctl
    ∷ csram_write_ctl ∷ dma_s2mm_ps_addr ∷ dma_s2mm_ps_size ∷ result_read_addr ∷ result_read_ctl
    ∷ tx_riscv_reset_ctl ∷ dma_mm2s_pl_addr ∷ dma_mm2s_pl_size ∷ dma_s2mm_pl_addr ∷ dma_s2mm_pl_size
    ∷ pl_irq_task_num ∷ network_acc_control ∷ network_acc_weight_addr ∷ network_acc_weight_size
    ∷ network_acc_quantify_addr ∷ network_acc_quantify_size ∷ network_acc_picture_addr
    ∷ network_acc_picture_size ∷ network_acc_trans_addr ∷ network_acc_trans_size
    ∷ network_acc_entropy_addr ∷ network_acc_entropy_size ∷ []
