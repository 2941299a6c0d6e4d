-- ===== src/Driver/Commands.antt =====
-- The functions of axi_tangxi.c that program one burst, or the network accelerator, by `writel`.
pub mod Laws
use deep_space_detection.Base.{ℕ, ◌+◌, ◌-◌, ◌^◌, List, [], ◌∷◌, bit_or, u32, ◌<<<◌}
use deep_space_detection.Driver.Registers.{
  Register, dma_mm2s_ps_addr, dma_mm2s_ps_size, noc_data_pkg_addr, noc_data_pkg_ctl,
  dma_s2mm_ps_addr, dma_s2mm_ps_size, result_read_addr, result_read_ctl, dma_mm2s_pl_addr,
  dma_mm2s_pl_size, dma_s2mm_pl_addr, dma_s2mm_pl_size, network_acc_control,
  network_acc_weight_addr, network_acc_weight_size, network_acc_quantify_addr,
  network_acc_quantify_size, network_acc_picture_addr, network_acc_picture_size,
}
use deep_space_detection.Driver.Device.{Device, writel}

-- `burst_size - 1`, which wraps around at 0.
abbrev pub minus_one : ℕ → ℕ
minus_one n = u32 (n + 2 ^ 32 - 1)

module _ {S : Type 0} where
  -- From the processor's memory through the card to the chip.
  unfoldable pub mm2s_ps_data_tangxi : ℕ → ℕ → ℕ → ℕ → ℕ → Device S → Device S
  mm2s_ps_data_tangxi tx_data_ps_addr rx_data_pl_addr burst_size chip_position node d =
      let noc_data_size_addr =
        bit_or (bit_or (u32 (chip_position <<< 28)) (u32 (node <<< 20))) rx_data_pl_addr in
      let noc_data_node_type_cmd = bit_or (u32 (minus_one burst_size <<< 10)) 0b00_0000_0010 in
      let d = writel tx_data_ps_addr dma_mm2s_ps_addr d in
      let d = writel (minus_one burst_size) dma_mm2s_ps_size d in
      let d = writel noc_data_size_addr noc_data_pkg_addr d in
      writel noc_data_node_type_cmd noc_data_pkg_ctl d

  -- From the chip to the processor's memory.
  unfoldable pub s2mm_ps_data_tangxi : ℕ → ℕ → Device S → Device S
  s2mm_ps_data_tangxi rx_data_ps_addr burst_size d =
      let noc_data_size_addr = bit_or (u32 (minus_one burst_size <<< 20)) 0x0_0100 in
      let d = writel noc_data_size_addr result_read_addr d in
      let d = writel (minus_one burst_size) result_read_ctl d in
      let d = writel rx_data_ps_addr dma_s2mm_ps_addr d in
      writel (minus_one burst_size) dma_s2mm_ps_size d

  -- From the processor's memory to the card's.
  unfoldable pub mm2s_ps_data_s2mm_pl : ℕ → ℕ → ℕ → Device S → Device S
  mm2s_ps_data_s2mm_pl tx_data_ps_addr rx_data_pl_addr burst_size d =
      let d = writel tx_data_ps_addr dma_mm2s_ps_addr d in
      let d = writel (minus_one burst_size) dma_mm2s_ps_size d in
      let d = writel rx_data_pl_addr dma_s2mm_pl_addr d in
      writel (minus_one burst_size) dma_s2mm_pl_size d

  -- From the card's memory to the processor's.
  unfoldable pub s2mm_ps_data_mm2s_pl : ℕ → ℕ → ℕ → Device S → Device S
  s2mm_ps_data_mm2s_pl rx_data_ps_addr tx_data_pl_addr burst_size d =
      let d = writel tx_data_pl_addr dma_mm2s_pl_addr d in
      let d = writel (minus_one burst_size) dma_mm2s_pl_size d in
      let d = writel rx_data_ps_addr dma_s2mm_ps_addr d in
      writel (minus_one burst_size) dma_s2mm_ps_size d

  unfoldable pub network_acc_config_dev : ℕ → ℕ → ℕ → ℕ → ℕ → ℕ → Device S → Device S
  network_acc_config_dev weight_addr weight_size quantify_addr quantify_size picture_addr
        picture_size d =
      let d = writel weight_addr network_acc_weight_addr d in
      let d = writel weight_size network_acc_weight_size d in
      let d = writel quantify_addr network_acc_quantify_addr d in
      let d = writel quantify_size network_acc_quantify_size d in
      let d = writel picture_addr network_acc_picture_addr d in
      writel picture_size network_acc_picture_size d

  -- The argument is overwritten before it is used. The delay between the writes is not modelled.
  unfoldable pub network_acc_start_dev : ℕ → Device S → Device S
  network_acc_start_dev args_control d =
      writel 0 network_acc_control (writel 1 network_acc_control d)
