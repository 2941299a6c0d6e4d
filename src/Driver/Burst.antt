-- ===== src/Driver/Burst.antt =====
-- The loop that cuts a transfer into bursts, which axi_tangxi.c has four times: in
-- `axitangxi_psddr_plddr`, `axitangxi_plddr_psddr`, `batch_mm2s_ps_data_tangxi` and
-- `batch_s2mm_ps_data_mm2s_pl`. All variables are `uint32_t`.
pub mod Plan
pub mod Cover
use deep_space_detection.Base.{
  ℕ, zero, suc, ◌+◌, ◌-◌, ◌^◌, Bool, true, false, Option, some, none, bit_and, not, ltb, ◌==◌,
  if◌then◌else◌, u32, ◌>>>◌,
}

-- The variables of the loop. `next` is the address that moves, `tx_data_ps_next` or
-- `rx_data_ps_next`; the other address of a transfer does not change.
pub record Burst : Type 0 where
  pub data_remaining : ℕ
  pub burst_size : ℕ
  pub burst_data : ℕ
  pub next : ℕ

-- `ADDR_ALIGN_BASE_16` and its mask.
abbrev pub align_base : ℕ
align_base = 0x0010

abbrev pub align_mask : ℕ
align_mask = 0x000f

-- The remaining bytes, rounded up to a multiple of 16.
unfoldable pub align : ℕ → ℕ
align r = if bit_and r align_mask == 0 then r else u32 (r + (align_base - bit_and r align_mask))

-- `if (data_remaining < burst_data)`: the last burst is shorter.
unfoldable pub prepare : Burst → Burst
unfolding align
prepare b =
    if ltb b.data_remaining b.burst_data
    then (let r = align b.data_remaining in
        record b { data_remaining = r; burst_size = r >>> 4; burst_data = r })
    else b

-- The subtraction and the step of the address.
unfoldable pub advance : Burst → Burst
advance b = record b {
  data_remaining = u32 (b.data_remaining + 2 ^ 32 - b.burst_data);
  next = u32 (b.next + b.burst_data);
}

-- `while (data_remaining > 0)`, with fuel for the rounds; `none` if it does not end in them.
-- `issue` sets up the burst with its address and size, and is told what remains after it.
unfoldable pub transfer {ℓ} : {S : Type ℓ} → (S → ℕ → ℕ → ℕ → S) → ℕ → S → Burst → Option S
transfer issue zero s b = if b.data_remaining == 0 then some s else none
transfer issue (suc k) s b =
    let p = prepare b in
    let q = advance p in
    elim (b.data_remaining == 0) [
      | true ↦ some s
      | false ↦ transfer issue k (issue s p.next p.burst_size q.data_remaining) q
    ]
