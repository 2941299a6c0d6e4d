-- ===== src/Crc.antt =====
-- crc.c: the table-driven CRC-16
-- (project-spec/meta-user/recipes-apps/autostart/src/crc.c and crc.h).
pub mod Table
pub mod Reference
pub mod Detect
mod Tests
use deep_space_detection.Base.{
  ℕ, zero, suc, List, [], ◌∷◌, bit_xor, bit_or, ◌<<<◌, get_or, u16, Run, ok, fault, ◌>>=◌,
}
use deep_space_detection.Crc.Table.{table_crc_hi, table_crc_lo}

-- The two bytes that the loop keeps.
pub record Crc : Type 0 where
  pub crc_hi : ℕ
  pub crc_lo : ℕ

-- One round of the loop, on the byte `*buffer++`. Both operands of `^` are `uint8_t`, so the
-- index `i` is below 256, the length of the tables.
pub round : Crc → ℕ → Crc
round c b =
    let i = bit_xor c.crc_lo b in
    record { crc_hi = get_or table_crc_lo i 0; crc_lo = bit_xor c.crc_hi (get_or table_crc_hi i 0) }

-- `while (buffer_length--)`; a buffer that is shorter than its length is read past its end.
pub rounds : ℕ → Crc → List ℕ → Run Crc
rounds zero c bs = ok c
rounds (suc n) c [] = fault
rounds (suc n) c (b ∷ bs) = rounds n (round c b) bs

-- `return (crc_hi << 8 | crc_lo)`
pub crc_value : Crc → ℕ
crc_value c = bit_or (c.crc_hi <<< 8) c.crc_lo

-- `crc16(buffer, buffer_length)`; the length is a `uint16_t`.
unfoldable pub crc16 : List ℕ → ℕ → Run ℕ
unfolding round rounds crc_value
crc16 buffer buffer_length = do
  c ← rounds (u16 buffer_length) (record { crc_hi = 0xff; crc_lo = 0xff }) buffer
  ok (crc_value c)
