-- ===== src/Crc/Reference.antt =====
-- CRC-16/MODBUS one bit at a time, which docs/resources/serial-transmission-protocol.md names,
-- as the reference for the tables of crc.h.
use deep_space_detection.Base.{
  IsByte, IsBytes, ℕ, zero, suc, ◌+◌, ◌*◌, ◌/◌, ◌%◌, ◌^◌, ◌≤◌, ◌<◌, ◌≡◌, refl, sym, ap, ◌∙◌, arith,
  bit_xor, Bool, true, ◌&&◌, List, [], ◌∷◌, ltb, ◌==◌, if◌then◌else◌, get_or, length, take, u16, ok,
}
use deep_space_detection.Base.Bits.{
  bit_xor_comm, bit_xor_assoc, bit_xor-half, bit_xor-parity, bit_xor-lt, bit_xor_low, bit_or_low,
  zero-bit_xor,
}
use deep_space_detection.Crc.{Crc, round, rounds, crc_value, crc16}
use deep_space_detection.Crc.Table.{table_crc_hi, table_crc_lo}

-- The generator polynomial 0x8005, with its bits reversed.
abbrev pub polynomial : ℕ
polynomial = 0xa001

-- One bit: shift right, and add the polynomial if a one fell out.
unfoldable pub shift : ℕ → ℕ
shift c = bit_xor (c / 2) (if c % 2 == 1 then polynomial else 0)

unfoldable pub shift_byte : ℕ → ℕ
shift_byte c = shift (shift (shift (shift (shift (shift (shift (shift c)))))))

-- One byte of the message, and the whole message.
unfoldable pub add_byte : ℕ → ℕ → ℕ
add_byte c b = shift_byte (bit_xor c b)

unfoldable pub modbus_from : ℕ → List ℕ → ℕ
modbus_from c [] = c
modbus_from c (b ∷ bs) = modbus_from (add_byte c b) bs

unfoldable pub modbus : List ℕ → ℕ
modbus = modbus_from 0xffff

-- The step is linear over `^`, and zero bits at the bottom only move.
shift_high : (g h x : ℕ) → g ≡ 2 * h → shift (bit_xor g x) ≡ bit_xor h (shift x)
unfolding shift
shift_high g h x e =
    let parity : bit_xor g x % 2 ≡ x % 2 = omega (arith, bit_xor-parity g x) in
    let half : bit_xor g x / 2 ≡ bit_xor h (x / 2) =
      bit_xor-half g x ∙ ap (λ (t : ℕ). bit_xor t (x / 2)) (omega arith) in
    rw (parity, half) (bit_xor_assoc h (x / 2) _)

pub shift_byte_high : (h x : ℕ) → shift_byte (bit_xor (256 * h) x) ≡ bit_xor h (shift_byte x)
unfolding shift_byte
shift_byte_high h x =
    rw
      (
        shift_high (256 * h) (128 * h) x (omega arith),
        shift_high (128 * h) (64 * h) (shift x) (omega arith),
        shift_high (64 * h) (32 * h) (shift (shift x)) (omega arith),
        shift_high (32 * h) (16 * h) (shift (shift (shift x))) (omega arith),
        shift_high (16 * h) (8 * h) (shift (shift (shift (shift x)))) (omega arith),
        shift_high (8 * h) (4 * h) (shift (shift (shift (shift (shift x))))) (omega arith),
        shift_high (4 * h) (2 * h) (shift (shift (shift (shift (shift (shift x)))))) (omega arith),
      )
      (shift_high (2 * h) h (shift (shift (shift (shift (shift (shift (shift x))))))) refl)

rows_pass : (ℕ → Bool) → ℕ → Bool
rows_pass test zero = true
rows_pass test (suc row) = rows_pass test row && test row

row_passes : (test : ℕ → Bool) (i rows : ℕ) → i < rows → rows_pass test rows ≡ true → test i ≡ true
unfolding rows_pass
row_passes test i zero inside all = absurd (omega arith)
row_passes test i (suc row) inside all = ground (arith, row_passes test i row)

-- Every row of the tables: the bytes of the CRC of its index.
abbrev row_holds : ℕ → ℕ → ℕ → Bool
row_holds c hi lo = c == lo * 256 + hi && ltb hi 256 && ltb lo 256

row_holds_sound :
    (c hi lo : ℕ) → row_holds c hi lo ≡ true → (c ≡ lo * 256 + hi) × (hi < 256) × (lo < 256)
row_holds_sound c hi lo h = ground arith

rows_hold :
    rows_pass
      (λ i. row_holds (shift_byte i) (get_or table_crc_hi i 0) (get_or table_crc_lo i 0))
      256
    ≡ true
unfolding rows_pass shift_byte shift
rows_hold = refl

pub table_row :
    (i : ℕ)
    → i < 256
    → (shift_byte i ≡ get_or table_crc_lo i 0 * 256 + get_or table_crc_hi i 0)
      × (get_or table_crc_hi i 0 < 256)
      × (get_or table_crc_lo i 0 < 256)
table_row i h = row_holds_sound _ _ _ (row_passes _ i 256 h rows_hold)

-- The two bytes of the loop are the two bytes of the reference.
abbrev word : Crc → ℕ
word c = c.crc_hi * 256 + c.crc_lo

abbrev IsPair : Crc → Type 0
IsPair c = (c.crc_hi < 256) × (c.crc_lo < 256)

pub split_word : (h x : ℕ) → x < 256 → bit_xor (256 * h) x ≡ h * 256 + x
split_word h x lt = ground (
  arith,
  bit_xor_low 8 h 0 x lt (omega arith),
  zero-bit_xor x,
  ap (λ (t : ℕ). bit_xor t x) (eq h),
)
  where
    eq : (k : ℕ) → 256 * k ≡ k * 2 ^ 8 + 0
    eq k = omega arith

round-IsPair : (c : Crc) (b : ℕ) → IsPair c → IsByte b → IsPair (round c b)
unfolding round
round-IsPair c b p h =
    let i = bit_xor c.crc_lo b in
    let row = table_row i (bit_xor-lt 8 c.crc_lo b p.1 h) in
    (row.2, bit_xor-lt 8 c.crc_hi (get_or table_crc_hi i 0) p.0 row.1)

round-add_byte : (c : Crc) (b : ℕ) → IsPair c → IsByte b → word (round c b) ≡ add_byte (word c) b
unfolding round add_byte
round-add_byte c b p h =
    let i = bit_xor c.crc_lo b in
    let i_lt : i < 256 = bit_xor-lt 8 c.crc_lo b p.1 h in
    let row = table_row i i_lt in
    let hi = get_or table_crc_hi i 0 in
    let lo = get_or table_crc_lo i 0 in
    sym (
      ap shift_byte (bit_xor_low 8 c.crc_hi c.crc_lo b h p.1 ∙ sym (split_word c.crc_hi i i_lt))
      ∙ shift_byte_high c.crc_hi i
      ∙ ap (bit_xor c.crc_hi) row.0
      ∙ bit_xor_comm c.crc_hi (lo * 256 + hi)
      ∙ bit_xor_low 8 lo hi c.crc_hi p.0 row.1
      ∙ ap (λ (t : ℕ). lo * 256 + t) (bit_xor_comm hi c.crc_hi))

rounds-modbus_from :
    (n : ℕ) (c : Crc) (bs : List ℕ)
    → IsPair c
    → IsBytes bs
    → n ≤ length bs
    → (d : Crc) × (rounds n c bs ≡ ok d) × IsPair d × (word d ≡ modbus_from (word c) (take n bs))
unfolding rounds modbus_from
rounds-modbus_from zero c bs p all h = (c, refl, p, refl)
rounds-modbus_from (suc n) c [] p all h = absurd (omega arith)
rounds-modbus_from (suc n) c (b ∷ bs) p all h =
    let (d, runs, pair, eq) =
      rounds-modbus_from n (round c b) bs (round-IsPair c b p all.0) all.1 (omega arith) in
    (d, runs, pair, eq ∙ ap (λ (t : ℕ). modbus_from t (take n bs)) (round-add_byte c b p all.0))

crc_value-word : (c : Crc) → IsPair c → crc_value c ≡ word c
unfolding crc_value
crc_value-word c p = bit_or_low 8 c.crc_hi c.crc_lo p.1

-- On a buffer of at least `n` bytes, with `n` below 2 ^ 16, the table-driven `crc16` returns the
-- CRC-16/MODBUS of its first `n` bytes, computed bit by bit.
pub crc16-modbus :
    (buffer : List ℕ) (n : ℕ)
    → IsBytes buffer
    → n ≤ length buffer
    → n < 2 ^ 16
    → crc16 buffer n ≡ ok (modbus (take n buffer))
unfolding crc16 modbus
crc16-modbus buffer n all h lt =
    let start : Crc = record { crc_hi = 0xff; crc_lo = 0xff } in
    let width : u16 n ≡ n = omega arith in
    let (d, runs, pair, eq) = rounds-modbus_from n start buffer (omega arith) all h in
    rw (width, runs) (ap ok (crc_value-word d pair ∙ eq))
