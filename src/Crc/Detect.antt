-- ===== src/Crc/Detect.antt =====
-- What the checksum promises to a receiver.
use deep_space_detection.Base.{
  IsBytes-append, IsByte, IsBytes, ℕ, ◌+◌, ◌*◌, ◌/◌, ◌%◌, ◌^◌, ◌<◌, ◌≡◌, refl, sym, ap, ◌∙◌, ◌≢◌,
  arith, bit_xor, List, [], ◌∷◌, ◌++◌, length, length-append, take_self, ok, le16,
}
use deep_space_detection.Base.Bits.{
  bit_xor-zero, bit_xor_comm, bit_xor_self, bit_xor_cancel_left, bit_xor_cancel_right, bit_xor-lt,
  bit_xor_low,
}
use deep_space_detection.Crc.{crc16}
use deep_space_detection.Crc.Reference.{
  polynomial, shift, shift_byte, shift_byte_high, split_word, add_byte, modbus_from, modbus,
  crc16-modbus,
}

-- The top bit after a step is the bit that fell out, so a step loses nothing.
shift_even : (c : ℕ) → c % 2 ≡ 0 → shift c ≡ c / 2
unfolding shift
shift_even c e = ground (arith, bit_xor-zero (c / 2))

shift_odd : (c : ℕ) → c < 2 ^ 16 → c % 2 ≡ 1 → shift c ≡ 2 ^ 15 + bit_xor 0x2001 (c / 2)
unfolding shift
shift_odd c h e = ground (
  arith,
  bit_xor_comm (c / 2) polynomial,
  bit_xor_low 15 1 0x2001 (c / 2) (omega arith) (omega arith),
)

shift-lt : (c : ℕ) → c < 2 ^ 16 → shift c < 2 ^ 16
unfolding shift
shift-lt c h = bit_xor-lt 16 (c / 2) _ (omega arith) (ground arith)

shift-injective : (a b : ℕ) → a < 2 ^ 16 → b < 2 ^ 16 → shift a ≡ shift b → a ≡ b
shift-injective a b ha hb h = ground (
  arith,
  shift_even a,
  shift_even b,
  shift_odd a ha,
  shift_odd b hb,
  bit_xor_cancel_left 0x2001 (a / 2) (b / 2),
)

-- A function that keeps 16 bits and loses nothing of them.
abbrev IsStep : (ℕ → ℕ) → Type 0
IsStep f = (a : ℕ) → a < 2 ^ 16 → (f a < 2 ^ 16) × ((b : ℕ) → b < 2 ^ 16 → f a ≡ f b → a ≡ b)

twice-IsStep : (f : ℕ → ℕ) → IsStep f → IsStep (λ x. f (f x))
twice-IsStep f s a ha =
    ((s (f a) (s a ha).0).0, λ b hb h. (s a ha).1 b hb ((s (f a) (s a ha).0).1 (f b) (s b hb).0 h))

shift_byte-IsStep : IsStep shift_byte
unfolding shift_byte
shift_byte-IsStep =
    twice-IsStep (λ x. shift (shift (shift (shift x))))
      (twice-IsStep (λ x. shift (shift x))
        (twice-IsStep shift (λ a ha. (shift-lt a ha, λ b hb h. shift-injective a b ha hb h))))

shift_byte-lt : (c : ℕ) → c < 2 ^ 16 → shift_byte c < 2 ^ 16
shift_byte-lt c h = (shift_byte-IsStep c h).0

shift_byte-injective : (a b : ℕ) → a < 2 ^ 16 → b < 2 ^ 16 → shift_byte a ≡ shift_byte b → a ≡ b
shift_byte-injective a b ha hb h = (shift_byte-IsStep a ha).1 b hb h

add_byte-lt : (c b : ℕ) → c < 2 ^ 16 → IsByte b → add_byte c b < 2 ^ 16
unfolding add_byte
add_byte-lt c b h k = shift_byte-lt _ (bit_xor-lt 16 c b h (omega arith))

modbus_from-lt : (c : ℕ) (bs : List ℕ) → c < 2 ^ 16 → IsBytes bs → modbus_from c bs < 2 ^ 16
unfolding modbus_from
modbus_from-lt c [] h all = h
modbus_from-lt c (b ∷ bs) h all = modbus_from-lt (add_byte c b) bs (add_byte-lt c b h all.0) all.1

pub modbus-lt : (bs : List ℕ) → IsBytes bs → modbus bs < 2 ^ 16
unfolding modbus
modbus-lt bs all = modbus_from-lt 0xffff bs (omega arith) all

-- One message, from two states of the register.
modbus_from-injective :
    (c d : ℕ) (bs : List ℕ)
    → c < 2 ^ 16
    → d < 2 ^ 16
    → IsBytes bs
    → modbus_from c bs ≡ modbus_from d bs
    → c ≡ d
unfolding modbus_from add_byte
modbus_from-injective c d [] hc hd all h = h
modbus_from-injective c d (b ∷ bs) hc hd all h =
    let cb : bit_xor c b < 2 ^ 16 = bit_xor-lt 16 c b hc (omega arith) in
    let db : bit_xor d b < 2 ^ 16 = bit_xor-lt 16 d b hd (omega arith) in
    bit_xor_cancel_right b c d (
      shift_byte-injective _ _ cb db (
        modbus_from-injective (shift_byte (bit_xor c b)) (shift_byte (bit_xor d b)) bs
          (shift_byte-lt _ cb) (shift_byte-lt _ db) all.1 h))

modbus_from-append :
    (c : ℕ) (xs ys : List ℕ) → modbus_from c (xs ++ ys) ≡ modbus_from (modbus_from c xs) ys
unfolding modbus_from
modbus_from-append c [] ys = refl
modbus_from-append c (x ∷ xs) ys = modbus_from-append (add_byte c x) xs ys

modbus_ne :
    (c : ℕ) (xs ys : List ℕ) (a b : ℕ)
    → c < 2 ^ 16
    → IsBytes xs
    → IsBytes ys
    → IsByte a
    → IsByte b
    → a ≢ b
    → modbus_from c (xs ++ a ∷ ys) ≢ modbus_from c (xs ++ b ∷ ys)
unfolding modbus_from add_byte
modbus_ne c [] ys a b hc allx ally ha hb ne h =
    let ca : bit_xor c a < 2 ^ 16 = bit_xor-lt 16 c a hc (omega arith) in
    let cb : bit_xor c b < 2 ^ 16 = bit_xor-lt 16 c b hc (omega arith) in
    ne (
      bit_xor_cancel_left c a b (
        shift_byte-injective _ _ ca cb
          (modbus_from-injective _ _ ys (shift_byte-lt _ ca) (shift_byte-lt _ cb) ally h)))
modbus_ne c (x ∷ xs) ys a b hc allx ally ha hb ne h =
    modbus_ne (add_byte c x) xs ys a b (add_byte-lt c x hc allx.0) allx.1 ally ha hb ne h

-- Two messages that differ in one byte have different values.
pub modbus_detects :
    (xs ys : List ℕ) (a b : ℕ)
    → IsBytes (xs ++ a ∷ ys)
    → IsByte b
    → a ≢ b
    → modbus (xs ++ a ∷ ys) ≢ modbus (xs ++ b ∷ ys)
unfolding modbus
modbus_detects xs ys a b all hb ne =
    let (allx, ha, ally) = split xs all in
    modbus_ne 0xffff xs ys a b (omega arith) allx ally ha hb ne
  where
    split : (zs : List ℕ) → IsBytes (zs ++ a ∷ ys) → IsBytes zs × IsByte a × IsBytes ys
    split [] p = (tt, p.0, p.1)
    split (z ∷ zs) p = let (l, m, r) = split zs p.1 in ((p.0, l), m, r)

crc16_all :
    (buffer : List ℕ)
    → IsBytes buffer
    → length buffer < 2 ^ 16
    → crc16 buffer (length buffer) ≡ ok (modbus buffer)
crc16_all buffer all h =
    crc16-modbus buffer (length buffer) all (omega arith) h
    ∙ ap (λ l. ok (modbus l)) (take_self buffer)

-- Two buffers of fewer than 2 ^ 16 bytes that differ in exactly one byte have different values
-- of `crc16`: no single damaged byte goes unnoticed.
pub crc16_detects_byte :
    (xs ys : List ℕ) (a b : ℕ)
    → IsBytes xs
    → IsBytes ys
    → IsByte a
    → IsByte b
    → length (xs ++ a ∷ ys) < 2 ^ 16
    → a ≢ b
    → crc16 (xs ++ a ∷ ys) (length (xs ++ a ∷ ys)) ≢ crc16 (xs ++ b ∷ ys) (length (xs ++ b ∷ ys))
unfolding modbus
crc16_detects_byte xs ys a b allx ally ha hb len ne h =
    let same : length (xs ++ b ∷ ys) ≡ length (xs ++ a ∷ ys) =
      omega (arith, length-append xs (a ∷ ys), length-append xs (b ∷ ys)) in
    modbus_ne 0xffff xs ys a b (omega arith) allx ally ha hb ne (
      ok-injective (
        sym (crc16_all (xs ++ a ∷ ys) (IsBytes-append xs (a ∷ ys) allx (ha, ally)) len)
        ∙ h
        ∙ crc16_all (xs ++ b ∷ ys) (IsBytes-append xs (b ∷ ys) allx (hb, ally)) (omega arith)))
  where
    ok-injective : {x y : ℕ} → ok x ≡ ok y → x ≡ y
    ok-injective e = cc

add_byte_low : (h l : ℕ) → l < 256 → add_byte (h * 256 + l) l ≡ h
unfolding add_byte shift_byte shift
add_byte_low h l lt =
    ap shift_byte (
      bit_xor_low 8 h l l lt lt
      ∙ ap (λ (t : ℕ). h * 256 + t) (bit_xor_self l)
      ∙ sym (split_word h 0 (omega arith)))
    ∙ shift_byte_high h 0
    ∙ bit_xor-zero h

-- A message of fewer than 2 ^ 16 - 2 bytes that carries its own CRC-16, low byte first, as
-- `frame2bit_stream` writes it, has the CRC-16 zero.
pub crc16_residue :
    (message : List ℕ)
    → IsBytes message
    → length message + 2 < 2 ^ 16
    → (sum : ℕ) × (crc16 message (length message) ≡ ok sum)
      × (crc16 (message ++ le16 sum) (length message + 2) ≡ ok 0)
unfolding modbus modbus_from
crc16_residue message all lt =
    let m = modbus message in
    let m_lt : m < 2 ^ 16 = modbus-lt message all in
    let len : length (message ++ le16 m) ≡ length message + 2 =
      omega (arith, length-append message (le16 m)) in
    let whole : crc16 (message ++ le16 m) (length (message ++ le16 m))
        ≡ ok (modbus (message ++ le16 m)) =
      crc16_all (message ++ le16 m) (IsBytes-append message (le16 m) all (omega arith))
        (omega arith) in
    let first : add_byte m (m % 256) ≡ m / 256 % 256 =
      ap (λ (t : ℕ). add_byte t (m % 256)) (omega arith)
      ∙ add_byte_low (m / 256) (m % 256) (omega arith)
      ∙ omega arith in
    let second : add_byte (add_byte m (m % 256)) (m / 256 % 256) ≡ 0 =
      ap (λ (t : ℕ). add_byte t (m / 256 % 256)) first
      ∙ ap (λ (t : ℕ). add_byte t (m / 256 % 256)) (omega arith)
      ∙ add_byte_low 0 (m / 256 % 256) (omega arith) in
    (
      m,
      crc16_all message all (omega arith),
      rw len at (whole ∙ ap ok (modbus_from-append 0xffff message (le16 m) ∙ second)),
    )
