-- ===== src/Coder/Encoder.antt =====
-- `ArithmeticCoderBase` and `ArithmeticEncoder`, and their use in `coding`. The virtual `shift` and
-- `underflow` are the encoder's, since no other class defines them.
pub mod Bits
pub mod Offset
pub mod Spans
pub mod Loops
pub mod Update
pub mod Codeword
use deep_space_detection.Base.{
  ℕ, zero, suc, ◌+◌, ◌-◌, ◌*◌, ◌/◌, ◌%◌, ◌^◌, List, [], ◌∷◌, Bool, true, false, ◌==◌, ltb, not,
  if◌then◌else◌, bit_and, bit_or, bit_xor, u8, u64, ◌<<<◌, ◌>>>◌,
}
use deep_space_detection.Base.Signed.{ℤ, pos, negsuc, ◌+ℤ◌, ◌-ℤ◌, ◌*ℤ◌, ◌/ℤ◌, pattern64}
use deep_space_detection.Coder.Exec.{Exec, ok, thrown, fault, unended, ◌>>=◌, long_long}
use deep_space_detection.Coder.Counting
use deep_space_detection.Coder.Counting.{CountingBitOutputStream, open_counting}

abbrev pub state_size : ℕ
state_size = 32

abbrev pub max_range : ℕ
max_range = 1 <<< state_size

abbrev pub min_range : ℕ
min_range = (max_range >>> 2) + 2

abbrev pub max_total : ℕ
max_total = min_range

abbrev pub mask : ℕ
mask = max_range - 1

abbrev pub top_mask : ℕ
top_mask = max_range >>> 1

abbrev pub second_mask : ℕ
second_mask = top_mask >>> 1

pub record ArithmeticEncoder : Type 0 where
  pub m_low : ℤ
  pub m_high : ℤ
  pub m_num_underflow : ℕ
  pub m_c_bit_out : CountingBitOutputStream

-- The constructor.
abbrev pub start : CountingBitOutputStream → ArithmeticEncoder
start out = record { m_low = pos 0; m_high = pos mask; m_num_underflow = 0; m_c_bit_out = out }

-- The loop of `shift`, over the rounds left.
unfoldable pub write_rest : ℕ → ℕ → CountingBitOutputStream → Exec CountingBitOutputStream
write_rest zero b out = ok out
write_rest (suc n) b out = Counting.write b out >>= write_rest n b

-- `bit` is an `unsigned char`.
unfoldable pub shift : ArithmeticEncoder → Exec ArithmeticEncoder
unfolding write_rest
shift e = do
  let bit = u8 (pattern64 e.m_low >>> (state_size - 1))
  out ← Counting.write bit e.m_c_bit_out
  out ← write_rest e.m_num_underflow (bit_xor bit 1) out
  ok (record e { m_num_underflow = 0; m_c_bit_out = out })

unfoldable pub underflow : ArithmeticEncoder → Exec ArithmeticEncoder
underflow e = ok (record e { m_num_underflow = e.m_num_underflow + 1 })

-- `((m_low ^ m_high) & TOP_MASK) == 0`
abbrev pub same_top : ArithmeticEncoder → Bool
same_top e = bit_and (bit_xor (pattern64 e.m_low) (pattern64 e.m_high)) top_mask == 0

-- `(m_low & ~m_high & SECOND_MASK) != 0`
abbrev pub near_middle : ArithmeticEncoder → Bool
near_middle e =
    not (bit_and (bit_and (pattern64 e.m_low) (2 ^ 64 - 1 - pattern64 e.m_high)) second_mask == 0)

-- The rest of the bodies of the two loops.
unfoldable pub widen_top : ArithmeticEncoder → ArithmeticEncoder
widen_top e = record e {
  m_low = pos (bit_and (u64 (pattern64 e.m_low <<< 1)) mask);
  m_high = pos (bit_or (bit_and (u64 (pattern64 e.m_high <<< 1)) mask) 1);
}

unfoldable pub widen_middle : ArithmeticEncoder → ArithmeticEncoder
widen_middle e = record e {
  m_low = pos (bit_and (u64 (pattern64 e.m_low <<< 1)) (mask >>> 1));
  m_high = pos (bit_or (bit_or (bit_and (u64 (pattern64 e.m_high <<< 1)) (mask >>> 1)) top_mask) 1);
}

-- The two loops, with fuel for their rounds.
unfoldable pub shift_loop : ℕ → ArithmeticEncoder → Exec ArithmeticEncoder
unfolding widen_top
shift_loop zero e = if same_top e then unended else ok e
shift_loop (suc k) e = elim (same_top e) [
  | true ↦ shift e >>= λ e. shift_loop k (widen_top e)
  | false ↦ ok e
]

unfoldable pub underflow_loop : ℕ → ArithmeticEncoder → Exec ArithmeticEncoder
unfolding widen_middle
underflow_loop zero e = if near_middle e then unended else ok e
underflow_loop (suc k) e = elim (near_middle e) [
  | true ↦ underflow e >>= λ e. underflow_loop k (widen_middle e)
  | false ↦ ok e
]

-- `total > MAX_TOTAL`
abbrev pub too_large : ℤ → Bool
too_large (pos n) = ltb max_total n
too_large (negsuc n) = false

-- Division by zero has undefined behaviour.
abbrev pub divide : ℤ → ℤ → Exec ℤ
divide a (pos zero) = fault
divide a (pos (suc b)) = long_long (a /ℤ pos (suc b))
divide a (negsuc b) = long_long (a /ℤ negsuc b)

-- `low + sym * range / total`
unfoldable pub bound : ℤ → ℤ → ℤ → ℤ → Exec ℤ
bound low sym range total = do
  p ← long_long (sym *ℤ range)
  q ← divide p total
  long_long (low +ℤ q)

-- The argument `symbol` is not used.
unfoldable pub update : ℕ → ℤ → ℤ → ℤ → ArithmeticEncoder → Exec ArithmeticEncoder
unfolding bound
update k total symlow symhigh e = do
  range ← long_long (e.m_high -ℤ e.m_low)
  if too_large total then thrown else do
    newlow ← bound e.m_low symlow range total
    h ← bound e.m_low symhigh range total
    newhigh ← long_long (h -ℤ pos 1)
    e ← shift_loop k (record e { m_low = newlow; m_high = newhigh })
    underflow_loop k e

abbrev pub write : ℕ → ℤ → ℤ → ℤ → ArithmeticEncoder → Exec ArithmeticEncoder
write = update

unfoldable pub finish : ArithmeticEncoder → Exec ArithmeticEncoder
finish e = do out ← Counting.write 1 e.m_c_bit_out; ok (record e { m_c_bit_out = out })
