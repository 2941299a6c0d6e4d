-- ===== src/Coder/Coding.antt =====
-- `coding` of coding.cpp. The frequencies are parameters: the code computes them in floating point
-- with `exp` and `erf` of the C library.
pub mod Laws
use deep_space_detection.Base.{
  ℕ, zero, suc, ◌+◌, ◌-◌, ◌%◌, ◌^◌, Bool, ◌==◌, ltb, if◌then◌else◌, Option, none, some,
}
use deep_space_detection.Base.Signed.{ℤ, pos, negsuc, ◌+ℤ◌}
use deep_space_detection.Coder.Exec.{Exec, ok, fault, ◌>>=◌, long_long}
use deep_space_detection.Coder.Counting
use deep_space_detection.Coder.Counting.{CountingBitOutputStream, open_counting}
use deep_space_detection.Coder.Encoder.{ArithmeticEncoder, start, finish}
use deep_space_detection.Coder.Encoder

-- The three variables of the loop. `symlow` and `symhigh` start uninitialised.
pub record Tally : Type 0 where
  pub total_freqs : ℤ
  pub symlow : Option ℤ
  pub symhigh : Option ℤ

-- `int` from `long long`: the low 32 bits.
abbrev signed32 : ℕ → ℤ
signed32 n = if ltb n (2 ^ 31) then pos n else negsuc (2 ^ 32 - 1 - n)

abbrev pub int_of : ℤ → ℤ
int_of (pos n) = signed32 (n % 2 ^ 32)
int_of (negsuc n) = signed32 (2 ^ 32 - 1 - n % 2 ^ 32)

abbrev note_if : Bool → ℤ → Option ℤ → Option ℤ
note_if now v old = if now then some (int_of v) else old

-- A round of the loop; `freq i` is `int((highboundhigh - lowboundlow) * freqs_resolution)`.
unfoldable pub tally_step : (ℕ → ℤ) → ℕ → ℕ → Tally → Exec Tally
tally_step freq index i t = do
  total ← long_long (t.total_freqs +ℤ freq i)
  ok (record {
    total_freqs = total;
    symlow = note_if (i == index) t.total_freqs t.symlow;
    symhigh = note_if (i == index) total t.symhigh;
  })

-- The loop from `i`, over the rounds left.
unfoldable pub tally_loop : (ℕ → ℤ) → ℕ → ℕ → ℕ → Tally → Exec Tally
tally_loop freq index zero i t = ok t
tally_loop freq index (suc rounds) i t =
    tally_step freq index i t >>= tally_loop freq index rounds (i + 1)

abbrev pub low_bound : ℕ
low_bound = 0

abbrev pub high_bound : ℕ
high_bound = 10

abbrev pub tally : (ℕ → ℤ) → ℕ → Exec Tally
tally freq index =
    tally_loop freq index (high_bound + 1 - low_bound) low_bound
      (record { total_freqs = pos 0; symlow = none; symhigh = none })

-- To read a variable that has no value has undefined behaviour.
abbrev initialised : Option ℤ → Exec ℤ
initialised none = fault
initialised (some v) = ok v

-- The body, where the output file opens. The result is the stream after `close`.
unfoldable pub coding_body : (ℕ → ℤ) → Exec CountingBitOutputStream
coding_body freq = do
  t ← tally freq 1
  symlow ← initialised t.symlow
  symhigh ← initialised t.symhigh
  enc ← Encoder.write 33 t.total_freqs symlow symhigh (start open_counting)
  enc ← finish enc
  Counting.close 7 enc.m_c_bit_out

-- `coding` has the result type `void *`, here an address, and no `return`: control flows off its end, which is undefined
-- behaviour.
unfoldable pub coding : (ℕ → ℤ) → Exec ℕ
coding freq = coding_body freq >>= λ s. fault
