-- ===== src/Coder/Encoder/Codeword.antt =====
-- What `finish` and `close` leave in the file, as a number in the interval of the encoder.
use deep_space_detection.Base.{
  ℕ, ◌+◌, ◌*◌, ◌^◌, ◌≡◌, ◌<◌, ◌≤◌, ◌∙◌, ap, List, [], ◌∷◌, ◌++◌, arith, replicate, length,
  length-append, length-replicate, IsBytes,
}
use native.Mathlib.Nat.{
  mul-le-mul_right, mul-lt-mul_of_pos_right, le_of_mul-le-mul_right, lt_of_mul-lt-mul_right,
}
use deep_space_detection.Base.Bits.{pow_sum}
use deep_space_detection.Coder.Exec.{ok, ◌>>=◌}
use deep_space_detection.Coder.Output.Laws.{bits_of, padding}
use deep_space_detection.Coder.Counting
use deep_space_detection.Coder.Counting.{CountingBitOutputStream}
use deep_space_detection.Coder.Counting.Laws.{Wrote-write, close-Wrote}
use deep_space_detection.Coder.Encoder.{ArithmeticEncoder, finish}
use deep_space_detection.Coder.Encoder.Spans.{IsApart}
use deep_space_detection.Coder.Encoder.Offset.{
  number_from, number_from-append, number_from-replicate, pow_pos, offset,
}
use deep_space_detection.Coder.Encoder.Loops.{IsReady}

-- The bits, read as a binary fraction, stand in the interval from `lo` to `hi`, in units of which
-- 2 ^ (n + 32) make 1.
pub record Codes (code : List ℕ) (n lo hi : ℕ) : Type 0 where
  pub from : lo * 2 ^ length code ≤ number_from 0 code * 2 ^ (n + 32)
  pub before : number_from 0 code * 2 ^ (n + 32) < hi * 2 ^ length code

-- The middle of the highest bit, behind the bits of `v`.
abbrev middle : ℕ → ℕ → ℕ
middle v u = (2 * v + 1) * 2 ^ u * 2 ^ 31

offset-lt : (v u low : ℕ) → low < 2 ^ 31 → offset v u + low < middle v u
offset-lt v u low h = omega (arith, pow_pos u)

middle-lt : (v u high : ℕ) → 2 ^ 31 ≤ high → middle v u < offset v u + high + 1
middle-lt v u high h = omega (arith, pow_pos u)

module _ (bits : List ℕ) (z : ℕ) where
  -- A last 1 and the zeros that fill up the byte.
  abbrev ended : List ℕ
  ended = (bits ++ 1 ∷ []) ++ replicate z 0

  length-ended : length ended ≡ length bits + 1 + z
  length-ended = omega (
    arith,
    length-append (bits ++ 1 ∷ []) (replicate z 0),
    length-append bits (1 ∷ []),
    length-replicate {A = ℕ} z 0,
  )

  number-ended : number_from 0 ended ≡ (2 * number_from 0 bits + 1) * 2 ^ z
  number-ended =
      number_from-append (bits ++ 1 ∷ []) (replicate z 0) 0
      ∙ ap (λ (v : ℕ). number_from v (replicate z 0)) (number_from-append bits (1 ∷ []) 0)
      ∙ number_from-replicate z 0 (2 * number_from 0 bits + 1)
      ∙ omega arith

  value-ended :
      (u : ℕ)
      → number_from 0 ended * 2 ^ (length bits + u + 32)
        ≡ middle (number_from 0 bits) u * 2 ^ length ended
  value-ended u =
      rw
        (
          number-ended,
          length-ended,
          pow_sum (length bits + 1) z,
          pow_sum (length bits) 1,
          pow_sum (length bits + u) 32,
          pow_sum (length bits) u,
        )
        (omega arith)

Codes-ended :
    (e : ArithmeticEncoder) (n lo hi : ℕ) (a : IsApart e n lo hi) (z : ℕ)
    → Codes (ended a.spans.bits z) n lo hi
Codes-ended e n lo hi a z =
    let s = a.spans in
    let v = number_from 0 s.bits in
    let u = e.m_num_underflow in
    let value : number_from 0 (ended s.bits z) * 2 ^ (n + 32)
        ≡ middle v u * 2 ^ length (ended s.bits z) =
      rw s.scale (value-ended s.bits z u) in
    record {
      from =
          rw (value, s.lo_is)
            (mul-le-mul_right (2 ^ length (ended s.bits z))
              (omega (arith, offset-lt v u s.low a.below)));
      before =
          rw (value, s.hi_is)
            (mul-lt-mul_of_pos_right (middle-lt v u s.high a.above)
              (pow_pos (length (ended s.bits z))));
    }

-- The end of `coding`.
pub finish_lem :
    (e : ArithmeticEncoder) (n lo hi : ℕ)
    → IsReady e n lo hi
    → n + 10 < 2 ^ 31
    → (s : CountingBitOutputStream) × ((finish e >>= λ e. Counting.close 7 e.m_c_bit_out) ≡ ok s)
      × Codes (bits_of s.m_bit_out.file) n lo hi
      × IsBytes s.m_bit_out.file
unfolding finish
finish_lem e n lo hi ready room =
    let s = ready.apart.spans in
    let (t, run, w) =
      Wrote-write e.m_c_bit_out s.bits 1 s.wrote (omega arith) (omega (arith, s.scale)) in
    let (t', run', c, counted, bytes) =
      close-Wrote 7 t (s.bits ++ 1 ∷ []) w (omega arith)
        (omega (arith, s.scale, length-append s.bits (1 ∷ []))) in
    (
      t',
      rw run run',
      rw c (Codes-ended e n lo hi ready.apart (padding (length (s.bits ++ 1 ∷ [])))),
      bytes,
    )

-- The interval before doublings, and a longer one.
pub Codes-before :
    (code : List ℕ) (n lo hi r : ℕ)
    → Codes code (n + r) (lo * 2 ^ r) (hi * 2 ^ r)
    → Codes code n lo hi
Codes-before code n lo hi r c =
    let l = 2 ^ length code in
    let value : number_from 0 code * 2 ^ (n + r + 32) ≡ number_from 0 code * 2 ^ (n + 32) * 2 ^ r =
      rw (pow_sum (n + r) 32, pow_sum n r, pow_sum n 32) (omega arith) in
    record {
      from = le_of_mul-le-mul_right {k = 2 ^ r} (omega (arith, value, c.from)) (pow_pos r);
      before = lt_of_mul-lt-mul_right (2 ^ r) (omega (arith, value, c.before));
    }

pub Codes-longer :
    (code : List ℕ) (n lo hi lo' hi' : ℕ)
    → lo' ≤ lo
    → hi ≤ hi'
    → Codes code n lo hi
    → Codes code n lo' hi'
Codes-longer code n lo hi lo' hi' below above c =
    let l : lo' * 2 ^ length code ≤ lo * 2 ^ length code =
      mul-le-mul_right (2 ^ length code) below in
    let h : hi * 2 ^ length code ≤ hi' * 2 ^ length code =
      mul-le-mul_right (2 ^ length code) above in
    record { from = omega (arith, c.from); before = omega (arith, c.before) }

-- Intervals without a common point have no common code.
pub Codes-disjoint :
    (code : List ℕ) (n lo hi lo' hi' : ℕ) → hi ≤ lo' → Codes code n lo hi → ¬ Codes code n lo' hi'
Codes-disjoint code n lo hi lo' hi' apart c c' =
    let h : hi * 2 ^ length code ≤ lo' * 2 ^ length code =
      mul-le-mul_right (2 ^ length code) apart in
    omega (arith, c.before, c'.from)
