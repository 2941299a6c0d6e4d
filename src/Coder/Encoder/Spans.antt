-- ===== src/Coder/Encoder/Spans.antt =====
-- The interval of an `ArithmeticEncoder` within the whole of the message: the bits that it has
-- written and those that `m_num_underflow` stands for come before its two ends.
use deep_space_detection.Base.{
  ℕ, zero, suc, ◌+◌, ◌-◌, ◌*◌, ◌/◌, ◌%◌, ◌^◌, ◌≡◌, ◌<◌, ◌≤◌, ◌∙◌, refl, ap, sym, u8, bit_xor, ◌>>>◌,
  inl, inr, List, [], ◌∷◌, ◌++◌, arith, replicate, length, length-append, length-replicate,
}
use mathlib.Core.List.{append_assoc, append-nil}
use mathlib.Core.Path.{subst}
use deep_space_detection.Base.Signed.{pos, pattern64}
use deep_space_detection.Coder.Counting.{CountingBitOutputStream}
use deep_space_detection.Coder.Counting.Laws.{Wrote, Wrote-write}
use deep_space_detection.Coder.Exec.{ok}
use deep_space_detection.Coder.Encoder.{
  state_size, ArithmeticEncoder, write_rest, shift, underflow, widen_top, widen_middle,
}
use deep_space_detection.Coder.Encoder.Offset.{
  number_from, number_from-append, number_from-replicate, offset, offset-top, offset-middle,
  low_or_one,
}
use deep_space_detection.Coder.Encoder.Bits.{
  low-widen_top, high-widen_top, low-widen_middle, high-widen_middle,
}

-- The encoder's interval is from `lo` up to but not including `hi`, in units of which 2 ^ (n + 32) make 1.
pub record Spans (e : ArithmeticEncoder) (n lo hi : ℕ) : Type 0 where
  pub bits : List ℕ
  pub low : ℕ
  pub high : ℕ
  pub wrote : Wrote e.m_c_bit_out bits
  pub low_is : e.m_low ≡ pos low
  pub high_is : e.m_high ≡ pos high
  pub ordered : low ≤ high
  pub bounded : high < 2 ^ 32
  pub scale : n ≡ length bits + e.m_num_underflow
  pub lo_is : lo ≡ offset (number_from 0 bits) e.m_num_underflow + low
  pub hi_is : hi ≡ offset (number_from 0 bits) e.m_num_underflow + high + 1

-- The ends differ in the highest bit.
pub record IsApart (e : ArithmeticEncoder) (n lo hi : ℕ) : Type 0 where
  pub spans : Spans e n lo hi
  pub below : spans.low < 2 ^ 31
  pub above : 2 ^ 31 ≤ spans.high

same_bits : (s : CountingBitOutputStream) {xs ys : List ℕ} → xs ≡ ys → Wrote s xs → Wrote s ys
same_bits s e w = subst (Wrote s) e w

write_rest_lem :
    (n b : ℕ) (s : CountingBitOutputStream) (bits : List ℕ)
    → Wrote s bits
    → b < 2
    → length bits + n < 2 ^ 31
    → (s' : CountingBitOutputStream) × (write_rest n b s ≡ ok s') × Wrote s' (bits ++ replicate n b)
unfolding write_rest
write_rest_lem zero b s bits w bit room = (s, refl, same_bits s (sym (append-nil bits)) w)
write_rest_lem (suc n) b s bits w bit room =
    let (t, run, wt) = Wrote-write s bits b w bit (omega arith) in
    let (s', run', w') =
      write_rest_lem n b t (bits ++ b ∷ []) wt bit (omega (arith, length-append bits (b ∷ []))) in
    (s', rw run run', same_bits s' (append_assoc bits (b ∷ []) (replicate n b)) w')

flipped : (b : ℕ) → b < 2 → bit_xor b 1 ≡ 1 - b
flipped b h = elim (low_or_one b h) [ inl e ↦ rw e refl | inr e ↦ rw e refl ]

module _ (e : ArithmeticEncoder) (n lo hi : ℕ) (s : Spans e n lo hi) (room : n + 1 < 2 ^ 31) where
  -- The bit that `shift` writes.
  abbrev b : ℕ
  b = s.low / 2 ^ 31

  written : u8 (pattern64 e.m_low >>> (state_size - 1)) ≡ b
  written = rw s.low_is (omega (arith, s.ordered, s.bounded))

  bit : b < 2
  bit = omega (arith, s.ordered, s.bounded)

  abbrev u : ℕ
  u = e.m_num_underflow

  abbrev more : List ℕ
  more = (s.bits ++ b ∷ []) ++ replicate u (1 - b)

  length-more : length more ≡ n + 1
  length-more = omega (
    arith,
    s.scale,
    length-append (s.bits ++ b ∷ []) (replicate u (1 - b)),
    length-append s.bits (b ∷ []),
    length-replicate {A = ℕ} u (1 - b),
  )

  number-more : number_from 0 more ≡ (2 * number_from 0 s.bits + b) * 2 ^ u + (1 - b) * (2 ^ u - 1)
  number-more =
      number_from-append (s.bits ++ b ∷ []) (replicate u (1 - b)) 0
      ∙ ap (λ (v : ℕ). number_from v (replicate u (1 - b))) (number_from-append s.bits (b ∷ []) 0)
      ∙ number_from-replicate u (1 - b) (2 * number_from 0 s.bits + b)

  shift_lem :
      (e' : ArithmeticEncoder) × (shift e ≡ ok e')
      × (e'.m_low ≡ pos s.low)
      × (e'.m_high ≡ pos s.high)
      × (e'.m_num_underflow ≡ 0)
      × Wrote e'.m_c_bit_out more
  unfolding shift
  shift_lem =
      let (t, run, w) = Wrote-write e.m_c_bit_out s.bits b s.wrote bit (omega (arith, s.scale)) in
      let (t', run', w') =
        write_rest_lem u (1 - b) t (s.bits ++ b ∷ []) w (omega arith)
          (omega (arith, s.scale, length-append s.bits (b ∷ []))) in
      (
        record e { m_num_underflow = 0; m_c_bit_out = t' },
        rw (written, run, flipped b bit, run') refl,
        s.low_is,
        s.high_is,
        refl,
        w',
      )

  abbrev v : ℕ
  v = number_from 0 s.bits

  -- A round of the first loop doubles the interval.
  offset-more :
      (e' : ArithmeticEncoder)
      → e'.m_num_underflow ≡ 0
      → offset (number_from 0 more) e'.m_num_underflow ≡ 2 * offset v u + b * 2 ^ 32
  offset-more e' eu = rw (eu, number-more) (offset-top v u b bit)

  pub Spans-shift :
      s.low / 2 ^ 31 ≡ s.high / 2 ^ 31
      → (e' : ArithmeticEncoder) × (shift e ≡ ok e')
        × Spans (widen_top e') (n + 1) (2 * lo) (2 * hi)
  unfolding widen_top
  Spans-shift same =
      let (e', run, el, eh, eu, w) = shift_lem in
      (
        e',
        run,
        record {
          bits = more;
          low = 2 * s.low % 2 ^ 32;
          high = 2 * s.high % 2 ^ 32 + 1;
          wrote = w;
          low_is =
              low-widen_top e' s.low s.high el eh (omega (arith, s.ordered, s.bounded)) s.bounded;
          high_is =
              high-widen_top e' s.low s.high el eh (omega (arith, s.ordered, s.bounded)) s.bounded;
          ordered = omega (arith, s.ordered, s.bounded);
          bounded = omega arith;
          scale = omega (arith, eu, length-more);
          lo_is = omega (arith, offset-more e' eu, s.lo_is);
          hi_is = omega (arith, offset-more e' eu, s.hi_is);
        },
      )

  pub Spans-underflow :
      2 ^ 30 ≤ s.low
      → s.low < 2 ^ 31
      → 2 ^ 31 ≤ s.high
      → s.high < 2 ^ 31 + 2 ^ 30
      → (e' : ArithmeticEncoder) × (underflow e ≡ ok e')
        × IsApart (widen_middle e') (n + 1) (2 * lo) (2 * hi)
  unfolding widen_middle underflow
  Spans-underflow h1 h2 h3 h4 =
      let e' = record e { m_num_underflow = e.m_num_underflow + 1 } in
      (
        e',
        refl,
        record {
          spans = record {
            bits = s.bits;
            low = 2 * s.low % 2 ^ 31;
            high = 2 ^ 31 + 2 * s.high % 2 ^ 31 + 1;
            wrote = s.wrote;
            low_is =
                low-widen_middle e' s.low s.high s.low_is s.high_is
                  (omega (arith, s.ordered, s.bounded)) s.bounded;
            high_is =
                high-widen_middle e' s.low s.high s.low_is s.high_is
                  (omega (arith, s.ordered, s.bounded)) s.bounded;
            ordered = omega arith;
            bounded = omega arith;
            scale = omega (arith, s.scale);
            lo_is = omega (arith, offset-middle v u, s.lo_is);
            hi_is = omega (arith, offset-middle v u, s.hi_is);
          };
          below = omega arith;
          above = omega arith;
        },
      )
