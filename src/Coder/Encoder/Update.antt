-- ===== src/Coder/Encoder/Update.antt =====
-- `ArithmeticCoderBase::update` on the interval of an encoder, and its division.
use deep_space_detection.Base.{
  ℕ, zero, suc, ◌+◌, ◌-◌, ◌*◌, ◌/◌, ◌^◌, ◌≡◌, ◌<◌, ◌≤◌, ◌∙◌, refl, ap, sym, false, ltb, arith,
}
use native.Mathlib.Nat.{
  mul-le-mul, mul-le-mul_right, div-le_of_le-mul, le-div_iff_mul-le, mul-div-le,
}
use deep_space_detection.Base.Bits.{pow_sum}
use deep_space_detection.Base.Signed.{pos, sub-pos, add-pos, mul-pos, div-pos}
use deep_space_detection.Coder.Exec.{ok, ◌>>=◌, long_long}
use deep_space_detection.Coder.Encoder.{
  ArithmeticEncoder, max_total, bound, update, shift_loop, underflow_loop,
}
use deep_space_detection.Coder.Encoder.Spans.{Spans}
use deep_space_detection.Coder.Encoder.Loops.{IsReady, shift_loop_lem, underflow_loop_lem}

-- Arguments that `write` can code: the symbol has a part of the total, and the total is at most the
-- length that an interval has between two symbols.
pub record IsSymbol (total symlow symhigh : ℕ) : Type 0 where
  pub some_part : symlow < symhigh
  pub within : symhigh ≤ total
  pub codable : total ≤ 2 ^ 30 + 1

-- The place of a cumulative frequency in a range.
abbrev pub part : ℕ → ℕ → ℕ → ℕ
part sym range total = sym * range / total

pub part_le : (s r t : ℕ) → 0 < t → s ≤ t → part s r t ≤ r
part_le s r t p h = div-le_of_le-mul t (mul-le-mul_right r h)

pub part_mono : (a b r t : ℕ) → 0 < t → a ≤ b → part a r t ≤ part b r t
part_mono a b r t p h =
    let step : a * r ≤ b * r = mul-le-mul_right r h in
    let below : t * part a r t ≤ a * r = mul-div-le (a * r) t in
    let goal : part a r t * t ≤ b * r = omega arith in (le-div_iff_mul-le p).1 goal

part_lt : (a b r t : ℕ) → 0 < t → a < b → t ≤ r → part a r t < part b r t
part_lt a b r t p h w =
    let below : t * part a r t ≤ a * r = mul-div-le (a * r) t in
    let step : suc a * r ≤ b * r = mul-le-mul_right r h in
    let goal : suc (part a r t) * t ≤ b * r = omega arith in (le-div_iff_mul-le p).1 goal

pub fits : (n : ℕ) → n < 2 ^ 63 → long_long (pos n) ≡ ok (pos n)
fits n h = ground arith

bound_lem :
    (low s r t : ℕ)
    → low < 2 ^ 32
    → r < 2 ^ 32
    → 0 < t
    → s ≤ t
    → t ≤ 2 ^ 30 + 1
    → bound (pos low) (pos s) (pos r) (pos t) ≡ ok (pos (low + part s r t))
unfolding bound
bound_lem low s r zero hl hr p st ht = absurd (omega arith)
bound_lem low s r (suc t) hl hr p st ht =
    let small : s * r ≤ (2 ^ 30 + 1) * 2 ^ 32 =
      mul-le-mul {n₂ = 2 ^ 30 + 1} {m₂ = 2 ^ 32} (omega arith) (omega arith) in
    let le = part_le s r (suc t) p st in
    rw
      (
        mul-pos s r,
        fits (s * r) (omega arith),
        div-pos (s * r) (suc t),
        fits (part s r (suc t)) (omega arith),
        add-pos low (part s r (suc t)),
        fits (low + part s r (suc t)) (omega arith),
      )
      refl

-- Doublings after doublings.
again {ℓ} :
    (F : ℕ → ℕ → ℕ → Type ℓ) (n x y r q : ℕ)
    → F (n + r + q) (x * 2 ^ r * 2 ^ q) (y * 2 ^ r * 2 ^ q)
    → F (n + (r + q)) (x * 2 ^ (r + q)) (y * 2 ^ (r + q))
again F n x y r q = rw (scale, double x, double y) (λ f. f)
  where
    scale : n + (r + q) ≡ n + r + q
    scale = omega arith

    double : (z : ℕ) → z * 2 ^ (r + q) ≡ z * 2 ^ r * 2 ^ q
    double z = ap (λ (p : ℕ). z * p) (pow_sum r q) ∙ omega arith

module _ (e : ArithmeticEncoder) (n lo hi : ℕ) (ready : IsReady e n lo hi) (t a b : ℕ)
    (symbol : IsSymbol t a b) where
  abbrev s : Spans e n lo hi
  s = ready.apart.spans

  abbrev range : ℕ
  range = s.high - s.low

  -- The ends before the loops.
  abbrev narrowed : ArithmeticEncoder
  narrowed = record e {
    m_low = pos (s.low + part a range t);
    m_high = pos (s.low + part b range t - 1);
  }

  total_pos : 0 < t
  total_pos = omega (arith, symbol.some_part, symbol.within)

  nonempty : part a range t < part b range t
  nonempty =
      part_lt a b range t total_pos symbol.some_part (omega (arith, symbol.codable, ready.wide))

  inside : part b range t ≤ range
  inside = part_le b range t total_pos symbol.within

  Spans-narrowed : Spans narrowed n (lo + part a range t) (lo + part b range t)
  Spans-narrowed = record {
    bits = s.bits;
    low = s.low + part a range t;
    high = s.low + part b range t - 1;
    wrote = s.wrote;
    low_is = refl;
    high_is = refl;
    ordered = omega (arith, nonempty);
    bounded = omega (arith, inside, s.ordered, s.bounded);
    scale = s.scale;
    lo_is = omega (arith, s.lo_is);
    hi_is = omega (arith, s.lo_is, nonempty);
  }

  update-narrowed :
      (k : ℕ) → update k (pos t) (pos a) (pos b) e ≡ (shift_loop k narrowed >>= underflow_loop k)
  unfolding update
  update-narrowed k =
      let bounded = s.bounded in
      let la =
        bound_lem s.low a range t (omega (arith, s.ordered)) (omega arith) total_pos
          (omega (arith, symbol.some_part, symbol.within)) symbol.codable in
      let lb =
        bound_lem s.low b range t (omega (arith, s.ordered)) (omega arith) total_pos symbol.within
          symbol.codable in
      let small : ltb max_total t ≡ false = ground (arith, symbol.codable) in
      let top : s.low + part b range t < 2 ^ 33 = omega (arith, inside, s.ordered) in
      rw
        (
          s.low_is,
          s.high_is,
          sub-pos s.high s.low s.ordered,
          fits range (omega arith),
          small,
          la,
          lb,
          sub-pos (s.low + part b range t) 1 (omega (arith, nonempty)),
          fits (s.low + part b range t - 1) (omega arith),
        )
        refl

  update_within :
      n + 66 < 2 ^ 31
      → (r : ℕ) × (e' : ArithmeticEncoder) × (update 33 (pos t) (pos a) (pos b) e ≡ ok e')
        × IsReady e' (n + r) ((lo + part a range t) * 2 ^ r) ((lo + part b range t) * 2 ^ r)
        × (r ≤ 66)
  update_within room =
      let x = lo + part a range t in
      let y = lo + part b range t in
      let (r, e1, run, a1, few) =
        shift_loop_lem 33 narrowed n x y Spans-narrowed (omega (arith, nonempty)) (omega arith) in
      let (q, e2, run', ready', few') =
        underflow_loop_lem 33 e1 (n + r) (x * 2 ^ r) (y * 2 ^ r) a1
          (omega (arith, a1.spans.lo_is, a1.spans.hi_is, a1.spans.ordered)) (omega arith) in
      (
        r + q,
        e2,
        update-narrowed 33 ∙ rw run run',
        again (IsReady e2) n x y r q ready',
        omega arith,
      )

  -- For an encoder between two symbols, whose interval within the whole message is from `lo` up
  -- to `hi` in units of which 2 ^ (n + 32) make 1, and for a symbol with a part of a total of at
  -- most 2 ^ 30 + 1: where fewer than 2 ^ 31 - 66 bits stand for the interval, `update` ends,
  -- with 33 rounds for each loop, and does one step of exact arithmetic coding. The new interval
  -- is the symbol's part of the old one, for some `r` of at most 66, in units 2 ^ r times
  -- smaller; the encoder is again between two symbols.
  pub update_lem :
      n + 66 < 2 ^ 31
      → (r : ℕ) × (e' : ArithmeticEncoder) × (update 33 (pos t) (pos a) (pos b) e ≡ ok e')
        × IsReady e'
            (n + r)
            ((lo + part a (hi - lo - 1) t) * 2 ^ r)
            ((lo + part b (hi - lo - 1) t) * 2 ^ r)
        × (r ≤ 66)
  update_lem room =
      let same : hi - lo - 1 ≡ range = omega (arith, s.lo_is, s.hi_is) in
      rw same (update_within room)
