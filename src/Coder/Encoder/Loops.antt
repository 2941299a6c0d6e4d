-- ===== src/Coder/Encoder/Loops.antt =====
-- The two loops of `ArithmeticCoderBase::update`.
use deep_space_detection.Base.{
  ℕ, zero, suc, ◌+◌, ◌-◌, ◌*◌, ◌^◌, ◌≡◌, ◌<◌, ◌≤◌, refl, Bool-cases, inl, inr, arith,
}
use native.Mathlib.Nat.{pow-suc}
use deep_space_detection.Coder.Exec.{ok}
use deep_space_detection.Coder.Encoder.{
  ArithmeticEncoder, same_top, near_middle, widen_top, widen_middle, shift_loop, underflow_loop,
}
use deep_space_detection.Coder.Encoder.Bits.{
  same_top-true, same_top-false, near_middle-true, near_middle-false,
}
use deep_space_detection.Coder.Encoder.Spans.{Spans, IsApart, Spans-shift, Spans-underflow}

-- Doublings, one after `r` others.
pow_twice : (a r : ℕ) → 2 * a * 2 ^ r ≡ a * 2 ^ suc r
pow_twice a r = rw (pow-suc 2 r) (omega arith)

module _ {ℓ} (F : ℕ → ℕ → ℕ → Type ℓ) (n lo hi : ℕ) where
  -- What holds of an interval after one more doubling, and after none.
  after_more :
      (r : ℕ)
      → F (n + 1 + r) (2 * lo * 2 ^ r) (2 * hi * 2 ^ r)
      → F (n + suc r) (lo * 2 ^ suc r) (hi * 2 ^ suc r)
  after_more r = rw (← pow_twice lo r, ← pow_twice hi r, shifted) (λ s. s)
    where
      shifted : n + suc r ≡ n + 1 + r
      shifted = omega arith

  after_none : F n lo hi → F (n + 0) (lo * 2 ^ 0) (hi * 2 ^ 0)
  after_none s =
      let a : n + 0 ≡ n = omega arith in
      let b : lo * 2 ^ 0 ≡ lo = omega arith in
      let c : hi * 2 ^ 0 ≡ hi = omega arith in rw (a, b, c) s

-- Between two symbols the ends differ in the highest bit, and are far apart.
pub record IsReady (e : ArithmeticEncoder) (n lo hi : ℕ) : Type 0 where
  pub apart : IsApart e n lo hi
  pub wide : 2 ^ 30 + 1 ≤ apart.spans.high - apart.spans.low

-- The interval is doubled until its ends differ in the highest bit. `k` rounds are enough where
-- `k` doublings would make it longer than 2 ^ 32.
pub shift_loop_lem :
    (k : ℕ) (e : ArithmeticEncoder) (n lo hi : ℕ)
    → Spans e n lo hi
    → lo * 2 ^ k + 2 ^ 32 < hi * 2 ^ k
    → n + k < 2 ^ 31
    → (r : ℕ) × (e' : ArithmeticEncoder) × (shift_loop k e ≡ ok e')
      × IsApart e' (n + r) (lo * 2 ^ r) (hi * 2 ^ r)
      × (r ≤ k)
unfolding shift_loop
shift_loop_lem zero e n lo hi s fuel room = absurd (omega (arith, s.lo_is, s.hi_is, s.bounded))
shift_loop_lem (suc k) e n lo hi s fuel room = elim (Bool-cases (same_top e)) [
  | inl t ↦
      let (e1, run, s1) =
        Spans-shift e n lo hi s (omega arith)
          (same_top-true e s.low s.high s.low_is s.high_is s.ordered s.bounded t) in
      let fuel' : 2 * lo * 2 ^ k + 2 ^ 32 < 2 * hi * 2 ^ k =
        rw (pow_twice lo k, pow_twice hi k) fuel in
      let (r, e', run', s', few) =
        shift_loop_lem k (widen_top e1) (n + 1) (2 * lo) (2 * hi) s1 fuel' (omega arith) in
      (suc r, e', rw (t, shift_loop, run) run', after_more (IsApart e') n lo hi r s', omega arith)
  | inr f ↦
      let (below, above) = same_top-false e s.low s.high s.low_is s.high_is s.ordered s.bounded f in
      (
        0,
        e,
        rw (f, shift_loop) refl,
        after_none (IsApart e) n lo hi record { spans = s; below = below; above = above },
        omega arith,
      )
]

-- Then until they are far apart.
pub underflow_loop_lem :
    (k : ℕ) (e : ArithmeticEncoder) (n lo hi : ℕ)
    → IsApart e n lo hi
    → lo * 2 ^ k + 2 ^ 32 < hi * 2 ^ k
    → n + k < 2 ^ 31
    → (r : ℕ) × (e' : ArithmeticEncoder) × (underflow_loop k e ≡ ok e')
      × IsReady e' (n + r) (lo * 2 ^ r) (hi * 2 ^ r)
      × (r ≤ k)
unfolding underflow_loop
underflow_loop_lem zero e n lo hi a fuel room =
    let s = a.spans in absurd (omega (arith, s.lo_is, s.hi_is, s.bounded))
underflow_loop_lem (suc k) e n lo hi a fuel room =
    let s = a.spans in
    elim (Bool-cases (near_middle e)) [
      | inl t ↦
          let (far, near) =
            near_middle-true e s.low s.high s.low_is s.high_is s.ordered s.bounded a.below t in
          let (e1, run, a1) = Spans-underflow e n lo hi s (omega arith) far a.below a.above near in
          let fuel' : 2 * lo * 2 ^ k + 2 ^ 32 < 2 * hi * 2 ^ k =
            rw (pow_twice lo k, pow_twice hi k) fuel in
          let (r, e', run', s', few) =
            underflow_loop_lem k (widen_middle e1) (n + 1) (2 * lo) (2 * hi) a1 fuel'
              (omega arith) in
          (
            suc r,
            e',
            rw (t, underflow_loop, run) run',
            after_more (IsReady e') n lo hi r s',
            omega arith,
          )
      | inr f ↦ (
        0,
        e,
        rw (f, underflow_loop) refl,
        after_none (IsReady e) n lo hi record {
          apart = a;
          wide =
              near_middle-false e s.low s.high s.low_is s.high_is s.ordered s.bounded a.below
                a.above f;
        },
        omega arith,
      )
    ]
