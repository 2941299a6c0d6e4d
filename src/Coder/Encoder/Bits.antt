-- ===== src/Coder/Encoder/Bits.antt =====
-- The tests and the assignments of the two loops of `ArithmeticCoderBase::update`, on ends of an
-- interval that fit into 32 bits.
use deep_space_detection.Base.{
  ℕ, ◌+◌, ◌-◌, ◌*◌, ◌/◌, ◌%◌, ◌^◌, ◌≡◌, ◌<◌, ◌≤◌, ◌∙◌, ap, true, false, ◌≢◌, u64, ◌<<<◌, bit_and,
  bit_or, bit_xor, arith,
}
use Prim.Native.Nat.{min}
use deep_space_detection.Base.Bits.{bit_and_mask, bit_or_low}
use deep_space_detection.Base.Masks.{bit_and-pow, bit_and-digit, bit_xor-digit, bit_or_comm}
use deep_space_detection.Base.Signed.{pos, pattern64}
use deep_space_detection.Coder.Encoder.{
  ArithmeticEncoder, same_top, near_middle, widen_top, widen_middle,
}

module _ (l h : ℕ) (hl : l < 2 ^ 32) (hh : h < 2 ^ 32) where
  top_digit :
      bit_and (bit_xor (pattern64 (pos l)) (pattern64 (pos h))) (2 ^ 31)
      ≡ (l / 2 ^ 31 + h / 2 ^ 31) % 2 * 2 ^ 31
  top_digit =
      let el : pattern64 (pos l) ≡ l = omega arith in
      let eh : pattern64 (pos h) ≡ h = omega arith in
      rw (el, eh) (omega (arith, bit_and-pow 31 (bit_xor l h), bit_xor-digit 31 l h))

  middle_digit :
      bit_and (bit_and (pattern64 (pos l)) (2 ^ 64 - 1 - pattern64 (pos h))) (2 ^ 30)
      ≡ min (l / 2 ^ 30 % 2) ((2 ^ 64 - 1 - h) / 2 ^ 30 % 2) * 2 ^ 30
  middle_digit =
      let el : pattern64 (pos l) ≡ l = omega arith in
      let eh : pattern64 (pos h) ≡ h = omega arith in
      let m = 2 ^ 64 - 1 - h in
      rw (el, eh) (bit_and-pow 30 (bit_and l m) ∙ ap (λ (t : ℕ). t * 2 ^ 30) (bit_and-digit 30 l m))

module _ (e : ArithmeticEncoder) (l h : ℕ) (el : e.m_low ≡ pos l) (eh : e.m_high ≡ pos h)
    (hl : l ≤ h) (hh : h < 2 ^ 32) where
  pub same_top-true : same_top e ≡ true → l / 2 ^ 31 ≡ h / 2 ^ 31
  same_top-true = rw (el, eh) (λ t. ground (arith, top_digit l h (omega arith) hh))

  pub same_top-false : same_top e ≡ false → (l < 2 ^ 31) × (2 ^ 31 ≤ h)
  same_top-false =
      rw (el, eh)
        (λ t.
          let d : (l / 2 ^ 31 + h / 2 ^ 31) % 2 ≢ 0 =
            λ z. ground (arith, top_digit l h (omega arith) hh) in
          (omega arith, omega arith))

  pub near_middle-true : l < 2 ^ 31 → near_middle e ≡ true → (2 ^ 30 ≤ l) × (h < 2 ^ 31 + 2 ^ 30)
  near_middle-true below =
      rw (el, eh)
        (λ t.
          let d : min (l / 2 ^ 30 % 2) ((2 ^ 64 - 1 - h) / 2 ^ 30 % 2) ≢ 0 =
            λ z. ground (arith, middle_digit l h (omega arith) hh) in
          (omega arith, omega arith))

  pub near_middle-false : l < 2 ^ 31 → 2 ^ 31 ≤ h → near_middle e ≡ false → 2 ^ 30 + 1 ≤ h - l
  near_middle-false below above =
      rw (el, eh) (λ t. ground (arith, middle_digit l h (omega arith) hh))

doubled :
    (k a : ℕ) → a < 2 ^ 32 → bit_and (u64 (pattern64 (pos a) <<< 1)) (2 ^ k - 1) ≡ 2 * a % 2 ^ k
doubled k a h =
    bit_and_mask k (u64 (pattern64 (pos a) <<< 1)) ∙ ap (λ (t : ℕ). t % 2 ^ k) (omega arith)

-- An odd number from an even one.
or_one : (a : ℕ) → a % 2 ≡ 0 → bit_or a 1 ≡ a + 1
or_one a even =
    ap (λ (t : ℕ). bit_or t 1) (omega arith) ∙ bit_or_low 1 (a / 2) 1 (omega arith) ∙ omega arith

or_top : (a : ℕ) → a < 2 ^ 31 → bit_or a (2 ^ 31) ≡ 2 ^ 31 + a
or_top a small = bit_or_comm a (2 ^ 31) ∙ bit_or_low 31 1 a small

module _ (e : ArithmeticEncoder) (l h : ℕ) (el : e.m_low ≡ pos l) (eh : e.m_high ≡ pos h)
    (hl : l < 2 ^ 32) (hh : h < 2 ^ 32) where
  pub low-widen_top : (widen_top e).m_low ≡ pos (2 * l % 2 ^ 32)
  unfolding widen_top
  low-widen_top = rw el (ap pos (doubled 32 l hl))

  pub high-widen_top : (widen_top e).m_high ≡ pos (2 * h % 2 ^ 32 + 1)
  unfolding widen_top
  high-widen_top = rw eh (
      ap pos (ap (λ (t : ℕ). bit_or t 1) (doubled 32 h hh) ∙ or_one (2 * h % 2 ^ 32) (omega arith)))

  pub low-widen_middle : (widen_middle e).m_low ≡ pos (2 * l % 2 ^ 31)
  unfolding widen_middle
  low-widen_middle = rw el (ap pos (doubled 31 l hl))

  pub high-widen_middle : (widen_middle e).m_high ≡ pos (2 ^ 31 + 2 * h % 2 ^ 31 + 1)
  unfolding widen_middle
  high-widen_middle = rw eh (
      ap pos (
        ap (λ (t : ℕ). bit_or (bit_or t (2 ^ 31)) 1) (doubled 31 h hh)
        ∙ ap (λ (t : ℕ). bit_or t 1) (or_top (2 * h % 2 ^ 31) (omega arith))
        ∙ or_one (2 ^ 31 + 2 * h % 2 ^ 31) (omega arith)))
