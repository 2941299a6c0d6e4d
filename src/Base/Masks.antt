-- ===== src/Base/Masks.antt =====
-- Single bits of the results of `^`, `&` and `|`.
use Prim.Native.Nat.{ℕ, zero, suc, ◌+◌, ◌*◌, ◌/◌, ◌%◌, ◌^◌, ◌≤◌, min, bit_and, bit_or, bit_xor}
use mathlib.Core.Path.{◌≡◌, ap, sym, ◌∙◌}
use native.Mathlib.Nat.{pow-suc, pow-succ', div-div-eq-div-mul}
use native.Mathlib.Omega.{arith}
use deep_space_detection.Base.Bits.{
  bit_and_step, bit_or_step, bit_and_mask, bit_xor-half, bit_xor-parity, zero-bit_or,
  bit_or-zero_below, mul-pow-suc,
}

-- The digit `k` places up is that of the half.
pub half-shift : (a k : ℕ) → a / 2 / 2 ^ k ≡ a / 2 ^ suc k
half-shift a k = div-div-eq-div-mul a 2 (2 ^ k) ∙ ap (λ (t : ℕ). a / t) (sym (pow-succ' 2 k))

pub bit_and-half : (a b : ℕ) → bit_and a b / 2 ≡ bit_and (a / 2) (b / 2)
bit_and-half a b = omega (arith, bit_and_step a b)

pub bit_and-parity : (a b : ℕ) → bit_and a b % 2 ≡ min (a % 2) (b % 2)
bit_and-parity a b = omega (arith, bit_and_step a b)

pub bit_xor-digit : (k a b : ℕ) → bit_xor a b / 2 ^ k % 2 ≡ (a / 2 ^ k % 2 + b / 2 ^ k % 2) % 2
bit_xor-digit zero a b = omega (arith, bit_xor-parity a b)
bit_xor-digit (suc k) a b =
    rw (← half-shift (bit_xor a b) k, ← half-shift a k, ← half-shift b k, bit_xor-half a b)
      (bit_xor-digit k (a / 2) (b / 2))

pub bit_and-digit : (k a b : ℕ) → bit_and a b / 2 ^ k % 2 ≡ min (a / 2 ^ k % 2) (b / 2 ^ k % 2)
bit_and-digit zero a b = omega (arith, bit_and-parity a b)
bit_and-digit (suc k) a b =
    rw (← half-shift (bit_and a b) k, ← half-shift a k, ← half-shift b k, bit_and-half a b)
      (bit_and-digit k (a / 2) (b / 2))

-- A mask of one bit.
pub bit_and-pow : (k a : ℕ) → bit_and a (2 ^ k) ≡ a / 2 ^ k % 2 * 2 ^ k
bit_and-pow zero a = omega (arith, bit_and_mask 1 a)
bit_and-pow (suc k) a = omega (
  arith,
  bit_and_step a (2 ^ suc k),
  pow-suc 2 k,
  bit_and-pow k (a / 2),
  half-shift a k,
  mul-pow-suc (a / 2 ^ suc k % 2) k,
  ap (λ (t : ℕ). t % 2 * 2 ^ k) (half-shift a k),
  ap (λ (t : ℕ). bit_and (a / 2) t) half,
)
  where
    half : 2 ^ suc k / 2 ≡ 2 ^ k
    half = omega (arith, pow-suc 2 k)

bit_or_comm_below : (n a b : ℕ) → a ≤ n → bit_or a b ≡ bit_or b a
bit_or_comm_below n zero b h = zero-bit_or b ∙ sym (bit_or-zero_below b b (omega arith))
bit_or_comm_below zero (suc a) b h = absurd (omega arith)
bit_or_comm_below (suc n) (suc a) b h = omega (
  arith,
  bit_or_step (suc a) b,
  bit_or_step b (suc a),
  bit_or_comm_below n (suc a / 2) (b / 2) (omega arith),
)

pub bit_or_comm : (a b : ℕ) → bit_or a b ≡ bit_or b a
bit_or_comm a b = bit_or_comm_below a a b (omega arith)
