-- ===== src/Coder/Encoder/Offset.antt =====
-- Bits as numbers, and what the bits before the ends of an interval stand for.
use deep_space_detection.Base.{
  ℕ, zero, suc, ◌+◌, ◌-◌, ◌*◌, ◌^◌, ◌≡◌, ◌<◌, ◌∙◌, refl, inl, inr, ◌⊎◌, List, [], ◌∷◌, ◌++◌, arith,
  replicate,
}
use native.Mathlib.Nat.{pow-suc, pow-le-pow_right}

-- The number of which these are the bits behind those of `v`.
abbrev pub number_from : ℕ → List ℕ → ℕ
number_from v [] = v
number_from v (b ∷ bs) = number_from (2 * v + b) bs

pub number_from-append :
    (xs ys : List ℕ) (v : ℕ) → number_from v (xs ++ ys) ≡ number_from (number_from v xs) ys
number_from-append [] ys v = refl
number_from-append (x ∷ xs) ys v = number_from-append xs ys (2 * v + x)

pub pow_pos : (n : ℕ) → 0 < 2 ^ n
pow_pos n = omega (arith, pow-le-pow_right {n = 2} (omega arith) {i = 0} {j = n} (omega arith))

all_ones : (v c p : ℕ) → 0 < p → (2 * v + c) * p + c * (p - 1) ≡ v * (p * 2) + c * (p * 2 - 1)
all_ones v c zero h = absurd (omega arith)
all_ones v c (suc q) h =
    let d : suc q * 2 - 1 ≡ 2 * q + 1 = omega arith in
    let e : suc q - 1 ≡ q = omega arith in rw (d, e) (omega arith)

pub number_from-replicate :
    (n c v : ℕ) → number_from v (replicate n c) ≡ v * 2 ^ n + c * (2 ^ n - 1)
number_from-replicate zero c v = omega arith
number_from-replicate (suc n) c v =
    number_from-replicate n c (2 * v + c) ∙ rw (pow-suc 2 n) (all_ones v c (2 ^ n) (pow_pos n))

-- What the bits and the waiting bits say of the ends.
abbrev pub offset : ℕ → ℕ → ℕ
offset v u = v * 2 ^ u * 2 ^ 32 + (2 ^ u - 1) * 2 ^ 31

pub low_or_one : (b : ℕ) → b < 2 → (b ≡ 0) ⊎ (b ≡ 1)
low_or_one zero h = inl refl
low_or_one (suc zero) h = inr refl
low_or_one (suc (suc b)) h = absurd (omega arith)

-- A bit that leaves the ends goes into the offset.
pub offset-top :
    (v u b : ℕ)
    → b < 2
    → offset ((2 * v + b) * 2 ^ u + (1 - b) * (2 ^ u - 1)) 0 ≡ 2 * offset v u + b * 2 ^ 32
offset-top v u b h = elim (low_or_one b h) [
  | inl e ↦ rw e (omega (arith, pow_pos u))
  | inr e ↦ rw e (omega (arith, pow_pos u))
]

pub offset-middle : (v u : ℕ) → offset v (u + 1) ≡ 2 * offset v u + 2 ^ 31
offset-middle v u = rw (one_more, pow-suc 2 u) (omega (arith, pow_pos u))
  where
    one_more : u + 1 ≡ suc u
    one_more = omega arith
