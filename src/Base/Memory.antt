-- ===== src/Base/Memory.antt =====
-- Code that may run into undefined behaviour, and bounded byte buffers.
use Prim.Native.Nat.{ℕ, zero, suc, ◌+◌, ◌≤◌, ◌<◌}
use mathlib.Core.Logic.{◌⊎◌, inl, inr}
use mathlib.Core.Path.{◌≡◌, refl, ap, sym, ◌∙◌}
use mathlib.Core.List.{List, [], ◌∷◌, ◌++◌, append_assoc}
use mathlib.Core.Bool.{Bool, true, false}
use native.Mathlib.Omega.{arith}
use deep_space_detection.Base.Tests.{leb, if◌then◌else◌}
use deep_space_detection.Base.Lists.{
  length, take, drop, length-append, length-drop, length-take, take-append_self, drop-append_self,
}

-- `fault` is undefined behaviour: an access out of bounds or through a null pointer, or the use
-- of an object that was never given a value.
pub data Run {ℓ} (A : Type ℓ) : Type ℓ where
  ok : A → Run A
  fault : Run A

infixl 5 ◌>>=◌ ◌>>◌
abbrev pub ◌>>=◌ {ℓ κ} : {A : Type ℓ} {B : Type κ} → Run A → (A → Run B) → Run B
ok a >>= f = f a
fault >>= f = fault

abbrev pub ◌>>◌ {ℓ} : {B : Type ℓ} → Run (Unit {0}) → Run B → Run B
m >> k = m >>= λ _. k

-- The `n` bytes from offset `off` on, as `memcpy` reads them.
unfoldable pub load : List ℕ → ℕ → ℕ → Run (List ℕ)
load buf off n = if leb (off + n) (length buf) then ok (take n (drop off buf)) else fault

-- `memcpy(buf + off, src, length src)`.
unfoldable pub store : List ℕ → ℕ → List ℕ → Run (List ℕ)
store buf off src =
    if leb (off + length src) (length buf)
    then ok (take off buf ++ (src ++ drop (off + length src) buf))
    else fault

le→leb : (a b : ℕ) → a ≤ b → leb a b ≡ true
le→leb a b h = ground arith

pub drop-drop : (m n : ℕ) (xs : List ℕ) → drop m (drop n xs) ≡ drop (n + m) xs
drop-drop m zero xs = ap (λ k. drop k xs) (omega arith)
drop-drop zero (suc n) [] = rw eq
  where
    eq : suc n + 0 ≡ suc (n + 0)
    eq = omega arith
drop-drop (suc m) (suc n) [] = rw eq
  where
    eq : suc n + suc m ≡ suc (n + suc m)
    eq = omega arith
drop-drop m (suc n) (x ∷ xs) = rw eq (drop-drop m n xs)
  where
    eq : suc n + m ≡ suc (n + m)
    eq = omega arith

-- A part of a buffer, between what stands before and behind it.
pub load_part :
    (xs ys zs buf : List ℕ) (p n : ℕ)
    → buf ≡ xs ++ (ys ++ zs)
    → p ≡ length xs
    → n ≡ length ys
    → load buf p n ≡ ok ys
unfolding load
load_part xs ys zs buf p n e ep en =
    rw
      (
        e,
        ep,
        en,
        le→leb (length xs + length ys) (length (xs ++ (ys ++ zs)))
            (omega (arith, length-append xs (ys ++ zs), length-append ys zs)),
        drop-append_self xs (ys ++ zs),
      )
      (ap ok (take-append_self ys zs))

-- Filling a buffer from the front: `xs` is written, and `src` follows.
pub store_next :
    (xs src buf : List ℕ) (p q : ℕ)
    → p ≡ length xs
    → q ≡ p + length src
    → q ≤ length buf
    → store (xs ++ drop p buf) p src ≡ ok ((xs ++ src) ++ drop q buf)
unfolding store
store_next xs src buf p q ep eq h =
    rw (fits, front, back) (ap ok (sym (append_assoc xs src (drop q buf))))
  where
    fits : leb (p + length src) (length (xs ++ drop p buf)) ≡ true
    fits = le→leb _ _ (omega (arith, length-append xs (drop p buf), length-drop p buf))

    front : take p (xs ++ drop p buf) ≡ xs
    front = ap (λ k. take k (xs ++ drop p buf)) ep ∙ take-append_self xs (drop p buf)

    back : drop (p + length src) (xs ++ drop p buf) ≡ drop q buf
    back =
        sym (drop-drop (length src) p (xs ++ drop p buf))
        ∙ ap (drop (length src))
            (ap (λ k. drop k (xs ++ drop p buf)) ep ∙ drop-append_self xs (drop p buf))
        ∙ drop-drop (length src) p buf
        ∙ ap (λ k. drop k buf) (sym eq)

pub Run-cases {ℓ} : {A : Type ℓ} (r : Run A) → (r ≡ fault) ⊎ ((a : A) × (r ≡ ok a))
Run-cases fault = inl refl
Run-cases (ok a) = inr (a, refl)

pub length-load : (buf : List ℕ) (p n : ℕ) (d : List ℕ) → load buf p n ≡ ok d → length d ≡ n
unfolding load
length-load buf p n d e = ground (arith, length-take n (drop p buf), length-drop p buf)

pub store_outside :
    (buf : List ℕ) (p : ℕ) (src : List ℕ) → length buf < p + length src → store buf p src ≡ fault
unfolding store
store_outside buf p src h = ground arith

pub >>=_assoc {ℓ κ μ} :
    {A : Type ℓ} {B : Type κ} {C : Type μ} (m : Run A) (f : A → Run B) (g : B → Run C)
    → ((m >>= f) >>= g) ≡ (m >>= λ a. f a >>= g)
>>=_assoc (ok a) f g = refl
>>=_assoc fault f g = refl

-- A postcondition of the code that runs through.
module _ {ℓ κ} {A : Type ℓ} where
  abbrev pub Post : (A → Type κ) → Run A → Type κ
  Post P (ok a) = P a
  Post P fault = Unit

  pub Post-bind {μ} :
      {B : Type μ} (P : A → Type κ) (m : Run B) (k : B → Run A)
      → ((b : B) → Post P (k b))
      → Post P (m >>= k)
  Post-bind P (ok b) k h = h b
  Post-bind P fault k h = tt

  pub Post-if :
      (P : A → Type κ) (b : Bool) (m n : Run A) → Post P m → Post P n → Post P (if b then m else n)
  Post-if P true m n h k = h
  Post-if P false m n h k = k

  pub Post-mono : (P Q : A → Type κ) (m : Run A) → ((a : A) → P a → Q a) → Post P m → Post Q m
  Post-mono P Q (ok a) w h = w a h
  Post-mono P Q fault w h = tt

-- The rule for a chain of steps.
pub Post-then {ℓ κ μ ν} :
    {A : Type ℓ} {B : Type κ} (P : A → Type μ) (Q : B → Type ν) (m : Run A) (k : A → Run B)
    → Post P m
    → ((a : A) → P a → Post Q (k a))
    → Post Q (m >>= k)
Post-then P Q (ok a) k p h = h a p
Post-then P Q fault k p h = tt
