-- ===== src/Coder/Exec.antt =====
-- The outcomes of the coder's C++ code.
use deep_space_detection.Base.{ltb, if◌then◌else◌, ◌^◌}
use deep_space_detection.Base.Signed.{ℤ, pos, negsuc}

-- `thrown` is an exception, which nothing catches; `fault` is undefined behaviour; `unended` is a
-- loop that has not ended in the rounds that it was given.
pub data Exec {ℓ} (A : Type ℓ) : Type ℓ where
  ok : A → Exec A
  thrown fault unended : Exec A

infixl 5 ◌>>=◌
abbrev pub ◌>>=◌ {ℓ κ} : {A : Type ℓ} {B : Type κ} → Exec A → (A → Exec B) → Exec B
ok a >>= f = f a
thrown >>= f = thrown
fault >>= f = fault
unended >>= f = unended

-- The result of an operation on `long long`, if it fits.
abbrev pub long_long : ℤ → Exec ℤ
long_long (pos n) = if ltb n (2 ^ 63) then ok (pos n) else fault
long_long (negsuc n) = if ltb n (2 ^ 63) then ok (negsuc n) else fault
