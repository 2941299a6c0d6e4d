-- ===== src/Coder/Input/Laws.antt =====
-- Reading back what a bit stream has written.
use deep_space_detection.Base.{
  ℕ, zero, suc, ◌+◌, ◌-◌, ◌*◌, ◌/◌, ◌%◌, ◌^◌, ◌≡◌, ◌<◌, ◌∙◌, refl, ap, sym, List, [], ◌∷◌, ◌++◌,
  Bool, false, ◌==◌, arith, length, IsBytes,
}
use native.Mathlib.Nat.{pow-succ', div-div-eq-div-mul}
use deep_space_detection.Coder.Exec.{Exec, ok, ◌>>=◌}
use deep_space_detection.Coder.Output.Laws.{digits, bits_of}
use deep_space_detection.Coder.Input.{BitInputStream, open_input, minus_one, read, read_no_eof}

-- `n` bits, one after the other.
pub read_all : Bool → ℕ → BitInputStream → Exec (List ℕ × BitInputStream)
read_all char_signed zero s = ok ([], s)
read_all char_signed (suc n) s = do
  (b, s) ← read_no_eof char_signed s
  (bs, s) ← read_all char_signed n s
  ok (b ∷ bs, s)

digits_first : (w v : ℕ) → digits (suc w) v ≡ (v / 2 ^ w % 2) ∷ digits w v
digits_first zero v = ap (λ (t : ℕ). t ∷ []) (omega arith)
digits_first (suc w) v =
    let e : v / 2 / 2 ^ w ≡ v / 2 ^ suc w =
      div-div-eq-div-mul v 2 (2 ^ w) ∙ ap (λ (t : ℕ). v / t) (sym (pow-succ' 2 w)) in
    ap (λ l. l ++ (v % 2) ∷ []) (digits_first w (v / 2))
    ∙ ap (λ (t : ℕ). (t % 2) ∷ digits (suc w) v) e

-- A stream in the middle of the byte `c`.
abbrev reading : ℕ → ℕ → List ℕ → BitInputStream
reading c r rest = record { m_currentbyte = c; m_numbitsremaining = r; unread = rest; eof = false }

read_inside :
    (c r : ℕ) (rest : List ℕ)
    → c < 256
    → read_no_eof false (reading c (suc r) rest) ≡ ok (c / 2 ^ r % 2, reading c r rest)
unfolding read_no_eof read
read_inside c r rest h =
    let live : (c == minus_one) ≡ false = ground arith in
    let left : (suc r == 0) ≡ false = ground arith in
    let one : suc r - 1 ≡ r = omega arith in rw (live, left, one) refl

read_next :
    (c c' : ℕ) (rest : List ℕ)
    → c < 256
    → read_no_eof false (reading c 0 (c' ∷ rest)) ≡ ok (c' / 2 ^ 7 % 2, reading c' 7 rest)
unfolding read_no_eof read
read_next c c' rest h = ground arith

read_all_lem :
    (n c r : ℕ) (rest : List ℕ)
    → n ≡ r + 8 * length rest
    → c < 256
    → IsBytes rest
    → (s : BitInputStream) × (read_all false n (reading c r rest)
        ≡ ok (digits r c ++ bits_of rest, s))
unfolding read_all
read_all_lem zero c zero [] e h all = (reading c 0 [], refl)
read_all_lem zero c zero (c' ∷ rest) e h all = absurd (omega arith)
read_all_lem zero c (suc r) rest e h all = absurd (omega arith)
read_all_lem (suc n) c zero [] e h all = absurd (omega arith)
read_all_lem (suc n) c zero (c' ∷ rest) e h all =
    let (s, more) = read_all_lem n c' 7 rest (omega arith) (omega (arith, all.0)) all.1 in
    (
      s,
      rw (read_next c c' rest h, more)
          (ap (λ l. ok (l ++ bits_of rest, s)) (sym (digits_first 7 c'))),
    )
read_all_lem (suc n) c (suc r) rest e h all =
    let (s, more) = read_all_lem n c r rest (omega arith) h all in
    (
      s,
      rw (read_inside c r rest h, more)
          (ap (λ l. ok (l ++ bits_of rest, s)) (sym (digits_first r c))),
    )

-- Reading.
pub read_all-open_input :
    (file : List ℕ)
    → IsBytes file
    → (s : BitInputStream) × (read_all false (8 * length file) (open_input file)
        ≡ ok (bits_of file, s))
read_all-open_input file all =
    read_all_lem (8 * length file) 0 0 file (omega arith) (omega arith) all
