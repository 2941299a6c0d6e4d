-- ===== src/Coder/Input/Signs.antt =====
-- `BitInputStream` where `char` is signed: the byte 255 becomes -1.
use deep_space_detection.Base.{
  ℕ, ◌/◌, ◌%◌, ◌^◌, ◌≡◌, ◌<◌, ◌∙◌, ap, List, ◌∷◌, true, false, ◌==◌, if◌then◌else◌, some, none,
  arith,
}
use deep_space_detection.Coder.Exec.{ok, ◌>>=◌}
use deep_space_detection.Coder.Input.{BitInputStream, open_input, int_of_char, read}

-- Just after the bit `r` of the byte `c`.
abbrev pub behind : ℕ → ℕ → List ℕ → BitInputStream
behind c r rest = record {
  m_currentbyte = int_of_char true c;
  m_numbitsremaining = r;
  unread = rest;
  eof = false;
}

first :
    (c : ℕ) (rest : List ℕ)
    → c < 256
    → read true (open_input (c ∷ rest)) ≡ ok (some (c / 2 ^ 7 % 2), behind c 7 rest)
unfolding read
first c rest h = ground arith

second :
    (c : ℕ) (rest : List ℕ)
    → c < 256
    → read true (behind c 7 rest) ≡ (
        if c == 255 then ok (none, behind c 7 rest) else ok (some (c / 2 ^ 6 % 2), behind c 6 rest))
unfolding read
second c rest h = ground arith

-- Where `char` is signed, a first byte of 255 ends the input after its first bit, although the
-- file goes on; any other first byte gives its second bit.
pub read-read_signed :
    (c : ℕ) (rest : List ℕ)
    → c < 256
    → (read true (open_input (c ∷ rest)) >>= λ (b, s). read true s) ≡ (
        if c == 255 then ok (none, behind c 7 rest) else ok (some (c / 2 ^ 6 % 2), behind c 6 rest))
read-read_signed c rest h = ap (λ m. m >>= λ (b, s). read true s) (first c rest h) ∙ second c rest h
