-- ===== src/Coder/Input.antt =====
-- `BitInputStream`.
pub mod Laws
pub mod Signs
use deep_space_detection.Base.{
  ℕ, ◌+◌, ◌-◌, ◌%◌, ◌^◌, List, [], ◌∷◌, Bool, true, false, ◌==◌, ◌&&◌, leb, if◌then◌else◌, Option,
  some, none, ◌>>>◌,
}
use deep_space_detection.Coder.Exec.{Exec, ok, thrown, fault, ◌>>=◌}

-- `m_currentbyte` is an `int`, as its 32 bits. `unread` is what the file still holds, and `eof`
-- its flag, which a read past the end sets.
pub record BitInputStream : Type 0 where
  pub m_currentbyte : ℕ
  pub m_numbitsremaining : ℕ
  pub unread : List ℕ
  pub eof : Bool

abbrev pub open_input : List ℕ → BitInputStream
open_input file = record { m_currentbyte = 0; m_numbitsremaining = 0; unread = file; eof = false }

abbrev pub minus_one : ℕ
minus_one = 2 ^ 32 - 1

-- `(int)temp`, which depends on whether `char` is signed.
abbrev pub int_of_char : Bool → ℕ → ℕ
int_of_char char_signed c = if char_signed && leb 128 c then c + (2 ^ 32 - 256) else c

-- The result: a bit, or `none` for -1.
abbrev pub next_bit : BitInputStream → Exec (Option ℕ × BitInputStream)
next_bit s =
    let remaining = s.m_numbitsremaining - 1 in
    ok (some ((s.m_currentbyte >>> remaining) % 2), record s { m_numbitsremaining = remaining })

-- `m_bit_in.read(&temp, 1)`: past the end, `temp` is used without a value.
abbrev pub fetch : Bool → BitInputStream → List ℕ → Exec BitInputStream
fetch char_signed s [] = fault
fetch char_signed s (c ∷ cs) =
    ok (record s { m_currentbyte = int_of_char char_signed c; m_numbitsremaining = 8; unread = cs })

unfoldable pub read : Bool → BitInputStream → Exec (Option ℕ × BitInputStream)
read char_signed s =
    if s.m_currentbyte == minus_one
    then ok (none, s)
    else if s.m_numbitsremaining == 0
    then (if s.eof
        then ok (none, record s { m_currentbyte = minus_one })
        else (fetch char_signed s s.unread >>= next_bit))
    else next_bit s

abbrev pub bit_or_throw : Option ℕ × BitInputStream → Exec (ℕ × BitInputStream)
bit_or_throw (none, s) = thrown
bit_or_throw (some b, s) = ok (b, s)

unfoldable pub read_no_eof : Bool → BitInputStream → Exec (ℕ × BitInputStream)
read_no_eof char_signed s = read char_signed s >>= bit_or_throw

abbrev pub close : BitInputStream → BitInputStream
close s = record s { m_currentbyte = minus_one; m_numbitsremaining = 0 }
