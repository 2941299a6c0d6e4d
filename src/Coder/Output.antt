-- ===== src/Coder/Output.antt =====
-- `BitOutputStream`. A file is the list of its bytes; a `char` is its eight bits, so that
-- `m_currentbyte` is a number below 256.
pub mod Laws
use deep_space_detection.Base.{
  ℕ, zero, suc, ◌+◌, ◌-◌, ◌*◌, ◌/◌, ◌%◌, ◌^◌, List, [], ◌∷◌, ◌++◌, Bool, true, false, ◌==◌, ◌||◌,
  ◌&&◌, leb, if◌then◌else◌, bit_or, u8, u32, ◌<<<◌, ◌>>>◌,
}
use deep_space_detection.Coder.Exec.{Exec, ok, thrown, fault, unended, ◌>>=◌}

pub record BitOutputStream : Type 0 where
  pub m_currentbyte : ℕ
  pub m_numbitsfilled : ℕ
  pub file : List ℕ
  pub is_open : Bool

-- The constructor, on a file that has just been opened for writing.
abbrev pub open_output : BitOutputStream
open_output = record { m_currentbyte = 0; m_numbitsfilled = 0; file = []; is_open = true }

-- A write to a closed file fails, and is not looked at.
abbrev pub put_byte : BitOutputStream → BitOutputStream
put_byte s = record s {
  file = if s.is_open then s.file ++ s.m_currentbyte ∷ [] else s.file;
  m_currentbyte = 0;
  m_numbitsfilled = 0;
}

abbrev pub put_full : BitOutputStream → BitOutputStream
put_full s = if s.m_numbitsfilled == 8 then put_byte s else s

unfoldable pub write : ℕ → BitOutputStream → Exec BitOutputStream
write b s =
    if b == 0 || b == 1
    then ok (
        put_full (record s {
          m_currentbyte = bit_or (u8 (s.m_currentbyte <<< 1)) b;
          m_numbitsfilled = s.m_numbitsfilled + 1;
        }))
    else thrown

-- `while (m_numbitsfilled != 0) write(0);` with fuel for its rounds.
unfoldable pub fill_up : ℕ → BitOutputStream → Exec BitOutputStream
fill_up zero s = if s.m_numbitsfilled == 0 then ok s else unended
fill_up (suc k) s = elim (s.m_numbitsfilled == 0) [ true ↦ ok s | false ↦ write 0 s >>= fill_up k ]

unfoldable pub close : ℕ → BitOutputStream → Exec BitOutputStream
close k s = do s ← fill_up k s; ok (record s { is_open = false })
