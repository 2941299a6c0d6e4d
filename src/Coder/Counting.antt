-- ===== src/Coder/Counting.antt =====
-- `CountingBitOutputStream`.
pub mod Laws
use deep_space_detection.Base.{ℕ, ◌+◌, ◌-◌, ◌%◌, ◌^◌, leb, if◌then◌else◌}
use deep_space_detection.Coder.Exec.{Exec, ok, fault, ◌>>=◌}
use deep_space_detection.Coder.Output
use deep_space_detection.Coder.Output.{BitOutputStream, open_output}

pub record CountingBitOutputStream : Type 0 where
  pub m_num_bits : ℕ
  pub m_bit_out : BitOutputStream

abbrev pub open_counting : CountingBitOutputStream
open_counting = record { m_num_bits = 0; m_bit_out = open_output }

-- An `int` that has grown: past its range the behaviour is undefined.
abbrev pub count_to : ℕ → Exec ℕ
count_to n = if leb n (2 ^ 31 - 1) then ok n else fault

unfoldable pub write : ℕ → CountingBitOutputStream → Exec CountingBitOutputStream
write b s = do
  n ← count_to (s.m_num_bits + 1)
  out ← Output.write b s.m_bit_out
  ok (record { m_num_bits = n; m_bit_out = out })

-- The fuel is for the loop of the stream below.
unfoldable pub close : ℕ → CountingBitOutputStream → Exec CountingBitOutputStream
close k s = do
  n ← count_to (s.m_num_bits + (8 - s.m_num_bits % 8) % 8)
  out ← Output.close k s.m_bit_out
  ok (record { m_num_bits = n; m_bit_out = out })
