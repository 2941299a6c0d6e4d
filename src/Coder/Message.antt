-- ===== src/Coder/Message.antt =====
-- Messages of several symbols: `write` for each, then `finish` and `close`, as `coding` does for one.
pub mod Laws
pub mod Bounds
pub mod Unique
use deep_space_detection.Base.{ℕ, List, [], ◌∷◌}
use deep_space_detection.Base.Signed.{ℤ, pos}
use deep_space_detection.Coder.Exec.{Exec, ok, ◌>>=◌}
use deep_space_detection.Coder.Counting
use deep_space_detection.Coder.Counting.{CountingBitOutputStream}
use deep_space_detection.Coder.Encoder
use deep_space_detection.Coder.Encoder.{ArithmeticEncoder, finish}

-- The arguments of a `write`.
pub record Symbol : Type 0 where
  pub total : ℕ
  pub symlow : ℕ
  pub symhigh : ℕ

unfoldable pub send : List Symbol → ArithmeticEncoder → Exec CountingBitOutputStream
send [] e = finish e >>= λ e. Counting.close 7 e.m_c_bit_out
send (x ∷ xs) e = Encoder.write 33 (pos x.total) (pos x.symlow) (pos x.symhigh) e >>= send xs

-- The writes alone.
unfoldable pub encode : List Symbol → ArithmeticEncoder → Exec ArithmeticEncoder
encode [] e = ok e
encode (x ∷ xs) e = Encoder.write 33 (pos x.total) (pos x.symlow) (pos x.symhigh) e >>= encode xs
