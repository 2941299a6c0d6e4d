-- ===== src/Coder/Message/Bounds.antt =====
-- The state of the encoder between the symbols of a message.
use deep_space_detection.Base.{
  ℕ, ◌+◌, ◌-◌, ◌*◌, ◌^◌, ◌≡◌, ◌<◌, ◌≤◌, refl, List, [], ◌∷◌, arith, length,
}
use deep_space_detection.Base.Signed.{pos}
use deep_space_detection.Coder.Exec.{ok}
use deep_space_detection.Coder.Counting.{open_counting}
use deep_space_detection.Coder.Encoder.{ArithmeticEncoder, start}
use deep_space_detection.Coder.Encoder.Loops.{IsReady}
use deep_space_detection.Coder.Encoder.Update.{update_lem}
use deep_space_detection.Coder.Message.{Symbol, encode}
use deep_space_detection.Coder.Message.Laws.{AreSymbols, IsReady-start, end_at}

encode_lem :
    (xs : List Symbol) (e : ArithmeticEncoder) (n lo hi : ℕ)
    → AreSymbols xs
    → IsReady e n lo hi
    → n + 66 * length xs + 10 < 2 ^ 31
    → (e' : ArithmeticEncoder) × (n' : ℕ) × (lo' : ℕ) × (hi' : ℕ) × (encode xs e ≡ ok e')
      × IsReady e' n' lo' hi'
      × (n' ≤ n + 66 * length xs)
unfolding encode
encode_lem [] e n lo hi symbols ready room = (e, n, lo, hi, refl, ready, omega arith)
encode_lem (x ∷ xs) e n lo hi symbols ready room =
    let (r, e1, run, ready1, few) =
      update_lem e n lo hi ready x.total x.symlow x.symhigh symbols.0 (omega arith) in
    let (e', n', lo', hi', run', ready', more) =
      encode_lem xs e1 (n + r) (end_at lo hi x.symlow x.total * 2 ^ r)
        (end_at lo hi x.symhigh x.total * 2 ^ r) symbols.1 ready1 (omega arith) in
    (e', n', lo', hi', rw run run', ready', omega arith)

-- After fewer than 2 ^ 24 symbols, each with a part of a total of at most 2 ^ 30 + 1, no
-- operation has overflowed; `m_low` is below 2 ^ 31, `m_high` from 2 ^ 31 up to 2 ^ 32, they are
-- at least 2 ^ 30 + 1 apart, and at most 66 bits for each symbol are written or waiting.
pub encode-bounds :
    (xs : List Symbol)
    → AreSymbols xs
    → length xs < 2 ^ 24
    → (e : ArithmeticEncoder) × (low : ℕ) × (high : ℕ) × (encode xs (start open_counting) ≡ ok e)
      × (e.m_low ≡ pos low)
      × (e.m_high ≡ pos high)
      × (low < 2 ^ 31)
      × (2 ^ 31 ≤ high)
      × (high < 2 ^ 32)
      × (2 ^ 30 + 1 ≤ high - low)
      × (e.m_c_bit_out.m_num_bits + e.m_num_underflow ≤ 66 * length xs)
encode-bounds xs symbols short =
    let (e, n, lo, hi, run, ready, few) =
      encode_lem xs (start open_counting) 0 0 (2 ^ 32) symbols IsReady-start (omega arith) in
    let a = ready.apart in
    let s = a.spans in
    (
      e,
      s.low,
      s.high,
      run,
      s.low_is,
      s.high_is,
      a.below,
      a.above,
      s.bounded,
      ready.wide,
      omega (arith, s.scale, s.wrote.counted),
    )
