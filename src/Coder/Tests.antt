-- ===== src/Coder/Tests.antt =====
-- Runs of the coder.
use deep_space_detection.Base.{
  map, ℕ, ◌+◌, ◌-◌, ◌*◌, ◌^◌, ◌≡◌, ◌<◌, ◌≤◌, refl, List, [], ◌∷◌, ◌++◌, true, false, none, ◌==◌,
  if◌then◌else◌, arith, replicate, IsBytes,
}
use deep_space_detection.Base.Signed.{pos, ◌+ℤ◌, ◌-ℤ◌, ◌*ℤ◌, ◌/ℤ◌}
use deep_space_detection.Coder.Exec.{fault, Exec, ok, ◌>>=◌}
use deep_space_detection.Coder.Output.Laws.{bits_of, padding}
use deep_space_detection.Coder.Output
use deep_space_detection.Coder.Counting
use deep_space_detection.Coder.Counting.{CountingBitOutputStream, open_counting}
use deep_space_detection.Coder.Input.{BitInputStream, open_input, read}
use deep_space_detection.Coder.Input.Laws.{read_all}
use deep_space_detection.Coder.Input.Signs.{behind, read-read_signed}
use deep_space_detection.Coder.Encoder.{
  too_large, ArithmeticEncoder, start, update, bound, shift_loop, underflow_loop, shift, underflow,
  widen_top, widen_middle, write_rest, finish,
}
use deep_space_detection.Coder.Encoder.Loops.{IsReady}
use deep_space_detection.Coder.Encoder.Update.{IsSymbol, part, update_lem}
use deep_space_detection.Coder.Encoder.Codeword.{Codes}
use deep_space_detection.Coder.Coding.{coding, coding_body, tally_loop, tally_step}
use deep_space_detection.Coder.Coding.Laws.{cumulative, coding_lem}
use deep_space_detection.Coder.Message.{Symbol, send, encode}
use deep_space_detection.Coder.Message.Laws.{IsReady-start}
use deep_space_detection.Coder.Message.Unique.{symbol, InTable, send_unique}
use deep_space_detection.Coder.Message.Bounds.{encode-bounds}
use deep_space_detection.Coder.RoundTrip.{write_all, read_all-write_all}

-- Two symbols of an alphabet of three.
abbrev second : Symbol
second = record { total = 10; symlow = 3; symhigh = 4 }

abbrev third : Symbol
third = record { total = 10; symlow = 4; symhigh = 10 }

IsSymbol-second : IsSymbol 10 3 4
IsSymbol-second = record { some_part = omega arith; within = omega arith; codable = omega arith }

IsSymbol-third : IsSymbol 10 4 10
IsSymbol-third = record { some_part = omega arith; within = omega arith; codable = omega arith }

update_lem_example :
    (r : ℕ) × (e : ArithmeticEncoder) × (update 33 (pos 10) (pos 3) (pos 4) (start open_counting)
      ≡ ok e)
    × IsReady e
        (0 + r)
        ((0 + part 3 (2 ^ 32 - 0 - 1) 10) * 2 ^ r)
        ((0 + part 4 (2 ^ 32 - 0 - 1) 10) * 2 ^ r)
    × (r ≤ 66)
update_lem_example =
    update_lem (start open_counting) 0 0 (2 ^ 32) IsReady-start 10 3 4 IsSymbol-second (omega arith)

encode-bounds_example :
    (e : ArithmeticEncoder) × (low : ℕ) × (high : ℕ) × (encode
        (second ∷ third ∷ [])
        (start open_counting)
      ≡ ok e)
    × (e.m_low ≡ pos low)
    × (e.m_high ≡ pos high)
    × (low < 2 ^ 31)
    × (2 ^ 31 ≤ high)
    × (high < 2 ^ 32)
    × (2 ^ 30 + 1 ≤ high - low)
    × (e.m_c_bit_out.m_num_bits + e.m_num_underflow ≤ 66 * 2)
encode-bounds_example =
    encode-bounds (second ∷ third ∷ []) (IsSymbol-second, (IsSymbol-third, tt)) (omega arith)

-- Eleven frequencies.
abbrev frequencies : ℕ → ℕ
frequencies i = if i == 0 then 700000 else if i == 1 then 250000 else if i == 2 then 1000 else 0

abbrev one_message : List ℕ
one_message = 0 ∷ 1 ∷ 2 ∷ []

abbrev other_message : List ℕ
other_message = 0 ∷ 2 ∷ 1 ∷ []

small : cumulative frequencies 11 ≤ 2 ^ 30 + 1
small = omega arith

in_zero : InTable frequencies 11 small 0
in_zero = (omega arith, omega arith)

in_one : InTable frequencies 11 small 1
in_one = (omega arith, omega arith)

in_two : InTable frequencies 11 small 2
in_two = (omega arith, omega arith)

send_unique_example :
    (s : CountingBitOutputStream) × (t : CountingBitOutputStream) × (send
        (map (symbol frequencies 11 small) one_message)
        (start open_counting)
      ≡ ok s)
    × (send (map (symbol frequencies 11 small) other_message) (start open_counting) ≡ ok t)
    × (s.m_bit_out.file ≡ t.m_bit_out.file → one_message ≡ other_message)
send_unique_example =
    send_unique frequencies 11 small one_message other_message (in_zero, (in_one, (in_two, tt)))
      (in_zero, (in_two, (in_one, tt))) refl (omega arith)

coding_lem_example :
    (s : CountingBitOutputStream) × (coding_body (λ i. pos (frequencies i)) ≡ ok s)
    × Codes
        (bits_of s.m_bit_out.file)
        0
        (part (cumulative frequencies 1) (2 ^ 32 - 1) (cumulative frequencies 11))
        (part (cumulative frequencies 2) (2 ^ 32 - 1) (cumulative frequencies 11))
    × IsBytes s.m_bit_out.file
    × (coding (λ i. pos (frequencies i)) ≡ fault)
coding_lem_example = coding_lem frequencies (omega arith) (omega arith)

-- The outcome, and the file after the body of `coding`.
abbrev file_after : Exec CountingBitOutputStream → List ℕ
file_after (ok s) = s.m_bit_out.file
file_after _ = []

coding_run : file_after (coding_body (λ i. pos (frequencies i))) ≡ 192 ∷ []
unfolding coding_body tally_loop tally_step ◌+ℤ◌ ◌-ℤ◌ ◌*ℤ◌ ◌/ℤ◌ update bound shift_loop
    underflow_loop shift underflow widen_top widen_middle write_rest finish Counting.write
    Counting.close Output.write Output.fill_up Output.close
coding_run = refl

read_all-write_all_example :
    (s : CountingBitOutputStream) × (r : BitInputStream) × ((write_all
          (1 ∷ 0 ∷ 1 ∷ [])
          open_counting
        >>= Counting.close 7)
      ≡ ok s)
    × (s.m_num_bits ≡ 3 + padding 3)
    × (read_all false s.m_num_bits (open_input s.m_bit_out.file)
        ≡ ok ((1 ∷ 0 ∷ 1 ∷ []) ++ replicate (padding 3) 0, r))
read_all-write_all_example =
    read_all-write_all (1 ∷ 0 ∷ 1 ∷ []) (omega arith, (omega arith, (omega arith, tt)))
      (omega arith)

read-read_signed_example :
    (read true (open_input (255 ∷ 7 ∷ [])) >>= λ (b, s). read true s)
    ≡ ok (none, behind 255 7 (7 ∷ []))
read-read_signed_example = read-read_signed 255 (7 ∷ []) (omega arith)

-- The largest total that is accepted, and the smallest range between two symbols: the first of its
-- symbols has no place.
abbrev largest : ℕ
largest = 2 ^ 30 + 2

largest_accepted : too_large (pos largest) ≡ false
largest_accepted = refl

no_place : part 1 (2 ^ 30 + 1) largest ≡ part 0 (2 ^ 30 + 1) largest
no_place = refl
