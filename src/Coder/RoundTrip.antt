-- ===== src/Coder/RoundTrip.antt =====
-- From the bits that are written to the bits that are read from the file.
use deep_space_detection.Base.{
  ℕ, ◌+◌, ◌-◌, ◌^◌, ◌≡◌, ◌<◌, ◌∙◌, refl, ap, List, [], ◌∷◌, ◌++◌, false, arith, replicate, length,
  length-append, length-replicate, All,
}
use mathlib.Core.List.{append_assoc, append-nil}
use deep_space_detection.Coder.Exec.{Exec, ok, ◌>>=◌}
use deep_space_detection.Coder.Output.Laws.{padding, length-bits_of}
use deep_space_detection.Coder.Counting
use deep_space_detection.Coder.Counting.{CountingBitOutputStream, open_counting}
use deep_space_detection.Coder.Counting.Laws.{Wrote, Wrote-open_counting, Wrote-write, close-Wrote}
use deep_space_detection.Coder.Input.{BitInputStream, open_input}
use deep_space_detection.Coder.Input.Laws.{read_all, read_all-open_input}

-- The bits, one `write` for each.
pub write_all : List ℕ → CountingBitOutputStream → Exec CountingBitOutputStream
write_all [] s = ok s
write_all (b ∷ bs) s = Counting.write b s >>= write_all bs

abbrev pub AreBits : List ℕ → Type 0
AreBits = All (λ b. b < 2)

Wrote-write_all :
    (more : List ℕ) (s : CountingBitOutputStream) (bits : List ℕ)
    → Wrote s bits
    → AreBits more
    → length bits + length more < 2 ^ 31
    → (s' : CountingBitOutputStream) × (write_all more s ≡ ok s') × Wrote s' (bits ++ more)
unfolding write_all
Wrote-write_all [] s bits w bit room = (s, refl, rw (append-nil bits) w)
Wrote-write_all (b ∷ bs) s bits w bit room =
    let (t, run, wt) = Wrote-write s bits b w bit.0 (omega arith) in
    let (s', run', w') =
      Wrote-write_all bs t (bits ++ b ∷ []) wt bit.1 (omega (arith, length-append bits (b ∷ []))) in
    (s', rw run run', rw (← append_assoc bits (b ∷ []) bs) w')

-- Fewer than 2 ^ 31 - 8 bits that are written to a new stream one by one, which is then closed,
-- come back from the file in order where `char` is unsigned, followed by the zeros that fill up
-- the last byte; the count of the stream is that of all of these bits.
pub read_all-write_all :
    (bits : List ℕ)
    → AreBits bits
    → length bits < 2 ^ 31 - 8
    → (s : CountingBitOutputStream) × (r : BitInputStream) × ((write_all bits open_counting
          >>= Counting.close 7)
        ≡ ok s)
      × (s.m_num_bits ≡ length bits + padding (length bits))
      × (read_all false s.m_num_bits (open_input s.m_bit_out.file)
          ≡ ok (bits ++ replicate (padding (length bits)) 0, r))
read_all-write_all bits bit room =
    let (t, run, w) = Wrote-write_all bits open_counting [] Wrote-open_counting bit (omega arith) in
    let (s, run', c, counted, bytes) = close-Wrote 7 t bits w (omega arith) room in
    let (r, back) = read_all-open_input s.m_bit_out.file bytes in
    let size : s.m_num_bits ≡ length bits + padding (length bits) = omega (
      arith,
      counted,
      ap length c,
      length-append bits (replicate (padding (length bits)) 0),
      length-replicate {A = ℕ} (padding (length bits)) 0,
      length-bits_of s.m_bit_out.file,
    ) in
    (s, r, rw run run', size, rw counted (back ∙ ap (λ l. ok (l, r)) c))
