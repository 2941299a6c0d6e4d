-- ===== src/Coder/Counting/Laws.antt =====
-- The bits that a `CountingBitOutputStream` has been given, and its count.
use deep_space_detection.Base.{
  IsBytes, true, leb, ℕ, ◌+◌, ◌-◌, ◌*◌, ◌%◌, ◌^◌, ◌≡◌, ◌<◌, ◌≤◌, ◌∙◌, refl, ap, List, [], ◌∷◌, ◌++◌,
  arith, replicate, length, length-append, length-replicate,
}
use deep_space_detection.Coder.Exec.{ok}
use deep_space_detection.Coder.Output.Laws.{
  IsStream, content, bits_of, length-bits_of, padding, write_lem, close_lem,
}
use deep_space_detection.Coder.Counting.{CountingBitOutputStream, open_counting, write, close}

-- A stream that has been given these bits.
pub record Wrote (s : CountingBitOutputStream) (bits : List ℕ) : Type 0 where
  pub stream : IsStream s.m_bit_out
  pub holds : content s.m_bit_out ≡ bits
  pub counted : s.m_num_bits ≡ length bits

pub Wrote-open_counting : Wrote open_counting []
Wrote-open_counting = record {
  stream = record { filled = omega arith; current = omega arith; opened = refl; bytes = tt };
  holds = refl;
  counted = refl;
}

pub Wrote-write :
    (s : CountingBitOutputStream) (bits : List ℕ) (b : ℕ)
    → Wrote s bits
    → b < 2
    → length bits + 1 < 2 ^ 31
    → (s' : CountingBitOutputStream) × (write b s ≡ ok s') × Wrote s' (bits ++ b ∷ [])
unfolding write
Wrote-write s bits b w bit room =
    let (out, run, h, c) = write_lem s.m_bit_out w.stream b bit in
    let fits : leb (s.m_num_bits + 1) (2 ^ 31 - 1) ≡ true = ground (arith, w.counted) in
    (
      record { m_num_bits = s.m_num_bits + 1; m_bit_out = out },
      rw (fits, run) refl,
      record {
        stream = h;
        holds = c ∙ ap (λ l. l ++ b ∷ []) w.holds;
        counted = omega (arith, w.counted, length-append bits (b ∷ []));
      },
    )

-- After `close` the file holds the bits that were written, filled up by zeros to whole bytes, and
-- the count is that of the bits in the file.
pub close-Wrote :
    (k : ℕ) (s : CountingBitOutputStream) (bits : List ℕ)
    → Wrote s bits
    → 7 ≤ k
    → length bits < 2 ^ 31 - 8
    → (s' : CountingBitOutputStream) × (close k s ≡ ok s')
      × (bits_of s'.m_bit_out.file ≡ bits ++ replicate (padding (length bits)) 0)
      × (s'.m_num_bits ≡ 8 * length s'.m_bit_out.file)
      × IsBytes s'.m_bit_out.file
unfolding close
close-Wrote k s bits w fuel room =
    let (out, run, c, bytes) = close_lem k s.m_bit_out w.stream fuel in
    let n = s.m_num_bits + (8 - s.m_num_bits % 8) % 8 in
    let fits : leb n (2 ^ 31 - 1) ≡ true = ground (arith, w.counted) in
    let c' : bits_of out.file ≡ bits ++ replicate (padding (length bits)) 0 =
      c ∙ ap (λ l. l ++ replicate (padding (length l)) 0) w.holds in
    (
      record { m_num_bits = n; m_bit_out = out },
      rw (fits, run) refl,
      c',
      omega (
        arith,
        w.counted,
        ap length c',
        length-append bits (replicate (padding (length bits)) 0),
        length-replicate {A = ℕ} (padding (length bits)) 0,
        length-bits_of out.file,
      ),
      bytes,
    )
