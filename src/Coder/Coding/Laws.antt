-- ===== src/Coder/Coding/Laws.antt =====
-- The loop of `coding` over the frequencies, and the file.
use deep_space_detection.Base.{
  [], ◌&&◌, leb, Option, ℕ, zero, suc, ◌+◌, ◌-◌, ◌%◌, ◌^◌, ◌≡◌, ◌<◌, ◌≤◌, ◌∙◌, refl, ap, some, none,
  Option, ◌&&◌, ◌==◌, true, false, leb, ltb, if◌then◌else◌, Bool-cases, inl, inr, arith, IsBytes,
}
use mathlib.Core.Path.{subst, subst₂}
use deep_space_detection.Base.Signed.{ℤ, pos, add-pos}
use deep_space_detection.Coder.Exec.{ok, fault, ◌>>=◌}
use deep_space_detection.Coder.Output.Laws.{bits_of}
use deep_space_detection.Coder.Encoder.{start}
use deep_space_detection.Coder.Counting.{open_counting, CountingBitOutputStream}
use deep_space_detection.Coder.Encoder.Update.{part, fits}
use deep_space_detection.Coder.Encoder.Codeword.{Codes}
use deep_space_detection.Coder.Message.{Symbol, send}
use deep_space_detection.Coder.Message.Laws.{IsReady-start, Sent-cons}
use deep_space_detection.Coder.Coding.{
  open_counting, start, tally_step, tally_loop, tally, coding, coding_body, int_of,
}

-- The sum of the first `n` frequencies.
abbrev pub cumulative : (ℕ → ℕ) → ℕ → ℕ
cumulative f zero = 0
cumulative f (suc n) = cumulative f n + f n

-- The value that a round from `i` on has noted, or the one before.
abbrev noted : ℕ → ℕ → ℕ → ℕ → Option ℤ → Option ℤ
noted index rounds i v old =
    if leb i index && ltb index (i + rounds) then some (int_of (pos v)) else old

cumulative_mono : (f : ℕ → ℕ) (i r : ℕ) → cumulative f i ≤ cumulative f (i + r)
cumulative_mono f i zero = let none_more : i + 0 ≡ i = omega arith in rw none_more (omega arith)
cumulative_mono f i (suc r) =
    let one_more : i + suc r ≡ suc (i + r) = omega arith in
    rw one_more (omega (arith, cumulative_mono f i r))

noted_step :
    (index r i : ℕ) (v : ℕ → ℕ) (old : Option ℤ)
    → noted index r (suc i) (v index) (if i == index then some (int_of (pos (v i))) else old)
      ≡ noted index (suc r) i (v index) old
noted_step index r i v old = elim (Bool-cases (i == index)) [
  | inl e ↦
      let same : i ≡ index = ground arith in
      let late : leb (suc i) index ≡ false = ground arith in
      let now : (leb i index && ltb index (i + suc r)) ≡ true = ground arith in
      rw (e, late, now) (ap (λ (j : ℕ). some (int_of (pos (v j)))) same)
  | inr e ↦
      let next : (leb (suc i) index && ltb index (suc i + r))
          ≡ (leb i index && ltb index (i + suc r)) =
        ground arith in
      rw (e, next) refl
]

module _ (f : ℕ → ℕ) (index : ℕ) where
  abbrev freq : ℕ → ℤ
  freq i = pos (f i)

  tally_loop_lem :
      (rounds i : ℕ) (low high : Option ℤ)
      → cumulative f (i + rounds) < 2 ^ 63
      → tally_loop freq index rounds i
          (record { total_freqs = pos (cumulative f i); symlow = low; symhigh = high })
        ≡ ok (record {
          total_freqs = pos (cumulative f (i + rounds));
          symlow = noted index rounds i (cumulative f index) low;
          symhigh = noted index rounds i (cumulative f (suc index)) high;
        })
  unfolding tally_loop tally_step
  tally_loop_lem zero i low high small =
      let a : i + 0 ≡ i = omega arith in
      let none_noted : (leb i index && ltb index i) ≡ false = ground arith in
      rw (a, none_noted) refl
  tally_loop_lem (suc r) i low high small =
      let a : i + suc r ≡ suc i + r = omega arith in
      let b : i + 1 ≡ suc i = omega arith in
      let small' : cumulative f (suc i + r) < 2 ^ 63 = rw (← a) small in
      let below : cumulative f (suc i) < 2 ^ 63 =
        omega (arith, cumulative_mono f (suc i) r, small') in
      rw (add-pos (cumulative f i) (f i), fits (cumulative f (suc i)) below, b)
        (rw
          (
            ← noted_step index r i (cumulative f) low,
            ← noted_step index r i (λ j. cumulative f (suc j)) high,
            a,
          )
          (tally_loop_lem r (suc i)
            (if i == index then some (int_of (pos (cumulative f i))) else low)
            (if i == index then some (int_of (pos (cumulative f (suc i)))) else high) small'))

pub cumulative_upto : (f : ℕ → ℕ) (i j : ℕ) → i ≤ j → cumulative f i ≤ cumulative f j
cumulative_upto f i j h =
    let whole : i + (j - i) ≡ j = omega arith in
    subst (λ (k : ℕ). cumulative f i ≤ cumulative f k) whole (cumulative_mono f i (j - i))

int_small : (n : ℕ) → n < 2 ^ 31 → int_of (pos n) ≡ pos n
int_small n h =
    let same : n % 2 ^ 32 ≡ n = omega arith in
    let low : ltb n (2 ^ 31) ≡ true = ground arith in rw (same, low) refl

-- The end of the loop for a symbol between the bounds.
tally_lem :
    (f : ℕ → ℕ) (index : ℕ)
    → index ≤ 10
    → cumulative f 11 < 2 ^ 31
    → tally (λ i. pos (f i)) index
      ≡ ok (record {
        total_freqs = pos (cumulative f 11);
        symlow = some (pos (cumulative f index));
        symhigh = some (pos (cumulative f (suc index)));
      })
tally_lem f index inside small =
    let noted_now : (leb 0 index && ltb index (0 + 11)) ≡ true = ground arith in
    let l : int_of (pos (cumulative f index)) ≡ pos (cumulative f index) =
      int_small (cumulative f index)
        (omega (arith, cumulative_upto f index 11 (omega arith), small)) in
    let h : int_of (pos (cumulative f (suc index))) ≡ pos (cumulative f (suc index)) =
      int_small (cumulative f (suc index))
        (omega (arith, cumulative_upto f (suc index) 11 (omega arith), small)) in
    tally_loop_lem f index 11 0 none none (omega (arith, small)) ∙ rw (noted_now, l, h) refl

-- For frequencies that are not negative, the second of them positive, and whose sum is at most 2
-- ^ 30 + 1, the body of `coding` runs to its end. The bytes of its file, read as a binary
-- fraction, lie in the part of the initial interval that belongs to the second of the eleven
-- symbols. `coding` itself then has undefined behaviour, since it returns no value.
pub coding_lem :
    (f : ℕ → ℕ)
    → 0 < f 1
    → cumulative f 11 ≤ 2 ^ 30 + 1
    → (s : CountingBitOutputStream) × (coding_body (λ i. pos (f i)) ≡ ok s)
      × Codes
          (bits_of s.m_bit_out.file)
          0
          (part (cumulative f 1) (2 ^ 32 - 1) (cumulative f 11))
          (part (cumulative f 2) (2 ^ 32 - 1) (cumulative f 11))
      × IsBytes s.m_bit_out.file
      × (coding (λ i. pos (f i)) ≡ fault)
unfolding coding coding_body send
coding_lem f some_part small =
    let x : Symbol = record {
      total = cumulative f 11;
      symlow = cumulative f 1;
      symhigh = cumulative f 2;
    } in
    let (s, run, c, bytes) =
      Sent-cons x [] (start open_counting) 0 0 (2 ^ 32)
        (
          record {
            some_part = omega arith;
            within = omega (arith, cumulative_upto f 2 11 (omega arith));
            codable = small;
          },
          tt,
        )
        IsReady-start (omega arith) in
    let from_zero : (n : ℕ) → 0 + n ≡ n = λ n. omega arith in
    let codes : Codes (bits_of s.m_bit_out.file) 0
        (part (cumulative f 1) (2 ^ 32 - 1) (cumulative f 11))
        (part (cumulative f 2) (2 ^ 32 - 1) (cumulative f 11)) =
      subst₂ (Codes (bits_of s.m_bit_out.file) 0)
        (from_zero (part (cumulative f 1) (2 ^ 32 - 1) (cumulative f 11)))
        (from_zero (part (cumulative f 2) (2 ^ 32 - 1) (cumulative f 11))) c in
    let body : coding_body (λ i. pos (f i)) ≡ ok s =
      rw (tally_lem f 1 (omega arith) (omega arith)) run in
    (s, body, codes, bytes, ap (λ r. r >>= λ s. fault) body)
