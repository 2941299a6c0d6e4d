-- ===== src/Coder/Message/Laws.antt =====
-- The files of messages, as numbers in the intervals of their symbols.
use deep_space_detection.Base.{
  ℕ, ◌+◌, ◌-◌, ◌*◌, ◌^◌, ◌≡◌, ◌<◌, ◌≤◌, refl, sym, List, [], ◌∷◌, ◌≢◌, arith, length, IsBytes,
}
use deep_space_detection.Coder.Exec.{ok}
use deep_space_detection.Coder.Output.Laws.{bits_of}
use deep_space_detection.Coder.Counting.{CountingBitOutputStream, open_counting}
use deep_space_detection.Coder.Counting.Laws.{Wrote-open_counting}
use deep_space_detection.Coder.Encoder.{ArithmeticEncoder, start}
use deep_space_detection.Coder.Encoder.Loops.{IsReady}
use deep_space_detection.Coder.Encoder.Update.{IsSymbol, part, part_le, part_mono, update_lem}
use deep_space_detection.Coder.Encoder.Codeword.{
  Codes, Codes-before, Codes-longer, Codes-disjoint, finish_lem,
}
use deep_space_detection.Coder.Message.{Symbol, send}

abbrev pub AreSymbols : List Symbol → Type 0
AreSymbols [] = Unit
AreSymbols (x ∷ xs) = IsSymbol x.total x.symlow x.symhigh × AreSymbols xs

-- The place of a symbol's ends in an interval.
abbrev pub end_at : ℕ → ℕ → ℕ → ℕ → ℕ
end_at lo hi sym total = lo + part sym (hi - lo - 1) total

-- The message is sent, and its file stands in the interval.
abbrev Sent : List Symbol → ArithmeticEncoder → ℕ → ℕ → ℕ → Type 0
Sent xs e n lo hi =
    (s : CountingBitOutputStream) × (send xs e ≡ ok s)
    × Codes (bits_of s.m_bit_out.file) n lo hi
    × IsBytes s.m_bit_out.file

-- Whatever follows, a message's file stands in the interval of its first symbol.
Sent-first :
    (x : Symbol) (xs : List Symbol) (e : ArithmeticEncoder) (n lo hi : ℕ)
    → ((e' : ArithmeticEncoder) (n' lo' hi' : ℕ)
        → IsReady e' n' lo' hi'
        → n' ≤ n + 66
        → Sent xs e' n' lo' hi')
    → IsReady e n lo hi
    → IsSymbol x.total x.symlow x.symhigh
    → n + 66 < 2 ^ 31
    → Sent (x ∷ xs) e n (end_at lo hi x.symlow x.total) (end_at lo hi x.symhigh x.total)
unfolding send
Sent-first x xs e n lo hi rest ready symbol room =
    let (r, e', run, ready', few) =
      update_lem e n lo hi ready x.total x.symlow x.symhigh symbol room in
    let lo' = end_at lo hi x.symlow x.total in
    let hi' = end_at lo hi x.symhigh x.total in
    let (s, run', c, bytes) = rest e' (n + r) (lo' * 2 ^ r) (hi' * 2 ^ r) ready' (omega arith) in
    (s, rw run run', Codes-before (bits_of s.m_bit_out.file) n lo' hi' r c, bytes)

within :
    (lo hi : ℕ) (x : Symbol)
    → IsSymbol x.total x.symlow x.symhigh
    → lo < hi
    → end_at lo hi x.symhigh x.total ≤ hi
within lo hi x symbol some =
    let h =
      part_le x.symhigh (hi - lo - 1) x.total (omega (arith, symbol.some_part, symbol.within))
        symbol.within in
    omega arith

pub send_lem :
    (xs : List Symbol) (e : ArithmeticEncoder) (n lo hi : ℕ)
    → AreSymbols xs
    → IsReady e n lo hi
    → n + 66 * length xs + 10 < 2 ^ 31
    → Sent xs e n lo hi
unfolding send
send_lem [] e n lo hi symbols ready room = finish_lem e n lo hi ready (omega arith)
send_lem (x ∷ xs) e n lo hi symbols ready room =
    let (s, run, c, bytes) =
      Sent-first x xs e n lo hi
        (λ e' n' lo' hi' r few. send_lem xs e' n' lo' hi' symbols.1 r (omega arith)) ready symbols.0
        (omega arith) in
    (
      s,
      run,
      Codes-longer (bits_of s.m_bit_out.file) n (end_at lo hi x.symlow x.total)
          (end_at lo hi x.symhigh x.total) lo hi (omega arith)
          (within lo hi x symbols.0
            (omega (arith, ready.apart.spans.lo_is, ready.apart.spans.hi_is)))
          c,
      bytes,
    )

pub Sent-cons :
    (x : Symbol) (xs : List Symbol) (e : ArithmeticEncoder) (n lo hi : ℕ)
    → AreSymbols (x ∷ xs)
    → IsReady e n lo hi
    → n + 66 * length (x ∷ xs) + 10 < 2 ^ 31
    → Sent (x ∷ xs) e n (end_at lo hi x.symlow x.total) (end_at lo hi x.symhigh x.total)
Sent-cons x xs e n lo hi symbols ready room =
    Sent-first x xs e n lo hi
      (λ e' n' lo' hi' r few. send_lem xs e' n' lo' hi' symbols.1 r (omega arith)) ready symbols.0
      (omega arith)

-- Messages that are the same up to a symbol with different parts of the same total.
pub data IsApart : List Symbol → List Symbol → Type 0 where
  here :
      (x y : Symbol) (xs ys : List Symbol)
      → x.total ≡ y.total
      → x.symhigh ≤ y.symlow
      → IsApart (x ∷ xs) (y ∷ ys)
  later : (x : Symbol) (xs ys : List Symbol) → IsApart xs ys → IsApart (x ∷ xs) (x ∷ ys)

ends_apart :
    (lo hi : ℕ) (x y : Symbol)
    → IsSymbol x.total x.symlow x.symhigh
    → x.total ≡ y.total
    → x.symhigh ≤ y.symlow
    → end_at lo hi x.symhigh x.total ≤ end_at lo hi y.symlow y.total
ends_apart lo hi x y symbol same h = rw (← same) (
    omega (
      arith,
      part_mono x.symhigh y.symlow (hi - lo - 1) x.total
          (omega (arith, symbol.some_part, symbol.within)) h,
    ))

-- Two messages that are both sent, to different files.
abbrev SentApart : List Symbol → List Symbol → ArithmeticEncoder → Type 0
SentApart xs ys e =
    (s : CountingBitOutputStream) × (t : CountingBitOutputStream) × (send xs e ≡ ok s)
    × (send ys e ≡ ok t)
    × (s.m_bit_out.file ≢ t.m_bit_out.file)

send-IsApart :
    (xs ys : List Symbol)
    → IsApart xs ys
    → (e : ArithmeticEncoder) (n lo hi : ℕ) → AreSymbols xs
    → AreSymbols ys
    → IsReady e n lo hi
    → n + 66 * length xs + 10 < 2 ^ 31
    → n + 66 * length ys + 10 < 2 ^ 31
    → SentApart xs ys e
unfolding send
send-IsApart xs ys (here x y xs' ys' same below) e n lo hi symbols symbols' ready room room' =
    let (s, run, c, bytes) = Sent-cons x xs' e n lo hi symbols ready room in
    let (t, run', c', bytes') = Sent-cons y ys' e n lo hi symbols' ready room' in
    (
      s,
      t,
      run,
      run',
      λ equal.
          Codes-disjoint (bits_of s.m_bit_out.file) n (end_at lo hi x.symlow x.total)
            (end_at lo hi x.symhigh x.total) (end_at lo hi y.symlow y.total)
            (end_at lo hi y.symhigh y.total) (ends_apart lo hi x y symbols.0 same below) c
            (rw equal c'),
    )
send-IsApart xs ys (later x xs' ys' apart) e n lo hi symbols symbols' ready room room' =
    let (r, e', run, ready', few) =
      update_lem e n lo hi ready x.total x.symlow x.symhigh symbols.0 (omega arith) in
    let (s, t, run1, run2, different) =
      send-IsApart xs' ys' apart e' (n + r) (end_at lo hi x.symlow x.total * 2 ^ r)
        (end_at lo hi x.symhigh x.total * 2 ^ r) symbols.1 symbols'.1 ready' (omega arith)
        (omega arith) in
    (s, t, rw run run1, rw run run2, different)

-- A new encoder covers all of the messages.
pub IsReady-start : IsReady (start open_counting) 0 0 (2 ^ 32)
IsReady-start = record {
  apart = record {
    spans = record {
      bits = [];
      low = 0;
      high = 2 ^ 32 - 1;
      wrote = Wrote-open_counting;
      low_is = refl;
      high_is = refl;
      ordered = omega arith;
      bounded = omega arith;
      scale = refl;
      lo_is = refl;
      hi_is = refl;
    };
    below = omega arith;
    above = omega arith;
  };
  wide = omega arith;
}

-- From the start.
pub send-start-IsApart :
    (xs ys : List Symbol)
    → IsApart xs ys
    → AreSymbols xs
    → AreSymbols ys
    → length xs < 2 ^ 24
    → length ys < 2 ^ 24
    → (s : CountingBitOutputStream) × (t : CountingBitOutputStream) × (send xs (start open_counting)
        ≡ ok s)
      × (send ys (start open_counting) ≡ ok t)
      × (s.m_bit_out.file ≢ t.m_bit_out.file)
send-start-IsApart xs ys apart symbols symbols' short short' =
    send-IsApart xs ys apart (start open_counting) 0 0 (2 ^ 32) symbols symbols' IsReady-start
      (omega arith) (omega arith)
