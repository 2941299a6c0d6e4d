-- ===== src/Coder/Message/Unique.antt =====
-- Messages over one table of frequencies, as `coding` makes one.
use mathlib.Core.Path.{subst}
use deep_space_detection.Base.{
  ℕ, suc, ◌+◌, ◌^◌, ◌≡◌, ◌<◌, ◌≤◌, ◌∙◌, refl, ap, sym, List, [], ◌∷◌, ◌⊎◌, inl, inr, ◌≢◌, ◌==◌, leb,
  Bool-cases, arith, length, map, All,
}
use deep_space_detection.Coder.Exec.{Exec, ok}
use deep_space_detection.Coder.Counting.{CountingBitOutputStream, open_counting}
use deep_space_detection.Coder.Encoder.{start}
use deep_space_detection.Coder.Encoder.Update.{IsSymbol}
use deep_space_detection.Coder.Coding.Laws.{cumulative, cumulative_upto}
use deep_space_detection.Coder.Message.{Symbol, send}
use deep_space_detection.Coder.Message.Laws.{
  AreSymbols, IsReady-start, send_lem, IsApart, here, later, send-start-IsApart,
}

module _ (f : ℕ → ℕ) (n : ℕ) (codable : cumulative f n ≤ 2 ^ 30 + 1) where
  -- The arguments of `write` for the symbol `i` of `n`.
  abbrev pub symbol : ℕ → Symbol
  symbol i = record {
    total = cumulative f n;
    symlow = cumulative f i;
    symhigh = cumulative f (suc i);
  }

  -- The symbols of the table that occur.
  abbrev pub InTable : ℕ → Type 0
  InTable i = (i < n) × (0 < f i)

  InTable-IsSymbol :
      (i : ℕ) → InTable i → IsSymbol (cumulative f n) (cumulative f i) (cumulative f (suc i))
  InTable-IsSymbol i h = record {
    some_part = omega (arith, h.1);
    within = cumulative_upto f (suc i) n h.0;
    codable = codable;
  }

  AreSymbols-map : (xs : List ℕ) → All InTable xs → AreSymbols (map symbol xs)
  AreSymbols-map [] h = tt
  AreSymbols-map (x ∷ xs) h = (InTable-IsSymbol x h.0, AreSymbols-map xs h.1)

  length-map : (xs : List ℕ) → length (map symbol xs) ≡ length xs
  length-map [] = refl
  length-map (x ∷ xs) = ap suc (length-map xs)

  -- Of two messages of the same length.
  Compared : List ℕ → List ℕ → Type 0
  Compared xs ys =
      (xs ≡ ys)
      ⊎ (IsApart (map symbol xs) (map symbol ys) ⊎ IsApart (map symbol ys) (map symbol xs))

  Compared-more : (x : ℕ) (xs ys : List ℕ) → Compared xs ys → Compared (x ∷ xs) (x ∷ ys)
  unfolding Compared
  Compared-more x xs ys (inl e) = inl (ap (◌∷◌ x) e)
  Compared-more x xs ys (inr (inl a)) = inr (inl (later (symbol x) _ _ a))
  Compared-more x xs ys (inr (inr a)) = inr (inr (later (symbol x) _ _ a))

  compared : (xs ys : List ℕ) → length xs ≡ length ys → Compared xs ys
  unfolding Compared
  compared [] [] e = inl refl
  compared [] (y ∷ ys) e = absurd (omega (arith, e))
  compared (x ∷ xs) [] e = absurd (omega (arith, e))
  compared (x ∷ xs) (y ∷ ys) e = elim (Bool-cases (x == y)) [
    | inl same ↦
        let eq : x ≡ y = ground arith in
        subst (λ (z : ℕ). Compared (x ∷ xs) (z ∷ ys)) eq
          (Compared-more x xs ys (compared xs ys (omega (arith, e))))
    | inr differ ↦ elim (Bool-cases (leb (suc x) y)) [
      | inl less ↦ inr (
          inl (
            here (symbol x) (symbol y) (map symbol xs) (map symbol ys) refl
              (cumulative_upto f (suc x) y (ground arith))))
      | inr more ↦ inr (
          inr (
            here (symbol y) (symbol x) (map symbol ys) (map symbol xs) refl
              (cumulative_upto f (suc y) x (ground arith))))
    ]
  ]

  abbrev file_of : Exec CountingBitOutputStream → List ℕ
  file_of (ok s) = s.m_bit_out.file
  file_of _ = []

  abbrev sent : List ℕ → Exec CountingBitOutputStream
  sent xs = send (map symbol xs) (start open_counting)

  differ :
      (xs ys : List ℕ)
      → All InTable xs
      → All InTable ys
      → length xs < 2 ^ 24
      → length ys < 2 ^ 24
      → IsApart (map symbol xs) (map symbol ys)
      → file_of (sent xs) ≢ file_of (sent ys)
  differ xs ys hx hy sx sy apart equal =
      let (s, t, run, run', different) =
        send-start-IsApart (map symbol xs) (map symbol ys) apart (AreSymbols-map xs hx)
          (AreSymbols-map ys hy) (omega (arith, length-map xs)) (omega (arith, length-map ys)) in
      different (sym (ap file_of run) ∙ equal ∙ ap file_of run')

  -- Over a table of frequencies that add up to at most 2 ^ 30 + 1, two messages of the same
  -- length, below 2 ^ 24, of symbols whose frequency is positive, can both be encoded, finished
  -- and closed from the start; and if their files are the same, so are the messages.
  pub send_unique :
      (xs ys : List ℕ)
      → All InTable xs
      → All InTable ys
      → length xs ≡ length ys
      → length xs < 2 ^ 24
      → (s : CountingBitOutputStream) × (t : CountingBitOutputStream) × (send
            (map symbol xs)
            (start open_counting)
          ≡ ok s)
        × (send (map symbol ys) (start open_counting) ≡ ok t)
        × (s.m_bit_out.file ≡ t.m_bit_out.file → xs ≡ ys)
  unfolding Compared
  send_unique xs ys hx hy same short =
      let short' : length ys < 2 ^ 24 = omega (arith, same) in
      let (s, run, c, bytes) =
        send_lem (map symbol xs) (start open_counting) 0 0 (2 ^ 32) (AreSymbols-map xs hx)
          IsReady-start (omega (arith, length-map xs)) in
      let (t, run', c', bytes') =
        send_lem (map symbol ys) (start open_counting) 0 0 (2 ^ 32) (AreSymbols-map ys hy)
          IsReady-start (omega (arith, length-map ys)) in
      (
        s,
        t,
        run,
        run',
        λ equal.
            let files : file_of (sent xs) ≡ file_of (sent ys) =
              ap file_of run ∙ equal ∙ sym (ap file_of run') in
            elim (compared xs ys same) [
              | inl e ↦ e
              | inr (inl a) ↦ absurd (differ xs ys hx hy short short' a files)
              | inr (inr a) ↦ absurd (differ ys xs hy hx short' short a (sym files))
            ],
      )
