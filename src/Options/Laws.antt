-- ===== src/Options/Laws.antt =====
-- The loop around `getopt`.
use deep_space_detection.Base.{
  ℕ, zero, suc, ◌≡◌, ◌<◌, refl, arith, ◌⊎◌, inl, inr, List, Option, none, some,
}
use deep_space_detection.Options.{
  Outcome, done, unless_none, ◌>>=◌, IfDone, Getopt, scan, options, in_turn,
}

pub Option-cases {ℓ} : {A : Type ℓ} (o : Option A) → (o ≡ none) ⊎ ((a : A) × (o ≡ some a))
Option-cases none = inl refl
Option-cases (some a) = inr (a, refl)

module _ {ℓ} {A : Type ℓ} (G : Getopt) (step : ℕ × List ℕ → A → Outcome A) where
  -- A second loop over the same options ends at once.
  pub scan_again :
      (k : ℕ) (s : G.State) (a : A)
      → (G.next s).1 ≡ none
      → scan G step (suc k) s a ≡ done ((G.next s).0, a)
  unfolding scan
  scan_again k s a e = rw e refl

module _ {ℓ} {A : Type ℓ} (G : Getopt) (step : ℕ × List ℕ → A → A) where
  -- With fuel for a round more than there are options, a loop that leaves only at their end gets
  -- there, and it has taken each of them in its turn.
  pub scan_lem :
      (k : ℕ) (s : G.State) (a : A)
      → G.left s < k
      → (t : G.State) × (scan G (λ o a. done (step o a)) k s a
          ≡ done (t, in_turn step (options G k s) a))
        × ((G.next t).1 ≡ none)
  unfolding scan options
  scan_lem zero s a fuel = absurd (omega arith)
  scan_lem (suc k) s a fuel = elim (Option-cases (G.next s).1) [
    | inl e ↦ ((G.next s).0, rw e refl, G.ended s e)
    | inr (o, e) ↦
        let more = scan_lem k (G.next s).0 (step o a) (omega (arith, G.takes s o e)) in rw e more
  ]

-- A test for NULL in front, whose pointer is not used.
pub IfDone-unless_none {ℓ κ μ ν} :
    {A : Type ℓ} {B : Type κ} {C : Type μ} (P : C → Type ν) (m : Option A) (r : Outcome B)
    (f : B → Outcome C)
    → IfDone P (r >>= f)
    → IfDone P (unless_none m >>= (λ p. r) >>= f)
IfDone-unless_none P none r f h = tt
IfDone-unless_none P (some a) r f h = h
