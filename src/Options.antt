-- ===== src/Options.antt =====
-- What `parse` of master.c and `parse` of main.c, under
-- project-spec/meta-user/recipes-apps/autostart/src, have in common: the loop around `getopt`.
pub mod Laws
pub mod Tests
use deep_space_detection.Base.{
  ℕ, zero, suc, ◌≡◌, ◌<◌, List, [], ◌∷◌, Option, none, some, Run, ok, fault as run_fault,
}

-- `null` is the result NULL, and the exit with a failure that comes of it; `fault` is undefined
-- behaviour; `unended` is a loop that has not ended in the rounds that it was given.
pub data Outcome {ℓ} (A : Type ℓ) : Type ℓ where
  done : A → Outcome A
  null fault unended : Outcome A

infixl 5 ◌>>=◌
abbrev pub ◌>>=◌ {ℓ κ} : {A : Type ℓ} {B : Type κ} → Outcome A → (A → Outcome B) → Outcome B
done a >>= f = f a
null >>= f = null
fault >>= f = fault
unended >>= f = unended

-- What may come of a run: `P` of its result if it has one.
abbrev pub IfDone {ℓ κ} : {A : Type ℓ} → (A → Type κ) → Outcome A → Type κ
IfDone P (done a) = P a
IfDone P null = Unit
IfDone P fault = Unit
IfDone P unended = Unit

-- `getopt` of the C library on one command line, with one string of options, over the states that it keeps between its calls:
-- the next option and its argument, or `none` for -1. The options come to an end, and after that
-- it returns -1 again: the command line has no `--`, behind which it would start anew.
pub record Getopt : Type 1 where
  pub State : Type 0
  pub next : State → State × Option (ℕ × List ℕ)
  pub left : State → ℕ
  pub takes : (s : State) (o : ℕ × List ℕ) → (next s).1 ≡ some o → left (next s).0 < left s
  pub ended : (s : State) → (next s).1 ≡ none → (next (next s).0).1 ≡ none

module _ {ℓ} {A : Type ℓ} (G : Getopt) (step : ℕ × List ℕ → A → Outcome A) where
  -- With what `getopt` has returned; `again` is the rest of the loop.
  abbrev pub with_option :
      (G.State → A → Outcome (G.State × A))
      → G.State × Option (ℕ × List ℕ)
      → A
      → Outcome (G.State × A)
  with_option again (s, none) a = done (s, a)
  with_option again (s, some o) a = step o a >>= again s

  -- `while ((c = getopt(argc, argv, optstring)) != -1)`, on fuel for its rounds.
  unfoldable pub scan : ℕ → G.State → A → Outcome (G.State × A)
  scan zero s a = unended
  scan (suc k) s a = with_option (scan k) (G.next s) a

module _ (G : Getopt) where
  abbrev listed : (G.State → List (ℕ × List ℕ)) → G.State × Option (ℕ × List ℕ) → List (ℕ × List ℕ)
  listed again (s, none) = []
  listed again (s, some o) = o ∷ again s

  -- The options of the command line, at most as many as the fuel.
  unfoldable pub options : ℕ → G.State → List (ℕ × List ℕ)
  options zero s = []
  options (suc k) s = listed (options k) (G.next s)

-- Each option in its turn.
abbrev pub in_turn {ℓ} : {A : Type ℓ} → (ℕ × List ℕ → A → A) → List (ℕ × List ℕ) → A → A
in_turn step [] a = a
in_turn step (o ∷ os) a = in_turn step os (step o a)

-- A run whose result may wait for more rounds.
abbrev pub of_run {ℓ} : {A : Type ℓ} → Run (Option A) → Outcome A
of_run (ok (some a)) = done a
of_run (ok none) = unended
of_run run_fault = fault

-- A pointer that is tested for NULL.
abbrev pub unless_none {ℓ} : {A : Type ℓ} → Option A → Outcome A
unless_none none = null
unless_none (some a) = done a

abbrev pub of_access {ℓ} : {A : Type ℓ} → Run A → Outcome A
of_access (ok a) = done a
of_access run_fault = fault
