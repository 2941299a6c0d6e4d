-- ===== src/Options/Tests.antt =====
-- A `getopt` over the options that are left.
use deep_space_detection.Base.{ℕ, ◌≡◌, ◌<◌, refl, arith, List, [], ◌∷◌, Option, none, some, length}
use deep_space_detection.Options.{Getopt}

abbrev Args : Type 0
Args = List (ℕ × List ℕ)

abbrev next_option : Args → Args × Option (ℕ × List ℕ)
next_option [] = ([], none)
next_option (o ∷ os) = (os, some o)

pub next_option-takes :
    (s : Args) (o : ℕ × List ℕ) → (next_option s).1 ≡ some o → length (next_option s).0 < length s
next_option-takes [] o e = absurd (cc e)
next_option-takes (p ∷ s) o e = omega arith

pub next_option-ended :
    (s : Args) → (next_option s).1 ≡ none → (next_option (next_option s).0).1 ≡ none
next_option-ended [] e = refl
next_option-ended (p ∷ s) e = absurd (cc e)

abbrev pub getopt : Getopt
getopt = record {
  State = Args;
  next = next_option;
  left = length;
  takes = next_option-takes;
  ended = next_option-ended;
}

-- "-t a -i b"
abbrev pub args : Args
args = (b't', b'a' ∷ []) ∷ (b'i', b'b' ∷ []) ∷ []
