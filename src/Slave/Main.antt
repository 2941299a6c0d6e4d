-- ===== src/Slave/Main.antt =====
-- `parse` and `main` of main.c, and main.h.
pub mod Laws
use deep_space_detection.Base.{ℕ, ◌==◌, if◌then◌else◌, List, [], ◌∷◌, ◌++◌, Bool, Option}
use deep_space_detection.Protocol.Frame.{Frame}
use deep_space_detection.Protocol.Stream.{Malloc}
use deep_space_detection.Protocol.Link.{Tty}
use deep_space_detection.Slave.{Files}
use deep_space_detection.Slave.Loop.{Slave, slave}
use deep_space_detection.Options.{Outcome, done, ◌>>=◌, Getopt, scan, of_run, unless_none}

-- `opt_t`
pub record Opt : Type 0 where
  pub tty : List ℕ
  pub output_dir : List ℕ

-- "/tmp"
abbrev tmp : List ℕ
tmp = b'/' ∷ b't' ∷ b'm' ∷ b'p' ∷ []

abbrev pub default_opt : Opt
default_opt = record {
  tty = tmp ++ (b'/' ∷ b't' ∷ b't' ∷ b'y' ∷ b'S' ∷ b'1' ∷ []);
  output_dir = tmp;
}

-- On the 64-bit processor.
abbrev sizeof_opt : ℕ
sizeof_opt = 16

abbrev pub set_option : ℕ × List ℕ → Opt → Opt
set_option (c, optarg) o =
    if c == b't'
    then record o { tty = optarg }
    else if c == b'o'
    then record o { output_dir = optarg }
    else o

-- `k` is the fuel for the loop.
unfoldable pub parse : Malloc → (G : Getopt) → ℕ → G.State → Outcome Opt
parse malloc G k s = do
  p_opt ← unless_none (malloc sizeof_opt)
  (s, o) ← scan G (λ c o. done (set_option c o)) k s default_opt
  done o

-- `open_tty` is `open` of the terminal. `input` is what the uninitialised `input_frame` holds.
unfoldable pub main {ℓ} :
    {S : Type ℓ}
    → (ℕ → List ℕ)
    → Malloc
    → (List ℕ → Bool)
    → (List ℕ → Option S)
    → Tty S
    → Option Frame
    → (G : Getopt) → ℕ
    → G.State
    → ℕ
    → ℕ
    → Frame
    → Files
    → Outcome (Slave S)
main print malloc opens open_tty tty fresh G k s rounds wait input files = do
  o ← parse malloc G k s
  line ← unless_none (open_tty o.tty)
  of_run (slave print malloc opens o.output_dir tty fresh rounds wait line input files)
