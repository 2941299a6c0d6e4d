-- ===== src/Master/Main.antt =====
-- `parse` and `main` of master.c, and master.h.
pub mod Laws
use deep_space_detection.Base.{
  ℕ, zero, suc, ◌+◌, ◌*◌, ◌/◌, ◌==◌, not, ltb, if◌then◌else◌, List, [], ◌∷◌, ◌++◌, length, take,
  replicate, Bool, Option, none, some, Run, ok, u64, store,
}
use deep_space_detection.Protocol.Frame.{Frame}
use deep_space_detection.Protocol.Stream.{Malloc}
use deep_space_detection.Protocol.Link.{Tty}
use deep_space_detection.Slave.{Files}
use deep_space_detection.Master.Loop.{Img, Master, default_frame, serve}
use deep_space_detection.Options.{
  Outcome, done, null, fault, unended, ◌>>=◌, Getopt, scan, of_run, of_access, unless_none,
}

-- `opt_t`. Elements of `imgs` that have no value yet are `none`; NULL has no elements.
pub record Opt : Type 0 where
  pub tty : List ℕ
  pub output_dir : List ℕ
  pub img_number : ℕ
  pub imgs : List (Option Img)

-- "/tmp"
abbrev tmp : List ℕ
tmp = b'/' ∷ b't' ∷ b'm' ∷ b'p' ∷ []

abbrev pub default_opt : Opt
default_opt = record {
  tty = tmp ++ (b'/' ∷ b't' ∷ b't' ∷ b'y' ∷ b'S' ∷ b'0' ∷ []);
  output_dir = tmp;
  img_number = 0;
  imgs = [];
}

-- On the 64-bit processor.
abbrev sizeof_opt : ℕ
sizeof_opt = 32

abbrev sizeof_img : ℕ
sizeof_img = 24

-- The switch of the first loop.
abbrev pub set_option : ℕ × List ℕ → Opt → Opt
set_option (c, optarg) o =
    if c == b't'
    then record o { tty = optarg }
    else if c == b'o'
    then record o { output_dir = optarg }
    else if c == b'i'
    then record o { img_number = u64 (o.img_number + 1) }
    else o

-- What the program asks of the system: the first word of `wordexp`, if it sets one; the size that
-- `stat` finds; and the contents of a file that `fopen` opens.
pub record System : Type 0 where
  pub wordexp : List ℕ → Option (List ℕ)
  pub stat : List ℕ → Option ℕ
  pub contents : List ℕ → Option (List ℕ)

-- A pointer that is not tested.
abbrev unless_wild {ℓ} : {A : Type ℓ} → Option A → Outcome A
unless_wild none = fault
unless_wild (some a) = done a

abbrev set_img : List (Option Img) → ℕ → Img → Outcome (List (Option Img))
set_img [] i img = fault
set_img (j ∷ js) zero img = done (some img ∷ js)
set_img (j ∷ js) (suc i) img = set_img js i img >>= λ js. done (j ∷ js)

-- The memory of `imgs`, as an array.
abbrev pub without_value : Option (List ℕ) → List (Option Img)
without_value none = []
without_value (some a) = replicate (length a / sizeof_img) none

module _ (sys : System) (malloc : Malloc) where
  -- The case of an image in the second loop. `fread` reads the file over its name.
  pub load_img : List ℕ → ℕ × List (Option Img) → Outcome (ℕ × List (Option Img))
  load_img optarg (i, imgs) = do
    name ← unless_wild (sys.wordexp optarg)
    imgs ← set_img imgs i (record { name = name; file = [] })
    size ← unless_none (sys.stat name)
    file ← unless_none (malloc size)
    contents ← unless_wild (sys.contents name)
    let got = take size contents
    name ← of_access (store (name ++ 0 ∷ []) 0 got)
    (if not (length got == size)
        then null
        else (do imgs ← set_img imgs i (record { name = name; file = file }); done (i + 1, imgs)))

  abbrev load_option : ℕ × List ℕ → ℕ × List (Option Img) → Outcome (ℕ × List (Option Img))
  load_option (c, optarg) r = if c == b'i' then load_img optarg r else done r

  -- `malloc` for the images, which is not tested.
  abbrev pub new_imgs : ℕ → List (Option Img)
  new_imgs n = without_value (malloc (u64 (n * sizeof_img)))

  -- `k` is the fuel for each of the two loops.
  unfoldable pub parse : (G : Getopt) → ℕ → G.State → Outcome Opt
  parse G k s = do
    p_opt ← unless_none (malloc sizeof_opt)
    (s, o) ← scan G (λ c o. done (set_option c o)) k s default_opt
    (if o.img_number == 0 then null else (do
      (s, r) ← scan G load_option k s (0, new_imgs o.img_number)
      done (record o { imgs = r.1 })))

  -- `open_tty` is `open` of the terminal. `input` is what the uninitialised `input_frame` holds.
  unfoldable pub main {ℓ} :
      {S : Type ℓ}
      → (List ℕ → List ℕ)
      → (List ℕ → Bool)
      → (List ℕ → Option S)
      → Tty S
      → Option Frame
      → (G : Getopt) → ℕ
      → G.State
      → ℕ
      → ℕ
      → Frame
      → Files
      → Outcome (Master S)
  main basename opens open_tty tty fresh G k s rounds wait input files = do
    o ← parse G k s
    line ← unless_none (open_tty o.tty)
    of_run (
        serve basename malloc opens o.imgs o.output_dir tty fresh rounds wait (record {
          line = line;
          input_frame = input;
          output_frame = default_frame;
          files = files;
        }))
