-- ===== src/Slave/Main/Laws.antt =====
-- What `parse` and `main` of the slave come to.
use deep_space_detection.Base.{
  inr, inl, ℕ, ◌<◌, ◌≡◌, refl, Bool, List, Option, none, some, Run, ok, fault as run_fault, length,
  Post,
}
use deep_space_detection.Protocol.Frame.{Frame}
use deep_space_detection.Protocol.Stream.{Malloc}
use deep_space_detection.Protocol.Stream.RoundTrip.{Allocates}
use deep_space_detection.Protocol.Link.{Tty}
use deep_space_detection.Protocol.Link.Send.{short_line}
use deep_space_detection.Slave.{Files}
use deep_space_detection.Slave.Loop.{Slave, default_frame, slave}
use deep_space_detection.Slave.Loop.Laws.{Quiet, slave-Quiet}
use deep_space_detection.Options.{
  done, ◌>>=◌, IfDone, Getopt, options, in_turn, of_run, unless_none,
}
use deep_space_detection.Options.Laws.{Option-cases, scan_lem, IfDone-unless_none}
use deep_space_detection.Slave.Main.{Opt, set_option, default_opt, parse, main}

module _ (malloc : Malloc) where
  pub parse_lem :
      (G : Getopt) (k : ℕ) (s : G.State)
      → G.left s < k
      → parse malloc G k s
        ≡ (unless_none (malloc 16) >>= λ p. done (in_turn set_option (options G k s) default_opt))
  unfolding parse
  parse_lem G k s fuel =
      let (t, ends, over) = scan_lem G set_option k s default_opt fuel in rw ends refl

module _ {ℓ} {S : Type ℓ} (open_tty : List ℕ → Option S) (tty : Tty S) where
  -- There is a terminal of this name; since it was opened there was the first request and then
  -- nothing but reads, and the files are these.
  abbrev pub OnlyRequest : List ℕ → Files → Slave S → Type ℓ
  OnlyRequest name files m =
      (line : S) × (open_tty name ≡ some line)
      × Quiet tty (tty.write line (short_line default_frame)).0 files (some m)

module _ (print : ℕ → List ℕ) (malloc : Malloc) (opens : List ℕ → Bool)
    (sized : (n : ℕ) (a : List ℕ) → malloc n ≡ some a → length a ≡ n)
    (alloc : Allocates malloc 16) where
  module _ {ℓ} {S : Type ℓ} (open_tty : List ℕ → Option S) (tty : Tty S)
      (fresh : Option Frame) where
    of_run-OnlyRequest :
        (name : List ℕ) (line : S) (files : Files) (r : Run (Option (Slave S)))
        → open_tty name ≡ some line
        → Post (Quiet tty (tty.write line (short_line default_frame)).0 files) r
        → IfDone (OnlyRequest open_tty tty name files) (of_run r)
    of_run-OnlyRequest name line files run_fault e quiet = tt
    of_run-OnlyRequest name line files (ok none) e quiet = tt
    of_run-OnlyRequest name line files (ok (some m)) e quiet = (line, e, quiet)

    served-OnlyRequest :
        (rounds wait : ℕ) (input : Frame) (files : Files) (o : Opt)
        → IfDone (OnlyRequest open_tty tty o.tty files) (
            unless_none (open_tty o.tty) >>= λ line.
            of_run (slave print malloc opens o.output_dir tty fresh rounds wait line input files))
    served-OnlyRequest rounds wait input files o = elim (Option-cases (open_tty o.tty)) [
      | inl e ↦ rw e tt
      | inr (line, e) ↦ rw e (
          of_run-OnlyRequest o.tty line files _ e (
            slave-Quiet print malloc opens o.output_dir sized tty fresh rounds wait line input files
              alloc))
    ]

    -- Whatever the command line without `--`, the line and the files, where `malloc` gives the
    -- bytes asked for or fails, and gives them for the first frame, and with fuel for more
    -- rounds than there are options: if the slave gets through any number of rounds, there was
    -- the terminal that the options name, after the 16 bytes of the first request there was
    -- nothing but reads, and the files are as before. It sends no data and saves none.
    pub main-OnlyRequest :
        (G : Getopt) (k : ℕ) (s : G.State) (rounds wait : ℕ) (input : Frame) (files : Files)
        → G.left s < k
        → IfDone
            (OnlyRequest open_tty tty (in_turn set_option (options G k s) default_opt).tty files)
            (main print malloc opens open_tty tty fresh G k s rounds wait input files)
    unfolding main
    main-OnlyRequest G k s rounds wait input files fuel = rw (parse_lem malloc G k s fuel) (
        IfDone-unless_none _ (malloc 16) _ _ (
          served-OnlyRequest rounds wait input files
            (in_turn set_option (options G k s) default_opt)))
