-- ===== src/Master/Main/Laws.antt =====
-- What `parse` and `main` of the master come to.
use deep_space_detection.Base.{
  inr, inl, ℕ, zero, suc, ◌*◌, ◌/◌, u64, ◌<◌, ◌≡◌, refl, ◌==◌, arith, Bool, true, false,
  if◌then◌else◌, List, replicate, Option, none, some, Run, ok, fault as run_fault, length, Post,
}
use deep_space_detection.Protocol.Frame.{Frame}
use deep_space_detection.Protocol.Stream.{Malloc}
use deep_space_detection.Protocol.Link.{Tty}
use deep_space_detection.Protocol.Link.Wait.{here}
use deep_space_detection.Slave.{Files}
use deep_space_detection.Master.Loop.{default_frame, Master, serve}
use deep_space_detection.Master.Loop.Quiet.{AreUnset, Quiet, serve-Quiet}
use deep_space_detection.Options.{
  Outcome, done, null, ◌>>=◌, IfDone, Getopt, options, in_turn, of_run, unless_none,
}
use deep_space_detection.Options.Laws.{
  IfDone-unless_none, Option-cases, scan_lem, scan_again, IfDone-unless_none,
}
use deep_space_detection.Master.Main.{
  Opt, System, set_option, default_opt, load_option, without_value, new_imgs, parse, main,
}

replicate-AreUnset : (n : ℕ) → AreUnset (replicate n none)
replicate-AreUnset zero = tt
replicate-AreUnset (suc n) = (refl, replicate-AreUnset n)

without_value-AreUnset : (m : Option (List ℕ)) → AreUnset (without_value m)
without_value-AreUnset none = tt
without_value-AreUnset (some a) = replicate-AreUnset (length a / 24)

module _ (sys : System) (malloc : Malloc) where
  new_imgs-AreUnset : (n : ℕ) → AreUnset (new_imgs sys malloc n)
  new_imgs-AreUnset n = without_value-AreUnset (malloc (u64 (n * 24)))

  -- The options, each in its turn, and images without a value.
  abbrev pub chosen : Opt → Outcome Opt
  chosen o =
      if o.img_number == 0
      then null
      else done (record o { imgs = new_imgs sys malloc o.img_number })

  -- On a command line without `--`, with fuel for more rounds than there are options, the
  -- master's `parse` ends: it is NULL if `malloc` fails, or if the options, each in its turn,
  -- leave no image counted; and otherwise those options, with memory for the images that has no
  -- value in it. No image is loaded, and none can fail to load.
  pub parse_lem :
      (G : Getopt) (k : ℕ) (s : G.State)
      → G.left s < k
      → parse sys malloc G k s
        ≡ (unless_none (malloc 32) >>= λ p. chosen (in_turn set_option (options G k s) default_opt))
  unfolding parse
  parse_lem G zero s fuel = absurd (omega arith)
  parse_lem G (suc k) s fuel =
      let (t, ends, over) = scan_lem G set_option (suc k) s default_opt fuel in
      let n = (in_turn set_option (options G (suc k) s) default_opt).img_number in
      rw (ends, scan_again G (load_option sys malloc) k t (0, new_imgs sys malloc n) over) refl

  module _ {ℓ} {S : Type ℓ} (open_tty : List ℕ → Option S) (tty : Tty S) where
    -- There is a terminal of this name; since it was opened there was nothing but reads, and the
    -- files are these.
    abbrev pub OnlyReads : List ℕ → Files → Master S → Type ℓ
    OnlyReads name files m =
        (line : S) × (open_tty name ≡ some line) × Quiet tty line files (some m)

  module _ (basename : List ℕ → List ℕ) (opens : List ℕ → Bool)
      (sized : (n : ℕ) (a : List ℕ) → malloc n ≡ some a → length a ≡ n) where
    module _ {ℓ} {S : Type ℓ} (open_tty : List ℕ → Option S) (tty : Tty S)
        (fresh : Option Frame) where
      of_run-OnlyReads :
          (name : List ℕ) (line : S) (files : Files) (r : Run (Option (Master S)))
          → open_tty name ≡ some line
          → Post (Quiet tty line files) r
          → IfDone (OnlyReads open_tty tty name files) (of_run r)
      of_run-OnlyReads name line files run_fault e quiet = tt
      of_run-OnlyReads name line files (ok none) e quiet = tt
      of_run-OnlyReads name line files (ok (some m)) e quiet = (line, e, quiet)

      -- `main`, behind `parse`.
      abbrev served : ℕ → ℕ → Frame → Files → Opt → Outcome (Master S)
      served rounds wait input files o = unless_none (open_tty o.tty) >>= λ line. of_run (
          serve basename malloc opens o.imgs o.output_dir tty fresh rounds wait (record {
            line = line;
            input_frame = input;
            output_frame = default_frame;
            files = files;
          }))

      served-OnlyReads :
          (rounds wait : ℕ) (input : Frame) (files : Files) (o : Opt)
          → AreUnset o.imgs
          → IfDone (OnlyReads open_tty tty o.tty files) (served rounds wait input files o)
      served-OnlyReads rounds wait input files o unset = elim (Option-cases (open_tty o.tty)) [
        | inl e ↦ rw e tt
        | inr (line, e) ↦
            let quiet =
              serve-Quiet basename malloc opens o.imgs o.output_dir unset sized tty fresh rounds
                wait line files
                (record {
                  line = line;
                  input_frame = input;
                  output_frame = default_frame;
                  files = files;
                })
                here refl in
            rw e (of_run-OnlyReads o.tty line files _ e quiet)
      ]

      chosen-OnlyReads :
          (rounds wait : ℕ) (input : Frame) (files : Files) (o : Opt)
          → IfDone
              (OnlyReads open_tty tty o.tty files)
              (chosen o >>= served rounds wait input files)
      chosen-OnlyReads rounds wait input files o =
          elim (o.img_number == 0)
            as (λ b. IfDone (OnlyReads open_tty tty o.tty files) (
              (if b then null else done (record o { imgs = new_imgs sys malloc o.img_number }))
              >>= served rounds wait input files)) [
                | true ↦ tt
                | false ↦
                    served-OnlyReads rounds wait input files
                      (record o { imgs = new_imgs sys malloc o.img_number })
                      (new_imgs-AreUnset o.img_number)
              ]

      -- Whatever the command line without `--`, the images, the line and the files, where
      -- `malloc` gives the bytes asked for or fails, and with fuel for more rounds than there
      -- are options: if the master gets through any number of rounds, there was the terminal
      -- that the options name, since it was opened there was nothing but reads, and the files
      -- are as before. It answers no request.
      pub main-OnlyReads :
          (G : Getopt) (k : ℕ) (s : G.State) (rounds wait : ℕ) (input : Frame) (files : Files)
          → G.left s < k
          → IfDone
              (OnlyReads open_tty tty (in_turn set_option (options G k s) default_opt).tty files)
              (main sys malloc basename opens open_tty tty fresh G k s rounds wait input files)
      unfolding main
      main-OnlyReads G k s rounds wait input files fuel = rw (parse_lem G k s fuel) (
          IfDone-unless_none _ (malloc 32) _ _ (
            chosen-OnlyReads rounds wait input files
              (in_turn set_option (options G k s) default_opt)))
