-- ===== src/Slave/Loop/Laws.antt =====
-- What the loop of the slave does to the line and to the files.
use deep_space_detection.Base.{
  replicate-IsBytes, length-replicate, ℕ, zero, suc, ◌+◌, ◌≡◌, ◌==◌, refl, inr, arith, ◌∙◌, Bool,
  List, Option, none, some, Run, Post, Post-if, Post-then, length, leb,
}
use deep_space_detection.Protocol.Frame.{
  Frame, IsFrame, control_resend, type_control, type_request_data, type_transport_data,
}
use deep_space_detection.Protocol.Stream.{Malloc}
use deep_space_detection.Protocol.Link.{Tty, wait_frame}
use deep_space_detection.Protocol.Link.Wait.{Reads, Reads-trans, here, Waited, wait_frame-Reads}
use deep_space_detection.Protocol.Link.Send.{short_line, send_frame-short}
use deep_space_detection.Protocol.Stream.RoundTrip.{Allocates}
use deep_space_detection.Slave.{Files, receive_data}
use deep_space_detection.Slave.Laws.{receive_data_lem}
use deep_space_detection.Slave.Loop.{Slave, default_frame, handle, after_frame, serve, slave}

pub default_frame-IsFrame : IsFrame default_frame
default_frame-IsFrame = record {
  header_length = refl;
  header_bytes = omega arith;
  address_range = omega arith;
  frame_type_range = omega arith;
  n_file_range = omega arith;
  n_frame_range = omega arith;
  data_len_range = omega arith;
  data_length = length-replicate {A = ℕ} 512 0;
  data_range = replicate-IsBytes 512 0 (omega arith);
  check_sum_range = omega arith;
}

-- Since the line `l` there was nothing but reads, and the files are these.
abbrev pub Quiet {ℓ} : {S : Type ℓ} → Tty S → S → Files → Option (Slave S) → Type ℓ
Quiet tty l files none = Unit
Quiet tty l files (some s) = Reads tty l s.line × (s.files ≡ files)

module _ (print : ℕ → List ℕ) (malloc : Malloc) (opens : List ℕ → Bool) (output_dir : List ℕ)
    (sized : (n : ℕ) (a : List ℕ) → malloc n ≡ some a → length a ≡ n) where
  abbrev Unsaved : Files → Files × Frame → Type 0
  Unsaved files r = r.0 ≡ files

  receive_data-at :
      (m : Option (List ℕ)) (input output : Frame) (files : Files)
      → malloc (length output_dir + 4 + 5) ≡ m
      → Post (Unsaved files) (receive_data print malloc opens output_dir input output files)
  unfolding receive_data
  receive_data-at none input output files e = rw e tt
  receive_data-at (some a) input output files e =
      rw (receive_data_lem print malloc opens output_dir a input output files e (sized _ a e))
        (Post-if (Unsaved files) (leb (length (print input.n_file)) 3) _ _ refl tt)

  handle-Unsaved :
      (input output : Frame) (files : Files)
      → Post (Unsaved files) (handle print malloc opens output_dir input output files)
  unfolding handle
  handle-Unsaved input output files =
      Post-if (Unsaved files) (input.frame_type == type_control) _ _ refl (
        Post-if (Unsaved files) (input.frame_type == type_request_data) _ _ refl (
          Post-if (Unsaved files) (input.frame_type == type_transport_data) _ _
            (receive_data-at (malloc (length output_dir + 4 + 5)) input output files refl) refl))

  module _ {ℓ} {S : Type ℓ} (tty : Tty S) (fresh : Option Frame) where
    after_frame-Quiet :
        (l t : S) (old : Files) (output : Frame) (again : Slave S → Run (Option (Slave S)))
        (files : Files) (w : Option (S × Frame × Frame))
        → Reads tty l t
        → files ≡ old
        → Waited tty malloc fresh t output w
        → ((s : Slave S) → Reads tty l s.line → s.files ≡ old → Post (Quiet tty l old) (again s))
        → Post (Quiet tty l old) (after_frame print malloc opens output_dir tty fresh again files w)
    unfolding after_frame
    after_frame-Quiet l t old output again files none reads same waited more = tt
    after_frame-Quiet l t old output again files (some (u, input, output')) reads same waited more =
        Post-then (Unsaved files) (Quiet tty l old)
          (handle print malloc opens output_dir input output' files) _
          (handle-Unsaved input output' files)
          λ r unsaved. more _ (Reads-trans tty malloc fresh reads waited.0) (unsaved ∙ same)

    serve-Quiet :
        (rounds k : ℕ) (l : S) (files : Files) (s : Slave S)
        → Reads tty l s.line
        → s.files ≡ files
        → Post (Quiet tty l files) (serve print malloc opens output_dir tty fresh rounds k s)
    unfolding serve
    serve-Quiet zero k l files s reads same = (reads, same)
    serve-Quiet (suc rounds) k l files s reads same =
        let settled = record s.output_frame {
          frame_type = type_control;
          n_file = control_resend;
        } in
        Post-then (Waited tty malloc fresh s.line settled) (Quiet tty l files)
          (wait_frame tty malloc fresh k s.line s.input_frame s.output_frame) _
          (wait_frame-Reads tty malloc fresh k s.line s.input_frame s.output_frame)
          λ w waited.
            after_frame-Quiet l s.line files settled _ s.files w reads same waited
              (serve-Quiet rounds k l files)

    -- Where `malloc` gives the bytes asked for or fails, and gives them for the first frame:
    -- after the 16 bytes of its first request, the slave only reads from the line, and its files
    -- stay as they were, in any number of rounds that it gets through. It sends no data and
    -- saves none.
    pub slave-Quiet :
        (rounds k : ℕ) (line : S) (input : Frame) (files : Files)
        → Allocates malloc 16
        → Post
            (Quiet tty (tty.write line (short_line default_frame)).0 files)
            (slave print malloc opens output_dir tty fresh rounds k line input files)
    unfolding slave
    slave-Quiet rounds k line input files alloc =
        rw (send_frame-short tty malloc line default_frame default_frame-IsFrame (inr refl) alloc)
          (serve-Quiet rounds k _ files _ here refl)
