-- ===== src/Master/Loop/Quiet.antt =====
-- The loop of the master while its images have no value.
use deep_space_detection.Base.{
  All, ℕ, zero, suc, ◌≡◌, refl, sym, ◌∙◌, ◌==◌, Bool, List, [], ◌∷◌, Option, none, some, Run, fault,
  length, Post, Post-if, Post-then,
}
use mathlib.Core.Path.{subst}
use deep_space_detection.Protocol.Frame.{
  Frame, type_control, type_request_data, type_transport_data, control_resend,
}
use deep_space_detection.Protocol.Stream.{Malloc}
use deep_space_detection.Protocol.Link.{Tty, wait_frame}
use deep_space_detection.Protocol.Link.Wait.{Reads, Reads-trans, Waited, wait_frame-Reads}
use deep_space_detection.Slave.{Files}
use deep_space_detection.Master.Loop.{Img, img_at, Master, handle, after_frame, serve}
use deep_space_detection.Master.Loop.Laws.{receive_data-fault}

abbrev pub AreUnset : List (Option Img) → Type 0
AreUnset = All (λ i. i ≡ none)

pub img_at-AreUnset : (imgs : List (Option Img)) (n : ℕ) → AreUnset imgs → img_at imgs n ≡ fault
img_at-AreUnset [] n h = refl
img_at-AreUnset (none ∷ is) zero h = refl
img_at-AreUnset (some i ∷ is) zero h = absurd (cc h.0)
img_at-AreUnset (i ∷ is) (suc n) h = img_at-AreUnset is n h.1

-- Since the line `l` there was nothing but reads, and the files are these.
abbrev pub Quiet {ℓ} : {S : Type ℓ} → Tty S → S → Files → Option (Master S) → Type ℓ
Quiet tty l files none = Unit
Quiet tty l files (some s) = Reads tty l s.line × (s.files ≡ files)

module _ (basename : List ℕ → List ℕ) (malloc : Malloc) (opens : List ℕ → Bool)
    (imgs : List (Option Img)) (output_dir : List ℕ) (unset : AreUnset imgs)
    (sized : (n : ℕ) (a : List ℕ) → malloc n ≡ some a → length a ≡ n) where
  module _ {ℓ} {S : Type ℓ} (tty : Tty S) (fresh : Option Frame) where
    abbrev Kept : S → Files → S × Frame × Files → Type ℓ
    Kept line files r = (r.0 ≡ line) × (r.2 ≡ files)

    handle-Kept :
        (line : S) (input output : Frame) (files : Files)
        → Post
            (Kept line files)
            (handle basename malloc opens imgs output_dir tty fresh line input output files)
    unfolding handle
    handle-Kept line input output files =
        rw
          (
            img_at-AreUnset imgs input.n_file unset,
            receive_data-fault basename malloc opens imgs output_dir sized input files,
          )
          (Post-if (Kept line files) (input.frame_type == type_request_data) _ _ tt (
            Post-if (Kept line files) (input.frame_type == type_transport_data) _ _ tt
              (refl, refl)))

    after_frame-Quiet :
        (l t : S) (old : Files) (output : Frame) (again : Master S → Run (Option (Master S)))
        (files : Files) (w : Option (S × Frame × Frame))
        → Reads tty l t
        → files ≡ old
        → Waited tty malloc fresh t output w
        → ((s : Master S) → Reads tty l s.line → s.files ≡ old → Post (Quiet tty l old) (again s))
        → Post
            (Quiet tty l old)
            (after_frame basename malloc opens imgs output_dir tty fresh again files w)
    unfolding after_frame
    after_frame-Quiet l t old output again files none reads same waited more = tt
    after_frame-Quiet l t old output again files (some (u, input, output')) reads same waited more =
        Post-then (Kept u files) (Quiet tty l old)
          (handle basename malloc opens imgs output_dir tty fresh u input output' files) _
          (handle-Kept u input output' files)
          λ r (line, kept).
            more _ (subst (Reads tty l) (sym line) (Reads-trans tty malloc fresh reads waited.0))
              (kept ∙ same)

    pub serve-Quiet :
        (rounds k : ℕ) (l : S) (files : Files) (s : Master S)
        → Reads tty l s.line
        → s.files ≡ files
        → Post
            (Quiet tty l files)
            (serve basename malloc opens imgs output_dir tty fresh rounds k s)
    unfolding serve
    serve-Quiet zero k l files s reads same = (reads, same)
    serve-Quiet (suc rounds) k l files s reads same =
        let settled = record s.output_frame {
          frame_type = type_control;
          n_file = control_resend;
        } in
        Post-then (Waited tty malloc fresh s.line settled) (Quiet tty l files)
          (wait_frame tty malloc fresh k s.line s.input_frame s.output_frame) _
          (wait_frame-Reads tty malloc fresh k s.line s.input_frame s.output_frame)
          λ w waited.
            after_frame-Quiet l s.line files settled _ s.files w reads same waited
              (serve-Quiet rounds k l files)
