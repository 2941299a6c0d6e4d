-- ===== src/Session/Request.antt =====
-- The slave's first request, and what the master makes of it.
use deep_space_detection.Base.{
  ℕ, suc, ◌≤◌, ◌≡◌, refl, ap, inr, ◌∙◌, arith, Bool, List, [], Option, some, Run, ok, fault, ◌>>=◌,
  >>=_assoc, u16, ◌+◌,
}
use deep_space_detection.Protocol.Frame.{Frame, type_control, control_resend}
use deep_space_detection.Protocol.Stream.{Malloc}
use deep_space_detection.Protocol.Stream.RoundTrip.{Allocates, received}
use deep_space_detection.Protocol.Link.{Tty, send_frame}
use deep_space_detection.Protocol.Link.Send.{short_line, send_frame-short}
use deep_space_detection.Protocol.Link.Wait.{
  done, Reads, receive_frame-AtLeastType, wait_frame-arrives,
}
use deep_space_detection.Protocol.Wire.{Wire}
use deep_space_detection.Protocol.Wire.Laws.{check, receive_frame-send_frame}
use deep_space_detection.Slave.{Files}
use deep_space_detection.Slave.Loop.{Slave, slave, serve as serve_slave, default_frame as asking}
use deep_space_detection.Slave.Loop.Laws.{default_frame-IsFrame}
use deep_space_detection.Master.{answer_request}
use deep_space_detection.Master.Loop.{Img, Master, img_at, handle, after_frame, serve}
use deep_space_detection.Master.Loop.Quiet.{AreUnset, img_at-AreUnset}

module _ {ℓ} {S : Type ℓ} (near far : Tty S) (W : Wire near far) (malloc : Malloc) (fresh : Frame)
    (alloc : (n : ℕ) → n ≤ 530 → Allocates malloc n) where
  -- The request as the master has it.
  abbrev pub asked : Frame
  asked =
      received fresh asking
        (check near far W malloc fresh asking default_frame-IsFrame refl (inr refl) alloc)

  module _ (print : ℕ → List ℕ) (opens : List ℕ → Bool) (slave_dir : List ℕ)
      (slave_fresh : Option Frame) where
    -- The slave up to its loop.
    abbrev pub start : ℕ → S → Frame → Files → Run (Option (Slave S))
    start k s input files = slave print malloc opens slave_dir near slave_fresh 0 k s input files

    -- What it has written by then.
    pub started :
        (k : ℕ) (s : S) (input : Frame) (files : Files)
        → start k s input files
          ≡ ok (
              some (record {
                line = (near.write s (short_line asking)).0;
                input_frame = input;
                output_frame = asking;
                files = files;
              }))
    unfolding slave serve_slave
    started k s input files =
        rw
          (send_frame-short near malloc s asking default_frame-IsFrame (inr refl)
            (alloc 16 (omega arith)))
          refl

  module _ (basename : List ℕ → List ℕ) (opens : List ℕ → Bool) (imgs : List (Option Img))
      (output_dir : List ℕ) where
    abbrev pub resending : Frame → Frame
    resending o = record o { frame_type = type_control; n_file = control_resend }

    -- The rounds behind the switch.
    abbrev next_round : ℕ → ℕ → S × Frame × Files → Run (Option (Master S))
    next_round rounds k r =
        serve basename malloc opens imgs output_dir far (some fresh) rounds (suc k) (record {
          line = r.0;
          input_frame = asked;
          output_frame = record r.1 { n_frame = u16 (r.1.n_frame + 1) };
          files = r.2;
        })

    -- Once the first request was written to an empty line, the master takes it.
    serve-request :
        (rounds k : ℕ) (s : S) (input output : Frame) (files : Files)
        → W.held s ≡ []
        → (u : S) × Reads far (near.write s (short_line asking)).0 u
          × (serve basename malloc opens imgs output_dir far
                (some fresh)
                (suc rounds)
                (suc k)
                (record {
                  line = (near.write s (short_line asking)).0;
                  input_frame = input;
                  output_frame = output;
                  files = files;
                })
              ≡ (handle basename malloc opens imgs output_dir far
                    (some fresh)
                    u
                    asked
                    (resending output)
                    files
                  >>= next_round rounds k))
    unfolding serve after_frame
    serve-request rounds k s input output files e =
        let (u, _, r, empty) =
          receive_frame-send_frame near far W malloc fresh asking default_frame-IsFrame refl
            (inr refl) alloc s input e in
        let reads =
          receive_frame-AtLeastType far malloc (some fresh) (near.write s (short_line asking)).0
            input in
        (
          u,
          (rw r at reads).0,
          rw (wait_frame-arrives far malloc (some fresh) (suc k) 0 15 output done r (omega arith))
              refl,
        )

    -- Over an empty line, where `malloc` finds up to 530 bytes: the slave's start writes its
    -- first request, and a master whose images have no value runs into undefined behaviour in
    -- the round in which the request comes.
    pub request-AreUnset :
        (print : ℕ → List ℕ) (saves : List ℕ → Bool) (slave_dir : List ℕ)
        (slave_fresh : Option Frame) (rounds k wait : ℕ) (s : S) (input mine output : Frame)
        (files saved : Files)
        → AreUnset imgs
        → W.held s ≡ []
        → (sl : Slave S) × (start print saves slave_dir slave_fresh wait s mine saved
            ≡ ok (some sl))
          × (serve basename malloc opens imgs output_dir far
                (some fresh)
                (suc rounds)
                (suc k)
                (record {
                  line = sl.line;
                  input_frame = input;
                  output_frame = output;
                  files = files;
                })
              ≡ fault)
    unfolding handle
    request-AreUnset print saves slave_dir slave_fresh rounds k wait s input mine output files saved
          unset e =
        let (u, _, run) = serve-request rounds k s input output files e in
        (
          _,
          started print saves slave_dir slave_fresh wait s mine saved,
          run ∙ (rw (img_at-AreUnset imgs 0 unset) refl),
        )

    -- The answer to a request for the first image.
    handle-asked :
        (u : S) (img : Img) (output : Frame) (files : Files)
        → img_at imgs 0 ≡ ok img
        → handle basename malloc opens imgs output_dir far (some fresh) u asked output files ≡ (
            answer_request (send_frame far malloc) img.file asked output u >>= λ r.
            ok (r.0, r.1, files))
    unfolding handle
    handle-asked u img output files e = rw e refl

    pub serve-answers :
        (k : ℕ) (img : Img) (s : S) (input output : Frame) (files : Files)
        → img_at imgs 0 ≡ ok img
        → W.held s ≡ []
        → (u : S) × Reads far (near.write s (short_line asking)).0 u
          × (serve basename malloc opens imgs output_dir far (some fresh) 1 (suc k) (record {
            line = (near.write s (short_line asking)).0;
            input_frame = input;
            output_frame = output;
            files = files;
          })
              ≡ (answer_request (send_frame far malloc) img.file asked (resending output) u >>= λ r.
                  ok (
                    some (record {
                      line = r.0;
                      input_frame = asked;
                      output_frame = record r.1 { n_frame = u16 (r.1.n_frame + 1) };
                      files = files;
                    }))))
    unfolding serve
    serve-answers k img s input output files e empty =
        let (u, reads, run) = serve-request 0 k s input output files empty in
        (
          u,
          reads,
          run
              ∙ ap (λ m. m >>= next_round 0 k) (handle-asked u img (resending output) files e)
              ∙ >>=_assoc
                  (answer_request (send_frame far malloc) img.file asked (resending output) u) _
                  (next_round 0 k),
        )
