-- ===== src/Session/Exchange.antt =====
-- The slave's first request and the master's answer to it, over one line.
use deep_space_detection.Base.{
  ℕ, suc, ◌+◌, ◌*◌, ◌≡◌, ◌≤◌, ◌∙◌, refl, ap, sym, arith, List, [], length, Bool, u16, Option, some,
  ok, IsBytes,
}
use deep_space_detection.Protocol.Frame.{Frame, IsFrame, type_control, control_resend}
use deep_space_detection.Protocol.Frame.Ranges.{in_range, set_type, set_n_file}
use deep_space_detection.Protocol.Stream.{Malloc}
use deep_space_detection.Protocol.Stream.Layout.{command_bytes, command_bytes-IsBytes}
use deep_space_detection.Protocol.Stream.RoundTrip.{Allocates}
use deep_space_detection.Protocol.Link.{Tty}
use deep_space_detection.Protocol.Link.Send.{short_line}
use deep_space_detection.Protocol.Link.Wait.{Reads, here, next}
use deep_space_detection.Protocol.Wire.{Wire}
use deep_space_detection.Slave.{Files}
use deep_space_detection.Slave.Loop.{Slave, default_frame}
use deep_space_detection.Slave.Loop.Laws.{default_frame-IsFrame}
use deep_space_detection.Master.Loop.{Img, img_at, Master, serve}
use deep_space_detection.Session.Answer.{answer_request-Grows}
use deep_space_detection.Session.Request.{asked, start, started, serve-answers}
use deep_space_detection.Crc.Detect.{modbus-lt}
use deep_space_detection.Master.{total_frames}

module _ {ℓ} {S : Type ℓ} (near far : Tty S) (W : Wire near far) (V : Wire far near)
    (malloc : Malloc) (fresh : Frame) (alloc : (n : ℕ) → n ≤ 530 → Allocates malloc n)
    (whole : (s : S) (out : List ℕ) → (far.write s out).1 ≡ some (length out)) where
  held-Reads : {s t : S} → Reads far s t → V.held t ≡ V.held s
  held-Reads here = refl
  held-Reads (next n r e) = sym (ap V.held e) ∙ V.held-read_back _ n ∙ held-Reads r

  asked-IsFrame : IsFrame fresh → IsFrame (asked near far W malloc fresh alloc)
  asked-IsFrame h =
      let d = default_frame-IsFrame in
      in_range (asked near far W malloc fresh alloc) d.header_length d.header_bytes d.address_range
        d.frame_type_range d.n_file_range d.n_frame_range h.data_len_range h.data_length
        h.data_range
        (modbus-lt (command_bytes default_frame)
          (command_bytes-IsBytes default_frame d.header_bytes))

  module _ (basename : List ℕ → List ℕ) (opens : List ℕ → Bool) (imgs : List (Option Img))
      (output_dir : List ℕ) where
    -- Over a line with nothing on it that takes all that is written, where `malloc` finds up to
    -- 530 bytes: the slave's start writes its first request, and a master with a first image of
    -- bytes, and with frames in the ranges of their types, answers it in its next round. The
    -- round ends, and on the way to the slave there are then 530 bytes for each frame of the
    -- image, its size in units of 512 bytes, rounded up, and the 16 bytes of a request.
    pub request-answered :
        (print : ℕ → List ℕ) (saves : List ℕ → Bool) (slave_dir : List ℕ)
        (slave_fresh : Option Frame) (k wait : ℕ) (img : Img) (s : S) (input mine output : Frame)
        (files saved : Files)
        → img_at imgs 0 ≡ ok img
        → IsBytes img.file
        → IsFrame fresh
        → IsFrame output
        → W.held s ≡ []
        → V.held s ≡ []
        → (sl : Slave S) × (m : Master S) × (start near far W malloc fresh alloc print saves
              slave_dir slave_fresh wait s mine saved
            ≡ ok (some sl))
          × (serve basename malloc opens imgs output_dir far (some fresh) 1 (suc k) (record {
            line = sl.line;
            input_frame = input;
            output_frame = output;
            files = files;
          })
              ≡ ok (some m))
          × (length (V.held m.line) ≡ total_frames (length img.file) * 530 + 16)
    request-answered print saves slave_dir slave_fresh k wait img s input mine output files saved e
          bytes hf ho empty silent =
        let sent = (near.write s (short_line default_frame)).0 in
        let (u, reads, run) =
          serve-answers near far W malloc fresh alloc basename opens imgs output_dir k img s input
            output files e empty in
        let typed = set_type output ho type_control (omega arith) in
        let resends =
          set_n_file (record output { frame_type = type_control }) typed control_resend
            (omega arith) in
        let (t, out, _, grows, answer) =
          answer_request-Grows far near V malloc alloc whole img.file _ _ u bytes (asked-IsFrame hf)
            resends in
        let quiet : V.held u ≡ [] =
          held-Reads reads ∙ V.held-write_back s (short_line default_frame) ∙ silent in
        (
          _,
          record {
            line = t;
            input_frame = asked near far W malloc fresh alloc;
            output_frame = record out { n_frame = u16 (out.n_frame + 1) };
            files = files;
          },
          started near far W malloc fresh alloc print saves slave_dir slave_fresh wait s mine saved,
          run ∙ (rw answer refl),
          omega (arith, grows, ap length quiet),
        )
