-- ===== src/Master/Loop.antt =====
-- The master's loop of `main` of master.c, around `wait_frame`: the switch on the type, and the
-- case of a frame of data. `basename` is the C library's, and `opens` tells for which names `fopen`
-- succeeds.
pub mod Laws
pub mod Quiet
use deep_space_detection.Base.{
  ℕ, zero, suc, ◌+◌, ◌==◌, if◌then◌else◌, Bool, List, [], ◌∷◌, ◌++◌, length, replicate, Option,
  none, some, Run, ok, fault, ◌>>=◌, load, store, u16,
}
use deep_space_detection.Protocol.Frame.{
  Frame, tp_header, address_master, type_request_data, type_transport_data,
}
use deep_space_detection.Protocol.Stream.{Malloc}
use deep_space_detection.Protocol.Link.{Tty, send_frame, wait_frame, unless_null}
use deep_space_detection.Slave.{Files, append_to}
use deep_space_detection.Master.{answer_request}

abbrev pub default_frame : Frame
default_frame = record {
  header = tp_header;
  address = address_master;
  frame_type = 0;
  n_file = 0;
  n_frame = 0;
  data_len = 0;
  data_bytes = replicate 512 0;
  check_sum = 0;
}

-- `img_t`; the size is the length of the file.
pub record Img : Type 0 where
  pub name : List ℕ
  pub file : List ℕ

-- `p_opt->imgs[n]`; `none` is an element that was never given a value.
abbrev pub img_at : List (Option Img) → ℕ → Run Img
img_at [] n = fault
img_at (none ∷ is) zero = fault
img_at (some i ∷ is) zero = ok i
img_at (i ∷ is) (suc n) = img_at is n

abbrev pub bin : List ℕ
bin = b'.' ∷ b'b' ∷ b'i' ∷ b'n' ∷ []

-- What the loop changes: the line, the two frames, and the files.
pub record Master {ℓ} (S : Type ℓ) : Type ℓ where
  pub line : S
  pub input_frame : Frame
  pub output_frame : Frame
  pub files : Files

module _ (basename : List ℕ → List ℕ) (malloc : Malloc) (opens : List ℕ → Bool)
    (imgs : List (Option Img)) (output_dir : List ℕ) where
  -- What `sprintf` writes, less the zero at its end.
  abbrev pub file_name : Img → List ℕ
  file_name img = output_dir ++ (b'/' ∷ basename img.name ++ bin)

  abbrev pub append_data : Frame → List ℕ → Files → Run Files
  append_data input name files = do
    d ← load input.data_bytes 0 input.data_len
    ok (append_to name d files)

  unfoldable pub receive_data : Frame → Files → Run Files
  receive_data input files = do
    img ← img_at imgs input.n_file
    let len = length output_dir + length (basename img.name) + 5
    buffer ← unless_null (malloc len)
    buffer ← store buffer 0 (file_name img ++ 0 ∷ [])
    (if length (file_name img) == len
        then (if opens (file_name img) then append_data input (file_name img) files else ok files)
        else ok files)

  module _ {ℓ} {S : Type ℓ} (tty : Tty S) (fresh : Option Frame) where
    -- The switch: the line, the frame to send and the files afterwards.
    unfoldable pub handle : S → Frame → Frame → Files → Run (S × Frame × Files)
    handle line input output files =
        if input.frame_type == type_request_data
        then (do
          img ← img_at imgs input.n_file
          (line, output) ← answer_request (send_frame tty malloc) img.file input output line
          ok (line, output, files))
        else if input.frame_type == type_transport_data
        then (do files ← receive_data input files; ok (line, output, files))
        else ok (line, output, files)

    -- The rest of a round, after `wait_frame`.
    unfoldable pub after_frame :
        (Master S → Run (Option (Master S)))
        → Files
        → Option (S × Frame × Frame)
        → Run (Option (Master S))
    after_frame again files none = ok none
    after_frame again files (some (line, input, output)) = do
      (line, output, files) ← handle line input output files
      again (record {
        line = line;
        input_frame = input;
        output_frame = record output { n_frame = u16 (output.n_frame + 1) };
        files = files;
      })

    -- The loop, for a number of rounds, each with fuel `k` for its wait. `none`: a wait has not
    -- ended.
    unfoldable pub serve : ℕ → ℕ → Master S → Run (Option (Master S))
    serve zero k s = ok (some s)
    serve (suc rounds) k s = do
      w ← wait_frame tty malloc fresh k s.line s.input_frame s.output_frame
      after_frame (serve rounds k) s.files w
