-- ===== src/Slave/Loop.antt =====
-- The slave's `main` of main.c from the open terminal on: its first request, and the loop around
-- `wait_frame`. The two frames start as the arguments say.
pub mod Laws
use deep_space_detection.Base.{
  ℕ, zero, suc, ◌+◌, ◌==◌, if◌then◌else◌, Bool, List, replicate, Option, none, some, Run, ok, ◌>>=◌,
  u16,
}
use deep_space_detection.Protocol.Frame.{
  Frame, tp_header, address_slave, type_control, type_request_data, type_transport_data,
  data_len_max,
}
use deep_space_detection.Protocol.Stream.{Malloc}
use deep_space_detection.Protocol.Link.{Tty, send_frame, wait_frame}
use deep_space_detection.Slave.{Files, receive_data}

abbrev pub default_frame : Frame
default_frame = record {
  header = tp_header;
  address = address_slave;
  frame_type = type_request_data;
  n_file = 0;
  n_frame = 0;
  data_len = 0;
  data_bytes = replicate 512 0;
  check_sum = 0;
}

-- The line, the two frames and the files.
pub record Slave {ℓ} (S : Type ℓ) : Type ℓ where
  pub line : S
  pub input_frame : Frame
  pub output_frame : Frame
  pub files : Files

module _ (print : ℕ → List ℕ) (malloc : Malloc) (opens : List ℕ → Bool) (output_dir : List ℕ) where
  -- The switch on the type of the frame that has come.
  unfoldable pub handle : Frame → Frame → Files → Run (Files × Frame)
  handle input output files =
      if input.frame_type == type_control
      then ok (files, output)
      else if input.frame_type == type_request_data
      then ok (
        files,
        record output {
          frame_type = type_transport_data;
          n_file = input.n_file;
          data_len = data_len_max;
        },
      )
      else if input.frame_type == type_transport_data
      then receive_data print malloc opens output_dir input output files
      else ok (files, output)

  module _ {ℓ} {S : Type ℓ} (tty : Tty S) (fresh : Option Frame) where
    -- The rest of a round, after `wait_frame`.
    unfoldable pub after_frame :
        (Slave S → Run (Option (Slave S)))
        → Files
        → Option (S × Frame × Frame)
        → Run (Option (Slave S))
    after_frame again files none = ok none
    after_frame again files (some (line, input, output)) = do
      (files, output) ← handle input output files
      again (record {
        line = line;
        input_frame = input;
        output_frame = record output { n_frame = u16 (output.n_frame + 1) };
        files = files;
      })

    -- The loop, for a number of rounds, each with fuel `k` for its wait. `none`: a wait has not
    -- ended.
    unfoldable pub serve : ℕ → ℕ → Slave S → Run (Option (Slave S))
    serve zero k s = ok (some s)
    serve (suc rounds) k s = do
      w ← wait_frame tty malloc fresh k s.line s.input_frame s.output_frame
      after_frame (serve rounds k) s.files w

    -- The result of the first `send_frame` is not looked at.
    unfoldable pub slave : ℕ → ℕ → S → Frame → Files → Run (Option (Slave S))
    slave rounds k line input files = do
      (line, _) ← send_frame tty malloc line default_frame
      serve rounds k
          (record { line = line; input_frame = input; output_frame = default_frame; files = files })
