-- ===== src/Master.antt =====
-- The master's answer to a request: the case of a request in the loop of `main` of master.c under
-- project-spec/meta-user/recipes-apps/autostart/src.
pub mod Chunks
pub mod Loop
pub mod Main
mod Tests
use deep_space_detection.Base.{
  ℕ, zero, suc, ◌+◌, ◌-◌, ◌/◌, ◌%◌, ◌==◌, if◌then◌else◌, List, length, Option, none, some, Run, ok,
  ◌>>=◌, load, store,
}
use deep_space_detection.Protocol.Frame.{
  Frame, type_request_data, type_transport_data, data_len_max,
}
use deep_space_detection.Protocol.Stream.{Malloc}
use deep_space_detection.Protocol.Link.{Tty, send_frame}

-- `totol_frames`: the bytes of the image in frames of `TP_FRAME_DATA_LEN_MAX`, rounded up.
abbrev pub total_frames : ℕ → ℕ
total_frames size = size / data_len_max + (if size % data_len_max == 0 then 0 else 1)

module _ {ℓ} {S : Type ℓ} (send : S → Frame → Run (S × Option ℕ)) where
  -- What follows `send_frame` in the loop: the result -1 ends it.
  abbrev pub unless_failed : (S → Run (S × Frame)) → Frame → S × Option ℕ → Run (S × Frame)
  unless_failed next output (s, none) = ok (s, output)
  unless_failed next output (s, some n) = next s

  -- One frame of the loop, with the length that it has settled; `next` is the rest of the loop.
  abbrev pub send_chunk :
      (Frame → S → Run (S × Frame)) → ℕ → List ℕ → ℕ → Frame → S → Run (S × Frame)
  send_chunk next data_len img p_file output s = do
    d ← load img p_file data_len
    data_bytes ← store output.data_bytes 0 d
    let output = record output { data_len = data_len; data_bytes = data_bytes }
    r ← send s output
    unless_failed (next output) output r

  -- The loop over the frames of an image, of which `remaining` are left and `i` are sent; `p_file`
  -- is the offset in the image.
  unfoldable pub send_chunks : ℕ → ℕ → List ℕ → ℕ → Frame → S → Run (S × Frame)
  send_chunks zero i img p_file output s = ok (s, output)
  send_chunks (suc remaining) i img p_file output s =
      let size = length img in
      let data_len = if i == total_frames size - 1 then size % data_len_max else output.data_len in
      send_chunk (send_chunks remaining (suc i) img (p_file + data_len)) data_len img p_file output
        s

  -- The case of a request for the image `img`: the line and the frame to send afterwards.
  unfoldable pub answer_request : List ℕ → Frame → Frame → S → Run (S × Frame)
  answer_request img input output s = do
    (s, output) ←
        send_chunks (total_frames (length img)) 0 img 0
          (record output {
            frame_type = type_transport_data;
            n_file = input.n_file;
            data_len = data_len_max;
          })
          s
    let output = record output { frame_type = type_request_data }
    (s, n) ← send s output
    ok (s, output)
