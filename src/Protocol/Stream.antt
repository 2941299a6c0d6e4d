-- ===== src/Protocol/Stream.antt =====
-- Frames to bytes and back, over bounded buffers. What `malloc` returns is an argument: an object
-- or array with indeterminate contents, or `none` for a null pointer. Memory is little-endian, as
-- on the boards of the README and on a PC. Memory that is never freed is not modelled.
pub mod Layout
pub mod RoundTrip
pub mod Transport
pub mod Misread
pub mod Accept
use deep_space_detection.Base.{
  ℕ, ◌+◌, List, Option, none, some, ◌==◌, bytes_eq, if◌then◌else◌, le16, le32, of_le, Run, ok,
  fault, ◌>>=◌, load, store,
}
use deep_space_detection.Crc.{crc16}
use deep_space_detection.Protocol.Frame.{
  Frame, tp_header, type_control, type_request_data, type_transport_data, data_len_max,
}

-- `malloc(n)` for a byte array.
abbrev pub Malloc : Type 0
Malloc = ℕ → Option (List ℕ)

-- The part that only a data frame has, at the cursor `p`. Only `data_len` bytes are written, and
-- the cursor moves by `TP_FRAME_DATA_LEN_MAX`.
pub data2bit_stream : Frame → ℕ → List ℕ → Run (ℕ × List ℕ)
data2bit_stream f p s = do
  s ← store s p (le16 f.data_len)
  d ← load f.data_bytes 0 f.data_len
  s ← store s (p + 2) d
  ok (p + 2 + data_len_max, s)

-- `frame_without_check_sum2bit_stream`: the cursor's distance, and the buffer. Both cases of the
-- switch on the union copy the same bytes.
unfoldable pub frame_without_check_sum2bit_stream : Frame → List ℕ → Run (ℕ × List ℕ)
unfolding data2bit_stream
frame_without_check_sum2bit_stream f s = do
  s ← store s 0 f.header
  s ← store s 4 (le16 f.address)
  s ← store s 6 (le16 f.frame_type)
  s ← store s 8 (le32 f.n_file)
  s ← store s 12 (le16 f.n_frame)
  if f.frame_type == type_transport_data then data2bit_stream f 14 s else ok (14, s)

unfoldable pub frame2bit_stream : Frame → List ℕ → Run (ℕ × List ℕ)
frame2bit_stream f s = do
  (size, s) ← frame_without_check_sum2bit_stream f s
  check_sum ← crc16 s size
  s ← store s size (le16 check_sum)
  ok (size + 2, s)

read_n_file : Frame → ℕ → List ℕ → Run (Option (Frame × ℕ))
read_n_file f p s = do n ← load s p 4; ok (some (record f { n_file = of_le n }, p + 4))

read_data : Frame → ℕ → List ℕ → Run Frame
read_data f p s = do
  l ← load s p 2
  d ← load s (p + 2) (of_le l)
  data_bytes ← store f.data_bytes 0 d
  ok (record f { data_len = of_le l; data_bytes = data_bytes })

-- The switch on the frame type: the case of a data frame falls through to that of a request.
-- `none` is the default case, which returns `NULL`.
read_body : Frame → ℕ → List ℕ → Run (Option (Frame × ℕ))
unfolding read_n_file read_data
read_body f p s =
    if f.frame_type == type_control
    then read_n_file f p s
    else if f.frame_type == type_transport_data
    then (do f ← read_data f p s; read_n_file f (p + 2 + data_len_max) s)
    else if f.frame_type == type_request_data
    then read_n_file f p s
    else ok none

-- The checksum is recomputed over the frame written back into `temp`; `none` is a null pointer.
verify_in : Frame → Option (List ℕ) → Run (Option Frame)
verify_in f none = ok none
verify_in f (some temp) = do
  (size, temp) ← frame_without_check_sum2bit_stream f temp
  check_sum ← crc16 temp size
  ok (if f.check_sum == check_sum then some f else none)

verify : Malloc → Frame → ℕ → Run (Option Frame)
unfolding verify_in
verify malloc f n = verify_in f (malloc n)

-- From the cursor behind the switch to the end.
read_tail : Malloc → List ℕ → Option (Frame × ℕ) → Run (Option Frame)
unfolding verify
read_tail malloc s none = ok none
read_tail malloc s (some (f, p)) = do
  n ← load s p 2
  c ← load s (p + 2) 2
  verify malloc (record f { n_frame = of_le n; check_sum = of_le c }) (p + 2)

-- From behind the header to the end.
read_fields : Malloc → Frame → List ℕ → Run (Option Frame)
unfolding read_body read_tail
read_fields malloc f s = do
  address ← load s 4 2
  frame_type ← load s 6 2
  body ← read_body (record f { address = of_le address; frame_type = of_le frame_type }) 8 s
  read_tail malloc s body

-- `bit_stream2frame`, where `p_frame` is the frame that its first `malloc` returns. The result
-- `ok none` is `NULL`. Of a wrong header both arrays are printed by `%s`, and neither is terminated.
unfoldable pub bit_stream2frame : Malloc → Option Frame → List ℕ → Run (Option Frame)
unfolding read_fields
bit_stream2frame malloc none s = fault
bit_stream2frame malloc (some f) s = do
  header ← load s 0 4
  if bytes_eq header tp_header then read_fields malloc (record f { header = header }) s else fault
