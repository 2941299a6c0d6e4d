-- ===== src/Protocol/Tests.antt =====
-- Runs of the protocol's functions, the request of transmission_protocol_test.cc among them.
use deep_space_detection.Base.{
  ◌==◌, if◌then◌else◌, ◌∙◌, ◌∙◌, ap, Option, sym, replicate-IsBytes, ◌%◌, none, drop, arith, fault,
  le16, ◌^◌, IsBytes, inr, ◌++◌, ◌<◌, ℕ, ◌≡◌, refl, List, [], ◌∷◌, some, replicate, ok, load, store,
  drop, length-replicate, inr, length,
}
use deep_space_detection.Crc.{crc16}
use deep_space_detection.Protocol.Frame.{IsFrame, Frame, tp_header}
use deep_space_detection.Protocol.Stream.{
  Malloc, frame_without_check_sum2bit_stream, frame2bit_stream, bit_stream2frame,
}
use deep_space_detection.Protocol.Stream.Layout.{command_bytes, frame2bit_stream-short}
use deep_space_detection.Protocol.Stream.Transport.{
  transport_bytes, padding, frame2bit_stream-transport,
}
use deep_space_detection.Protocol.Stream.RoundTrip.{
  Allocates, received, bit_stream2frame-frame2bit_stream, bit_stream2frame_damaged,
}
use deep_space_detection.Protocol.Stream.Misread.{
  bit_stream2frame_overrun, bit_stream2frame_misread,
}
use deep_space_detection.Protocol.Stream.Accept.{word, front, spelled, bit_stream2frame-bytes}
use deep_space_detection.Crc.Reference.{modbus}

abbrev pub request : Frame
request = record {
  header = tp_header;
  address = 1;
  frame_type = 3;
  n_file = 1;
  n_frame = 42;
  data_len = 0;
  data_bytes = replicate 512 0;
  check_sum = 0;
}

abbrev bytes : List ℕ
bytes = 0xeb ∷ 0x90 ∷ 0xeb ∷ 0x90 ∷ 1 ∷ 0 ∷ 3 ∷ 0 ∷ 1 ∷ 0 ∷ 0 ∷ 0 ∷ b'*' ∷ 0 ∷ 0x14 ∷ 0xfd ∷ []

abbrev pub malloc : Malloc
malloc n = some (replicate n 0xaa)

expected_stream : frame2bit_stream request (replicate 16 0) ≡ ok (16, bytes)
unfolding frame2bit_stream frame_without_check_sum2bit_stream crc16 load store
expected_stream = refl

read_back :
    bit_stream2frame malloc (some request) bytes ≡ ok (some (record request { check_sum = 0xfd14 }))
unfolding bit_stream2frame frame_without_check_sum2bit_stream crc16 load store
read_back = refl

length_filled : (n b : ℕ) → length (replicate n b) ≡ n
length_filled n b = length-replicate n b

pub request-IsFrame : IsFrame request
request-IsFrame = record {
  header_length = refl;
  header_bytes = omega arith;
  address_range = omega arith;
  frame_type_range = omega arith;
  n_file_range = omega arith;
  n_frame_range = omega arith;
  data_len_range = omega arith;
  data_length = length_filled 512 0;
  data_range = replicate-IsBytes 512 0 (omega arith);
  check_sum_range = omega arith;
}

-- A data frame with `len` bytes of data, of the file `file`.
abbrev pub transport : ℕ → ℕ → Frame
transport file len = record request {
  frame_type = 5;
  n_file = file;
  data_len = len;
  data_bytes = replicate 512 7;
}

pub transport-IsFrame : (file len : ℕ) → file < 2 ^ 32 → len < 2 ^ 16 → IsFrame (transport file len)
transport-IsFrame file len h k = record {
  header_length = refl;
  header_bytes = omega arith;
  address_range = omega arith;
  frame_type_range = omega arith;
  n_file_range = h;
  n_frame_range = omega arith;
  data_len_range = k;
  data_length = length_filled 512 7;
  data_range = replicate-IsBytes 512 7 (omega arith);
  check_sum_range = omega arith;
}

abbrev size_of : Option (List ℕ) → ℕ
size_of none = 0
size_of (some a) = length a

pub malloc_sized : (n : ℕ) (a : List ℕ) → malloc n ≡ some a → length a ≡ n
malloc_sized n a e = sym (ap size_of e) ∙ length-replicate n 0xaa

pub malloc-Allocates : (n : ℕ) → Allocates malloc n
malloc-Allocates n =
    (replicate n 0xaa, refl, length_filled n 0xaa, replicate-IsBytes n 0xaa (omega arith))

abbrev zeros : List ℕ
zeros = replicate 16 0

zeros-IsBytes : IsBytes zeros
zeros-IsBytes = replicate-IsBytes 16 0 (omega arith)

frame2bit_stream-short_example :
    frame2bit_stream request zeros
    ≡ ok (16, command_bytes request ++ (le16 (modbus (command_bytes request)) ++ drop 16 zeros))
frame2bit_stream-short_example =
    frame2bit_stream-short request zeros refl request-IsFrame.header_bytes (omega arith)
      zeros-IsBytes (omega arith)

abbrev page : List ℕ
page = replicate 600 3

frame2bit_stream-transport_example :
    let front = transport_bytes (transport 9 100) ++ padding (transport 9 100) page in
    frame2bit_stream (transport 9 100) page
    ≡ ok (530, front ++ (le16 (modbus front) ++ drop 530 page))
frame2bit_stream-transport_example =
    frame2bit_stream-transport (transport 9 100) page
      (transport-IsFrame 9 100 (omega arith) (omega arith)) (omega arith)
      (omega (arith, length_filled 600 3)) refl (replicate-IsBytes 600 3 (omega arith))

bit_stream2frame-frame2bit_stream_example :
    (out : List ℕ) × (frame2bit_stream request zeros ≡ ok (16, out))
    × (bit_stream2frame malloc (some (transport 0 0)) out
        ≡ ok (some (received (transport 0 0) request (modbus (command_bytes request)))))
bit_stream2frame-frame2bit_stream_example =
    bit_stream2frame-frame2bit_stream malloc (transport 0 0) request zeros request-IsFrame refl
      (inr refl) (malloc-Allocates 14) zeros-IsBytes (omega arith)

-- The request with a damaged number of the frame.
abbrev damaged : Frame
damaged = record request { n_frame = 43 }

damaged-IsFrame : IsFrame damaged
damaged-IsFrame = record {
  header_length = refl;
  header_bytes = omega arith;
  address_range = omega arith;
  frame_type_range = omega arith;
  n_file_range = omega arith;
  n_frame_range = omega arith;
  data_len_range = omega arith;
  data_length = length_filled 512 0;
  data_range = replicate-IsBytes 512 0 (omega arith);
  check_sum_range = omega arith;
}

abbrev undamaged : List ℕ
undamaged = 0xeb ∷ 0x90 ∷ 0xeb ∷ 0x90 ∷ 1 ∷ 0 ∷ 3 ∷ 0 ∷ 1 ∷ 0 ∷ 0 ∷ 0 ∷ []

bit_stream2frame_damaged_example :
    (sum : ℕ) × (frame2bit_stream request zeros
      ≡ ok (16, command_bytes request ++ (le16 sum ++ drop 16 zeros)))
    × (bit_stream2frame malloc (some request) (command_bytes damaged ++ (le16 sum ++ drop 16 zeros))
        ≡ ok none)
bit_stream2frame_damaged_example =
    bit_stream2frame_damaged malloc request request zeros request-IsFrame refl (inr refl)
      (malloc-Allocates 14) zeros-IsBytes (omega arith) damaged undamaged (0 ∷ []) 42 43
      damaged-IsFrame refl (inr refl) refl refl (omega arith)

bit_stream2frame_overrun_example :
    bit_stream2frame malloc (some request) (command_bytes (transport 513 2) ++ zeros) ≡ fault
bit_stream2frame_overrun_example =
    bit_stream2frame_overrun malloc request (transport 513 2) zeros
      (transport-IsFrame 513 2 (omega arith) (omega arith)) refl refl (length_filled 512 0)
      (omega arith)

-- A whole data frame of the file 2 on the line, with the checksum of what it is taken for.
abbrev rest : List ℕ
rest = replicate 512 3 ++ 5 ∷ 0 ∷ 0x50 ∷ 0x96 ∷ []

abbrev misread : Frame
misread = record (transport 0x0303_0303 2) {
  n_frame = 5;
  data_bytes = replicate 512 0;
  check_sum = 0x9650;
}

accepted :
    bit_stream2frame malloc (some request) (command_bytes (transport 2 100) ++ rest)
    ≡ ok (some misread)
unfolding bit_stream2frame frame_without_check_sum2bit_stream crc16 load store
accepted = refl

bit_stream2frame_misread_example : misread.data_len ≡ 2 % 2 ^ 16
bit_stream2frame_misread_example =
    bit_stream2frame_misread malloc request (transport 2 100) rest
      (transport-IsFrame 2 100 (omega arith) (omega arith)) refl refl misread accepted

-- The bytes of the request.
bit_stream2frame-bytes_example :
    bit_stream2frame malloc (some request) bytes
    ≡ ok (
        if word 0x14 0xfd == modbus (front 1 0 3 0 1 0 0 0 b'*' 0)
        then some (spelled request 1 0 3 0 1 0 0 0 b'*' 0 0x14 0xfd)
        else none)
bit_stream2frame-bytes_example =
    bit_stream2frame-bytes malloc request 1 0 3 0 1 0 0 0 b'*' 0 0x14 0xfd [] request-IsFrame
      (malloc-Allocates 14) (omega arith) (inr refl)
