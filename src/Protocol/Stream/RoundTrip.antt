-- ===== src/Protocol/Stream/RoundTrip.antt =====
-- Frames without data: `bit_stream2frame` of transmission_protocol.c on what `frame2bit_stream`
-- writes.
use mathlib.Core.List.{append_assoc}
use deep_space_detection.Base.{
  IsBytes-mid, IsByte, ℕ, ◌≤◌, ◌≡◌, ◌≢◌, ◌<◌, ◌^◌, ◌⊎◌, inl, inr, refl, ap, sym, ◌∙◌, arith, List,
  [], ◌∷◌, ◌++◌, drop, some, none, ◌==◌, ok, le16, le32, of_le-le16, of_le-le32, length,
  length-append, IsBytes, IsBytes-drop, load, load_part, bytes_eq, bytes_eq_refl, if◌then◌else◌,
  true, false, ==_refl,
}
use deep_space_detection.Crc.Reference.{modbus}
use deep_space_detection.Crc.Detect.{modbus-lt, modbus_detects}
use deep_space_detection.Protocol.Frame.{
  Frame, IsFrame, tp_header, type_control, type_request_data, type_transport_data,
}
use deep_space_detection.Protocol.Stream.{
  Malloc, frame2bit_stream, bit_stream2frame, verify, read_fields, read_body, read_tail,
}
use deep_space_detection.Protocol.Stream.Layout.{
  command_bytes, length-command_bytes, command_bytes-IsBytes, short_without_check_sum, crc16_front,
  frame2bit_stream-short,
}

-- A frame that the protocol defines and that carries no data.
abbrev pub IsShort : ℕ → Type 0
IsShort t = (t ≡ type_control) ⊎ (t ≡ type_request_data)

-- The fresh frame `f` with the fields that a frame `g` brings over the line, and its checksum.
abbrev pub received : Frame → Frame → ℕ → Frame
received f g c = record f {
  header = g.header;
  address = g.address;
  frame_type = g.frame_type;
  n_file = g.n_file;
  n_frame = g.n_frame;
  check_sum = c;
}

-- `malloc` finds `n` bytes.
abbrev pub Allocates : Malloc → ℕ → Type 0
Allocates malloc n = (a : List ℕ) × (malloc n ≡ some a) × (length a ≡ n) × IsBytes a

module _ (malloc : Malloc) (f g : Frame) (c : ℕ) (rest : List ℕ) (h : IsFrame g)
    (header : g.header ≡ tp_header) (t : IsShort g.frame_type) (cw : c < 2 ^ 16)
    (alloc : Allocates malloc 14) where
  abbrev stream : List ℕ
  stream = command_bytes g ++ (le16 c ++ rest)

  load_header : load stream 0 4 ≡ ok g.header
  load_header =
      load_part [] g.header _ stream 0 4
        (append_assoc g.header
          (le16 g.address ++ (le16 g.frame_type ++ (le32 g.n_file ++ le16 g.n_frame)))
          (le16 c ++ rest))
        refl (sym h.header_length)

  load_address : load stream 4 2 ≡ ok (le16 g.address)
  load_address =
      load_part g.header (le16 g.address)
        (le16 g.frame_type ++ (le32 g.n_file ++ (le16 g.n_frame ++ (le16 c ++ rest)))) stream 4 2
        (simp append_assoc) (sym h.header_length) refl

  load_type : load stream 6 2 ≡ ok (le16 g.frame_type)
  load_type =
      load_part (g.header ++ le16 g.address) (le16 g.frame_type)
        (le32 g.n_file ++ (le16 g.n_frame ++ (le16 c ++ rest))) stream 6 2 (simp append_assoc)
        (omega (arith, h.header_length, length-append g.header (le16 g.address))) refl

  load_n_file : load stream 8 4 ≡ ok (le32 g.n_file)
  load_n_file =
      load_part (g.header ++ (le16 g.address ++ le16 g.frame_type)) (le32 g.n_file)
        (le16 g.n_frame ++ (le16 c ++ rest)) stream 8 4 (simp append_assoc)
        (omega
          (arith, h.header_length, length-append g.header (le16 g.address ++ le16 g.frame_type)))
        refl

  load_n_frame : load stream 12 2 ≡ ok (le16 g.n_frame)
  load_n_frame =
      load_part (g.header ++ (le16 g.address ++ (le16 g.frame_type ++ le32 g.n_file)))
        (le16 g.n_frame) (le16 c ++ rest) stream 12 2 (simp append_assoc)
        (omega (
          arith,
          h.header_length,
          length-append g.header (le16 g.address ++ (le16 g.frame_type ++ le32 g.n_file)),
        ))
        refl

  load_check_sum : load stream 14 2 ≡ ok (le16 c)
  load_check_sum =
      load_part (command_bytes g) (le16 c) rest stream 14 2 refl
        (sym (length-command_bytes g h.header_length)) refl

  abbrev typed : Frame
  typed = record f { header = g.header; address = g.address; frame_type = g.frame_type }

  abbrev with_file : Frame
  with_file = record typed { n_file = g.n_file }

  read_body-short : read_body typed 8 stream ≡ ok (some (with_file, 12))
  unfolding read_body
  read_body-short = elim t [
    | inl e ↦
        rw (is e type_control, load_n_file)
          (ap (λ n. ok (some (record typed { n_file = n }, 12)))
            (of_le-le32 g.n_file h.n_file_range))
    | inr e ↦
        rw (isnt e, isnt' e, is e type_request_data, load_n_file)
          (ap (λ n. ok (some (record typed { n_file = n }, 12)))
            (of_le-le32 g.n_file h.n_file_range))
  ]
    where
      is : {k : ℕ} → g.frame_type ≡ k → (k' : ℕ) → (g.frame_type == k) ≡ true
      is e k' = ground arith

      isnt : g.frame_type ≡ type_request_data → (g.frame_type == type_control) ≡ false
      isnt e = ground arith

      isnt' : g.frame_type ≡ type_request_data → (g.frame_type == type_transport_data) ≡ false
      isnt' e = ground arith

  verify-short :
      verify malloc (received f g c) 14
      ≡ ok (if c == modbus (command_bytes g) then some (received f g c) else none)
  unfolding verify
  verify-short =
      let (temp, made, size, bytes) = alloc in
      rw
        (
          made,
          verify,
          short_without_check_sum (received f g c) temp h.header_length (ground arith)
              (omega arith),
          crc16_front (command_bytes g) (drop 14 temp) 14
              (sym (length-command_bytes g h.header_length)) (omega arith)
              (command_bytes-IsBytes g h.header_bytes) (IsBytes-drop 14 temp bytes),
        )
        refl

  read_tail-short :
      read_tail malloc stream (some (with_file, 12))
      ≡ ok (if c == modbus (command_bytes g) then some (received f g c) else none)
  unfolding read_tail
  read_tail-short =
      rw (load_n_frame, load_check_sum, of_le-le16 g.n_frame h.n_frame_range, of_le-le16 c cw)
        verify-short

  -- The bytes of a well-formed control or request frame with the protocol's header are accepted
  -- exactly if the last two are the CRC-16/MODBUS of the 14 bytes before, and the fields of the
  -- result are then those of the frame; with another checksum the result is a null pointer.
  -- `malloc` finds the 14 bytes that the checksum needs.
  pub bit_stream2frame-short :
      bit_stream2frame malloc (some f) stream
      ≡ ok (if c == modbus (command_bytes g) then some (received f g c) else none)
  unfolding bit_stream2frame read_fields
  bit_stream2frame-short =
      let right : bytes_eq g.header tp_header ≡ true =
        ap (λ l. bytes_eq l tp_header) header ∙ bytes_eq_refl tp_header in
      rw
        (
          load_header,
          right,
          load_address,
          load_type,
          of_le-le16 g.address h.address_range,
          of_le-le16 g.frame_type h.frame_type_range,
          read_body-short,
        )
        read_tail-short

module _ (malloc : Malloc) (f g : Frame) (s : List ℕ) (h : IsFrame g)
    (header : g.header ≡ tp_header) (t : IsShort g.frame_type) (alloc : Allocates malloc 14)
    (bytes : IsBytes s) (room : 16 ≤ length s) where
  -- A well-formed control or request frame with the protocol's header survives the way through a
  -- buffer of at least 16 bytes, where `malloc` finds the 14 bytes that the checksum needs:
  -- `frame2bit_stream` succeeds with 16 bytes, and `bit_stream2frame` reads the same header,
  -- address, type, number of the file or command, and number of the frame from them, with the
  -- CRC-16/MODBUS of the first 14 bytes.
  pub bit_stream2frame-frame2bit_stream :
      (out : List ℕ) × (frame2bit_stream g s ≡ ok (16, out))
      × (bit_stream2frame malloc (some f) out ≡ ok (some (received f g (modbus (command_bytes g)))))
  bit_stream2frame-frame2bit_stream =
      let sum = modbus (command_bytes g) in
      let range : sum < 2 ^ 16 =
        modbus-lt (command_bytes g) (command_bytes-IsBytes g h.header_bytes) in
      (
        command_bytes g ++ (le16 sum ++ drop 16 s),
        frame2bit_stream-short g s h.header_length h.header_bytes (ground arith) bytes room,
        bit_stream2frame-short malloc f g sum (drop 16 s) h header t range alloc
            ∙ ap (λ b. ok (if b then some (received f g sum) else none)) (==_refl sum),
      )

  -- A well-formed control or request frame with one damaged byte before the checksum, which
  -- still has the protocol's header and a type of such a frame, is rejected, where `malloc`
  -- finds the 14 bytes that the checksum needs: `d` has the fields that the damaged bytes spell.
  pub bit_stream2frame_damaged :
      (d : Frame) (xs ys : List ℕ) (a b : ℕ)
      → IsFrame d
      → d.header ≡ tp_header
      → IsShort d.frame_type
      → command_bytes g ≡ xs ++ a ∷ ys
      → command_bytes d ≡ xs ++ b ∷ ys
      → a ≢ b
      → (sum : ℕ) × (frame2bit_stream g s ≡ ok (16, command_bytes g ++ (le16 sum ++ drop 16 s)))
        × (bit_stream2frame malloc (some f) (command_bytes d ++ (le16 sum ++ drop 16 s)) ≡ ok none)
  bit_stream2frame_damaged d xs ys a b hd header_d td eg ed ne =
      let sum = modbus (command_bytes g) in
      let g_bytes : IsBytes (command_bytes g) = command_bytes-IsBytes g h.header_bytes in
      let d_bytes : IsBytes (command_bytes d) = command_bytes-IsBytes d hd.header_bytes in
      let b_byte : IsByte b = IsBytes-mid xs ys b (rw ed at d_bytes) in
      let differ : modbus (command_bytes g) ≢ modbus (command_bytes d) =
        rw (eg, ed) (modbus_detects xs ys a b (rw eg at g_bytes) b_byte ne) in
      let unequal : (sum == modbus (command_bytes d)) ≡ false = ground arith in
      (
        sum,
        frame2bit_stream-short g s h.header_length h.header_bytes (ground arith) bytes room,
        bit_stream2frame-short malloc f d sum (drop 16 s) hd header_d td (modbus-lt _ g_bytes) alloc
            ∙ ap (λ k. ok (if k then some (received f d sum) else none)) unequal,
      )
