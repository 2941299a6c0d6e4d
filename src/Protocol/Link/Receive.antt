-- ===== src/Protocol/Link/Receive.antt =====
-- `receive_frame`: what it makes of a frame without data, and what its results can be.
use mathlib.Core.List.{append_assoc, append-nil}
use deep_space_detection.Base.{
  Bool, ℕ, ◌+◌, ◌≤◌, ◌≡◌, ◌<◌, ◌^◌, refl, sym, arith, inl, inr, List, [], ◌++◌, some, none, ◌==◌,
  true, false, Run, ok, fault, ◌>>=◌, le16, le32, of_le-le16, length, length-append, drop,
  load_part, store_next, if◌then◌else◌, replicate,
}
use deep_space_detection.Crc.Reference.{modbus}
use deep_space_detection.Protocol.Frame.{Frame, IsFrame, tp_header}
use deep_space_detection.Protocol.Stream.{Malloc}
use deep_space_detection.Protocol.Stream.Layout.{command_bytes}
use deep_space_detection.Protocol.Stream.RoundTrip.{
  IsShort, Allocates, received, bit_stream2frame-short,
}
use deep_space_detection.Protocol.Link.{
  Tty, receive_size, unless_null, receive_rest, receive_frame, take_type, take_body,
}

-- The first eight bytes of a frame, and the other eight of one without data.
abbrev pub first_bytes : Frame → List ℕ
first_bytes g = g.header ++ (le16 g.address ++ le16 g.frame_type)

abbrev pub other_bytes : Frame → ℕ → List ℕ
other_bytes g c = le32 g.n_file ++ (le16 g.n_frame ++ le16 c)

receive_size-short : (n : ℕ) → IsShort n → receive_size n ≡ ok 530
unfolding receive_size
receive_size-short n (inl e) = rw e refl
receive_size-short n (inr e) = rw e refl

module _ {ℓ} {S : Type ℓ} (tty : Tty S) (malloc : Malloc) (fresh g : Frame) (c : ℕ) (extra : List ℕ)
    (h : IsFrame g) (header : g.header ≡ tp_header) (t : IsShort g.frame_type) (cw : c < 2 ^ 16)
    (alloc : Allocates malloc 14) (buffer : Allocates malloc 530) (fits : length extra ≤ 514) where
  length-first : length (first_bytes g) ≡ 8
  length-first =
      omega (arith, h.header_length, length-append g.header (le16 g.address ++ le16 g.frame_type))

  length-more : length (other_bytes g c ++ extra) ≡ 8 + length extra
  length-more = omega arith

  -- The bytes of the two reads, as the buffer holds them.
  joined :
      (rest : List ℕ)
      → (first_bytes g ++ (other_bytes g c ++ extra)) ++ rest
        ≡ command_bytes g ++ (le16 c ++ (extra ++ rest))
  joined rest = simp append_assoc

  unless_null-check :
      {A : Type ℓ} (b : Bool) (k : Frame → Run A) (q : Frame)
      → ((ok (if b then some q else none) >>= λ p. unless_null p >>= k))
        ≡ (if b then k q else fault)
  unless_null-check true k q = refl
  unless_null-check false k q = refl

  take_body-short :
      (s : S) (old : Frame)
      → take_body tty malloc
          (some fresh)
          s
          old
          (first_bytes g ++ drop 8 buffer.0)
          (some (other_bytes g c ++ extra))
        ≡ (if c == modbus (command_bytes g)
            then ok (s, some (16 + length extra), received fresh g c)
            else fault)
  unfolding take_body
  take_body-short s old =
      let (a, made, size, bytes) = buffer in
      let count : 8 + length (other_bytes g c ++ extra) ≡ 16 + length extra =
        omega (arith, length-more) in
      rw
        (
          store_next (first_bytes g) (other_bytes g c ++ extra) a 8 (16 + length extra)
              (sym length-first) (sym count) (omega arith),
          joined (drop (16 + length extra) a),
          bit_stream2frame-short malloc fresh g c (extra ++ drop (16 + length extra) a) h header t
              cw alloc,
          count,
        )
        (unless_null-check (c == modbus (command_bytes g)) _ (received fresh g c))

  receive_rest-short :
      (s s' : S) (old : Frame)
      → tty.read s 522 ≡ (s', some (other_bytes g c ++ extra))
      → receive_rest tty malloc (some fresh) s old (first_bytes g) ≡ (
          if c == modbus (command_bytes g)
          then ok (s', some (16 + length extra), received fresh g c)
          else fault)
  unfolding receive_rest
  receive_rest-short s s' old r =
      let (a, made, size, bytes) = buffer in
      rw
        (
          load_part (g.header ++ le16 g.address) (le16 g.frame_type) [] (first_bytes g) 6 2
              (simp append_assoc)
              (omega (arith, h.header_length, length-append g.header (le16 g.address))) refl,
          of_le-le16 g.frame_type h.frame_type_range,
          receive_size-short g.frame_type t,
          made,
          store_next [] (first_bytes g) a 0 8 refl (omega (arith, length-first)) (omega arith),
          r,
        )
        (take_body-short s' old)

  -- Of a well-formed control or request frame with the protocol's header, whose first eight
  -- bytes the first `read` brings: `receive_frame` asks for 522 bytes more whatever the type, so
  -- that up to 514 bytes `extra` which follow the frame in the same `read` are taken with it and
  -- lost. Where `malloc` finds the bytes asked for, the frame is accepted if its checksum `c` is
  -- the CRC-16/MODBUS of its first 14 bytes; if not, the null pointer that `bit_stream2frame`
  -- returns is read through.
  pub receive_frame-short :
      (s s' s'' : S) (old : Frame)
      → tty.read s 8 ≡ (s', some (first_bytes g))
      → tty.read s' 522 ≡ (s'', some (other_bytes g c ++ extra))
      → receive_frame tty malloc (some fresh) s old ≡ (
          if c == modbus (command_bytes g)
          then ok (s'', some (16 + length extra), received fresh g c)
          else fault)
  unfolding receive_frame take_type
  receive_frame-short s s' s'' old r r' =
      rw
        (
          receive_frame,
          r,
          store_next [] (first_bytes g) (replicate 8 0) 0 8 refl (omega (arith, length-first))
              (omega arith),
          length-first,
          append-nil (first_bytes g),
        )
        (receive_rest-short s' s'' old r')
