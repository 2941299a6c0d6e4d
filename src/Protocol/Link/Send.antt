-- ===== src/Protocol/Link/Send.antt =====
-- What `send_frame` of transmission_protocol.c writes to the line.
use mathlib.Core.List.{append_assoc}
use deep_space_detection.Base.{
  ℕ, ◌≤◌, ◌≡◌, refl, sym, arith, inl, inr, List, [], ◌++◌, ok, le16, length-append, drop, load_part,
}
use deep_space_detection.Crc.Reference.{modbus}
use deep_space_detection.Protocol.Frame.{Frame, IsFrame, type_transport_data}
use deep_space_detection.Protocol.Stream.{Malloc}
use deep_space_detection.Protocol.Stream.Layout.{
  command_bytes, length-command_bytes, frame2bit_stream-short,
}
use deep_space_detection.Protocol.Stream.Transport.{
  transport_bytes, padding, length-front, frame2bit_stream-transport,
}
use deep_space_detection.Protocol.Stream.RoundTrip.{IsShort, Allocates}
use deep_space_detection.Protocol.Link.{Tty, send_size, unless_null, send_frame}

-- The 16 bytes on the line of a frame without data.
abbrev pub short_line : Frame → List ℕ
short_line g = command_bytes g ++ le16 (modbus (command_bytes g))

send_size-short : (n : ℕ) → IsShort n → send_size n ≡ ok 16
unfolding send_size
send_size-short n (inl e) = rw e refl
send_size-short n (inr e) = rw e refl

send_size-transport : (n : ℕ) → n ≡ type_transport_data → send_size n ≡ ok 530
unfolding send_size
send_size-transport n e = rw e refl

module _ {ℓ} {S : Type ℓ} (tty : Tty S) (malloc : Malloc) (s : S) (g : Frame) (h : IsFrame g) where
  -- A well-formed control or request frame goes out as one `write` of its 16 bytes, where
  -- `malloc` finds them, and the result is that of `write`.
  pub send_frame-short :
      IsShort g.frame_type
      → Allocates malloc 16
      → send_frame tty malloc s g ≡ ok (tty.write s (short_line g))
  unfolding send_frame
  send_frame-short t (a, made, size, bytes) =
      rw
        (
          send_size-short g.frame_type t,
          made,
          unless_null,
          frame2bit_stream-short g a h.header_length h.header_bytes (ground arith) bytes
              (omega arith),
          load_part [] (short_line g) (drop 16 a) _ 0 16 (sym (append_assoc (command_bytes g) _ _))
              refl
              (omega (
                arith,
                length-command_bytes g h.header_length,
                length-append (command_bytes g) (le16 (modbus (command_bytes g))),
              )),
        )
        refl

  -- A well-formed data frame of at most 512 bytes of data goes out as one `write` of 530 bytes,
  -- where `malloc` finds them; the part behind its data is what the allocated memory held.
  pub send_frame-transport :
      g.frame_type ≡ type_transport_data
      → g.data_len ≤ 512
      → (alloc : Allocates malloc 530)
      → let front = transport_bytes g ++ padding g alloc.0 in
        send_frame tty malloc s g ≡ ok (tty.write s (front ++ le16 (modbus front)))
  unfolding send_frame
  send_frame-transport t short (a, made, size, bytes) =
      let front = transport_bytes g ++ padding g a in
      rw
        (
          send_size-transport g.frame_type t,
          made,
          unless_null,
          frame2bit_stream-transport g a h short (omega arith) t bytes,
          load_part [] (front ++ le16 (modbus front)) (drop 530 a) _ 0 530
              (sym (append_assoc front _ _)) refl
              (omega (
                arith,
                length-front g a h short (omega arith),
                length-append front (le16 (modbus front)),
              )),
        )
        refl
