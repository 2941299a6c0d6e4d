-- ===== src/Protocol/Stream/Layout.antt =====
-- The bytes that `frame2bit_stream` writes, frame by frame, against the tables of
-- docs/resources/serial-transmission-protocol.md.
use mathlib.Core.List.{append_assoc}
use deep_space_detection.Crc.{crc16}
use deep_space_detection.Crc.Reference.{modbus, crc16-modbus}
use deep_space_detection.Base.{
  IsBytes, ℕ, ◌≤◌, ◌≡◌, ◌≢◌, ◌<◌, ◌^◌, refl, ap, sym, ◌∙◌, arith, List, ◌++◌, drop, ◌==◌, ok,
  store_next, le16, le32, length, length-append, IsBytes-append, IsBytes-drop, take,
  take-append_self, if◌then◌else◌, false, [],
}
use deep_space_detection.Protocol.Frame.{Frame, type_transport_data}
use deep_space_detection.Protocol.Stream.{
  data2bit_stream, frame_without_check_sum2bit_stream, frame2bit_stream,
}

-- The fields that every frame has: header, address, type, file or command number, frame number.
abbrev pub command_bytes : Frame → List ℕ
command_bytes f =
    f.header ++ (le16 f.address ++ (le16 f.frame_type ++ (le32 f.n_file ++ le16 f.n_frame)))

pub length-command_bytes : (f : Frame) → length f.header ≡ 4 → length (command_bytes f) ≡ 14
length-command_bytes f h = omega (
  arith,
  length-append f.header
      (le16 f.address ++ (le16 f.frame_type ++ (le32 f.n_file ++ le16 f.n_frame))),
)

pub command_bytes-IsBytes : (f : Frame) → IsBytes f.header → IsBytes (command_bytes f)
command_bytes-IsBytes f h = IsBytes-append f.header _ h (omega arith)

-- What is written before the switch on a data frame.
pub command_stores :
    (f : Frame) (s : List ℕ)
    → length f.header ≡ 4
    → 14 ≤ length s
    → frame_without_check_sum2bit_stream f s ≡ (
        if f.frame_type == type_transport_data
        then data2bit_stream f 14 (command_bytes f ++ drop 14 s)
        else ok (14, command_bytes f ++ drop 14 s))
unfolding frame_without_check_sum2bit_stream
command_stores f s h len =
    let x2 = f.header ++ le16 f.address in
    let x3 = x2 ++ le16 f.frame_type in
    let x4 = x3 ++ le32 f.n_file in
    let n2 : length x2 ≡ 6 = omega (arith, length-append f.header (le16 f.address)) in
    let n3 : length x3 ≡ 8 = omega (arith, length-append x2 (le16 f.frame_type)) in
    let n4 : length x4 ≡ 12 = omega (arith, length-append x3 (le32 f.n_file)) in
    rw
      (
        store_next [] f.header s 0 4 refl (omega arith) (omega arith),
        store_next f.header (le16 f.address) s 4 6 (sym h) refl (omega arith),
        store_next x2 (le16 f.frame_type) s 6 8 (sym n2) refl (omega arith),
        store_next x3 (le32 f.n_file) s 8 12 (sym n3) refl (omega arith),
        store_next x4 (le16 f.n_frame) s 12 14 (sym n4) refl len,
      )
      (ap
        (λ x.
          if f.frame_type == type_transport_data
          then data2bit_stream f 14 (x ++ drop 14 s)
          else ok (14, x ++ drop 14 s))
        (simp append_assoc))

-- A frame that carries no data: 14 bytes, and then whatever the buffer held.
pub short_without_check_sum :
    (f : Frame) (s : List ℕ)
    → length f.header ≡ 4
    → f.frame_type ≢ type_transport_data
    → 14 ≤ length s
    → frame_without_check_sum2bit_stream f s ≡ ok (14, command_bytes f ++ drop 14 s)
short_without_check_sum f s h t len =
    let other : (f.frame_type == type_transport_data) ≡ false = ground arith in
    command_stores f s h len ∙ (rw other)

-- `crc16` of the front of a buffer.
pub crc16_front :
    (xs ys : List ℕ) (n : ℕ)
    → n ≡ length xs
    → n < 2 ^ 16
    → IsBytes xs
    → IsBytes ys
    → crc16 (xs ++ ys) n ≡ ok (modbus xs)
crc16_front xs ys n e lt px py =
    crc16-modbus (xs ++ ys) n (IsBytes-append xs ys px py) (omega (arith, length-append xs ys)) lt
    ∙ ap (λ l. ok (modbus l)) (ap (λ k. take k (xs ++ ys)) e ∙ take-append_self xs ys)

-- Of a frame that is not a data frame, with four bytes of header, `frame2bit_stream` writes 16
-- bytes, if the buffer has room for them, in the order of the protocol's tables, multi-byte
-- fields with the low byte first, and the CRC-16/MODBUS of the first 14 at the end; it returns
-- 16 and leaves the rest of the buffer alone.
pub frame2bit_stream-short :
    (f : Frame) (s : List ℕ)
    → length f.header ≡ 4
    → IsBytes f.header
    → f.frame_type ≢ type_transport_data
    → IsBytes s
    → 16 ≤ length s
    → frame2bit_stream f s
      ≡ ok (16, command_bytes f ++ (le16 (modbus (command_bytes f)) ++ drop 16 s))
unfolding frame2bit_stream
frame2bit_stream-short f s h hb t sb len =
    let n = length-command_bytes f h in
    rw
      (
        short_without_check_sum f s h t (omega arith),
        crc16_front (command_bytes f) (drop 14 s) 14 (sym n) (omega arith)
            (command_bytes-IsBytes f hb) (IsBytes-drop 14 s sb),
        store_next (command_bytes f) (le16 (modbus (command_bytes f))) s 14 16 (sym n) refl len,
      )
      (ap (λ l. ok (16, l))
        (append_assoc (command_bytes f) (le16 (modbus (command_bytes f))) (drop 16 s)))
