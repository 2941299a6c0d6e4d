-- ===== src/Protocol/Stream/Transport.antt =====
-- Data frames: the bytes that are written, and how the parser reads them.
use mathlib.Core.List.{append_assoc}
use deep_space_detection.Base.{
  ℕ, ◌+◌, ◌-◌, ◌≤◌, ◌≡◌, refl, ap, sym, ◌∙◌, arith, List, ◌++◌, drop, drop-drop, ◌==◌, ok,
  store_next, le16, length, length-append, length-drop, length-take, take, take-append-drop,
  IsBytes, IsBytes-append, IsBytes-drop, IsBytes-take, load, true,
}
use deep_space_detection.Crc.Reference.{modbus}
use deep_space_detection.Protocol.Frame.{Frame, IsFrame, type_transport_data}
use deep_space_detection.Protocol.Stream.{
  data2bit_stream, frame_without_check_sum2bit_stream, frame2bit_stream,
}
use deep_space_detection.Protocol.Stream.Layout.{
  command_bytes, length-command_bytes, command_bytes-IsBytes, command_stores, crc16_front,
}

-- The fields of a data frame: those of every frame, the length, and that many bytes of data.
abbrev pub transport_bytes : Frame → List ℕ
transport_bytes f = (command_bytes f ++ le16 f.data_len) ++ take f.data_len f.data_bytes

-- What fills up the 512 bytes of data: the old contents of the buffer.
abbrev pub padding : Frame → List ℕ → List ℕ
padding f s = take (512 - f.data_len) (drop (16 + f.data_len) s)

load_front : (xs : List ℕ) (n : ℕ) → n ≤ length xs → load xs 0 n ≡ ok (take n xs)
unfolding load
load_front xs n h = ground arith

module _ (f : Frame) (s : List ℕ) (h : IsFrame f) (short : f.data_len ≤ 512)
    (room : 530 ≤ length s) where
  length-transport_bytes : length (transport_bytes f) ≡ 16 + f.data_len
  length-transport_bytes = omega (
    arith,
    h.data_length,
    length-command_bytes f h.header_length,
    length-append (command_bytes f ++ le16 f.data_len) (take f.data_len f.data_bytes),
    length-append (command_bytes f) (le16 f.data_len),
    length-take f.data_len f.data_bytes,
  )

  length-padding : length (padding f s) ≡ 512 - f.data_len
  length-padding = omega (
    arith,
    length-take (512 - f.data_len) (drop (16 + f.data_len) s),
    length-drop (16 + f.data_len) s,
  )

  pub length-front : length (transport_bytes f ++ padding f s) ≡ 528
  length-front = omega (
    arith,
    length-append (transport_bytes f) (padding f s),
    length-transport_bytes,
    length-padding,
  )

  filled : drop (16 + f.data_len) s ≡ padding f s ++ drop 528 s
  filled =
      sym (take-append-drop (512 - f.data_len) (drop (16 + f.data_len) s))
      ∙ ap (λ l. padding f s ++ l)
          (drop-drop (512 - f.data_len) (16 + f.data_len) s ∙ ap (λ k. drop k s) full)
    where
      full : 16 + f.data_len + (512 - f.data_len) ≡ 528
      full = omega arith

  transport_without_check_sum :
      f.frame_type ≡ type_transport_data
      → frame_without_check_sum2bit_stream f s
        ≡ ok (528, (transport_bytes f ++ padding f s) ++ drop 528 s)
  unfolding data2bit_stream
  transport_without_check_sum t =
      let c = command_bytes f in
      let d = c ++ le16 f.data_len in
      let n = length-command_bytes f h.header_length in
      let m : length d ≡ 16 = omega (arith, n, length-append c (le16 f.data_len)) in
      let l : length (take f.data_len f.data_bytes) ≡ f.data_len =
        omega (arith, h.data_length, length-take f.data_len f.data_bytes) in
      let is_data : (f.frame_type == type_transport_data) ≡ true = ground arith in
      rw
        (
          command_stores f s h.header_length (omega arith),
          is_data,
          store_next c (le16 f.data_len) s 14 16 (sym n) refl (omega arith),
          load_front f.data_bytes f.data_len (omega (arith, h.data_length)),
          store_next d (take f.data_len f.data_bytes) s 16 (16 + f.data_len) (sym m)
              (ap (λ k. 16 + k) (sym l)) (omega arith),
        )
        (ap (λ x. ok (528, x))
          (ap (λ x. transport_bytes f ++ x) filled
            ∙ sym (append_assoc (transport_bytes f) (padding f s) (drop 528 s))))

  -- Of a well-formed data frame of at most 512 bytes of data, `frame2bit_stream` writes 530
  -- bytes into a buffer that has room for them: the fields, the data, then what the buffer held
  -- before in place of the bytes that are missing to 512, and the CRC-16/MODBUS of all of these
  -- 528 bytes; it returns 530 and leaves the rest alone.
  pub frame2bit_stream-transport :
      f.frame_type ≡ type_transport_data
      → IsBytes s
      → let front = transport_bytes f ++ padding f s in
        frame2bit_stream f s ≡ ok (530, front ++ (le16 (modbus front) ++ drop 530 s))
  unfolding frame2bit_stream
  frame2bit_stream-transport t sb =
      let front = transport_bytes f ++ padding f s in
      let n : 528 ≡ length front = sym length-front in
      let front_bytes : IsBytes front =
        IsBytes-append (transport_bytes f) (padding f s)
          (IsBytes-append (command_bytes f ++ le16 f.data_len) _
            (IsBytes-append (command_bytes f) (le16 f.data_len)
              (command_bytes-IsBytes f h.header_bytes) (omega arith))
            (IsBytes-take f.data_len f.data_bytes h.data_range))
          (IsBytes-take (512 - f.data_len) _ (IsBytes-drop (16 + f.data_len) s sb)) in
      rw
        (
          transport_without_check_sum t,
          crc16_front front (drop 528 s) 528 n (omega arith) front_bytes (IsBytes-drop 528 s sb),
          store_next front (le16 (modbus front)) s 528 530 n refl room,
        )
        (ap (λ l. ok (530, l)) (append_assoc front (le16 (modbus front)) (drop 530 s)))
