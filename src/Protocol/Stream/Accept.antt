-- ===== src/Protocol/Stream/Accept.antt =====
-- What `bit_stream2frame` of transmission_protocol.c reads at each offset of a frame without data.
use deep_space_detection.Base.{
  ℕ, ◌+◌, ◌*◌, ◌%◌, ◌/◌, ◌<◌, ◌≡◌, refl, ap, sym, ◌∙◌, arith, List, [], ◌∷◌, ◌++◌, some, none, ◌==◌,
  if◌then◌else◌, ok, le16, le32, IsBytes,
}
use deep_space_detection.Crc.Reference.{modbus}
use deep_space_detection.Protocol.Frame.{Frame, IsFrame, tp_header}
use deep_space_detection.Protocol.Frame.Ranges.{in_range}
use deep_space_detection.Protocol.Stream.{Malloc, bit_stream2frame}
use deep_space_detection.Protocol.Stream.Layout.{command_bytes}
use deep_space_detection.Protocol.Stream.RoundTrip.{IsShort, Allocates, bit_stream2frame-short}

-- The numbers that two and four bytes spell.
abbrev pub word : ℕ → ℕ → ℕ
word a b = a + 256 * b

abbrev pub double_word : ℕ → ℕ → ℕ → ℕ → ℕ
double_word a b c d = a + 256 * b + 65536 * c + 16777216 * d

le16-word : (a b : ℕ) → a < 256 → b < 256 → le16 (word a b) ≡ a ∷ b ∷ []
le16-word a b ha hb =
    let low : word a b % 256 ≡ a = omega arith in
    let high : word a b / 256 % 256 ≡ b = omega arith in rw (low, high) refl

le32-double_word :
    (a b c d : ℕ)
    → a < 256
    → b < 256
    → c < 256
    → d < 256
    → le32 (double_word a b c d) ≡ a ∷ b ∷ c ∷ d ∷ []
le32-double_word a b c d ha hb hc hd =
    let n = double_word a b c d in
    let e0 : n % 256 ≡ a = omega arith in
    let e1 : n / 256 % 256 ≡ b = omega arith in
    let e2 : n / 65536 % 256 ≡ c = omega arith in
    let e3 : n / 16777216 % 256 ≡ d = omega arith in rw (e0, e1, e2, e3) refl

-- The bytes of a frame before its checksum: the header, and then two bytes for the address, two for
-- the type, four for the number of the file or command, and two for the number of the frame.
abbrev pub front : (a0 a1 t0 t1 i0 i1 i2 i3 n0 n1 : ℕ) → List ℕ
front a0 a1 t0 t1 i0 i1 i2 i3 n0 n1 =
    tp_header ++ a0 ∷ a1 ∷ t0 ∷ t1 ∷ i0 ∷ i1 ∷ i2 ∷ i3 ∷ n0 ∷ n1 ∷ []

-- The fresh frame with the fields that those bytes and the two of the checksum spell.
abbrev pub spelled : Frame → (a0 a1 t0 t1 i0 i1 i2 i3 n0 n1 c0 c1 : ℕ) → Frame
spelled f a0 a1 t0 t1 i0 i1 i2 i3 n0 n1 c0 c1 = record f {
  header = tp_header;
  address = word a0 a1;
  frame_type = word t0 t1;
  n_file = double_word i0 i1 i2 i3;
  n_frame = word n0 n1;
  check_sum = word c0 c1;
}

module _ (malloc : Malloc) (f : Frame) (a0 a1 t0 t1 i0 i1 i2 i3 n0 n1 c0 c1 : ℕ)
    (rest : List ℕ) where
  abbrev bytes : List ℕ
  bytes = front a0 a1 t0 t1 i0 i1 i2 i3 n0 n1

  abbrev result : Frame
  result = spelled f a0 a1 t0 t1 i0 i1 i2 i3 n0 n1 c0 c1

  -- Of any bytes with the protocol's header, whose type is that of a control or request frame,
  -- `bit_stream2frame` reads the address at offset 4, the type at 6, the number of the file or
  -- command at 8, the number of the frame at 12 and the checksum at 14, the low byte first,
  -- leaves the data of the fresh frame as they were, and accepts exactly if the checksum is the
  -- CRC-16/MODBUS of the 14 bytes before it; otherwise the result is a null pointer. `malloc`
  -- finds the 14 bytes that the checksum needs, and the fresh frame has members of their types.
  pub bit_stream2frame-bytes :
      IsFrame f
      → Allocates malloc 14
      → IsBytes (a0 ∷ a1 ∷ t0 ∷ t1 ∷ i0 ∷ i1 ∷ i2 ∷ i3 ∷ n0 ∷ n1 ∷ c0 ∷ c1 ∷ [])
      → IsShort (word t0 t1)
      → bit_stream2frame malloc (some f) (bytes ++ (c0 ∷ c1 ∷ rest))
        ≡ ok (if word c0 c1 == modbus bytes then some result else none)
  bit_stream2frame-bytes hf alloc
        (ha0, (ha1, (ht0, (ht1, (hi0, (hi1, (hi2, (hi3, (hn0, (hn1, (hc0, (hc1, _)))))))))))) t =
      let ea = le16-word a0 a1 ha0 ha1 in
      let et = le16-word t0 t1 ht0 ht1 in
      let ei = le32-double_word i0 i1 i2 i3 hi0 hi1 hi2 hi3 in
      let en = le16-word n0 n1 hn0 hn1 in
      let ec = le16-word c0 c1 hc0 hc1 in
      let whole : command_bytes result ≡ bytes =
        λ i. tp_header ++ (ea i ++ (et i ++ (ei i ++ en i))) in
      let all : command_bytes result ++ (le16 (word c0 c1) ++ rest) ≡ bytes ++ (c0 ∷ c1 ∷ rest) =
        λ i. whole i ++ (ec i ++ rest) in
      let ranges : IsFrame result =
        in_range result refl (omega arith) (omega arith) (omega arith) (omega arith) (omega arith)
          hf.data_len_range hf.data_length hf.data_range (omega arith) in
      sym (ap (bit_stream2frame malloc (some f)) all)
      ∙ bit_stream2frame-short malloc f result (word c0 c1) rest ranges refl t (omega arith) alloc
      ∙ ap (λ l. ok (if word c0 c1 == modbus l then some result else none)) whole
