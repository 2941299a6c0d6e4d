-- ===== src/Protocol/Stream/Misread.antt =====
-- What `bit_stream2frame` of transmission_protocol.c makes of data frames.
use mathlib.Core.List.{append_assoc}
use deep_space_detection.Base.{
  inr, inl, Run-cases, Bool, ◌/◌, ℕ, inl, inr, Run-cases, length-load, store_outside, >>=_assoc,
  ◌+◌, ◌≡◌, ◌<◌, ◌^◌, ◌%◌, refl, ap, sym, ◌∙◌, arith, List, [], ◌∷◌, ◌++◌, Option, some, none, ◌==◌,
  Run, ok, fault, ◌>>=◌, le16, le32, of_le, of_le-le16, length, length-append, load, load_part,
  store, bytes_eq, bytes_eq_refl, if◌then◌else◌, true, false,
}
use deep_space_detection.Protocol.Frame.{Frame, IsFrame, tp_header, type_transport_data}
use deep_space_detection.Protocol.Stream.{
  crc16, frame_without_check_sum2bit_stream, verify_in, Malloc, bit_stream2frame, verify,
  read_fields, read_body, read_data, read_n_file, read_tail,
}
use deep_space_detection.Protocol.Stream.Layout.{command_bytes}

-- Whatever frame comes out, its data length is `n`.
abbrev Keeps : ℕ → Run (Option Frame) → Type 0
Keeps n r = (q : Frame) → r ≡ ok (some q) → q.data_len ≡ n

Keeps-bind :
    {A : Type 0} (n : ℕ) (m : Run A) (k : A → Run (Option Frame))
    → ((a : A) → Keeps n (k a))
    → Keeps n (m >>= k)
Keeps-bind n (ok a) k h = h a
Keeps-bind n fault k h = λ q e. cc

Keeps-choice : (f : Frame) (b : Bool) → Keeps f.data_len (ok (if b then some f else none))
Keeps-choice f true = λ q e. ground arith
Keeps-choice f false = λ q e. cc

Keeps-verify_in : (f : Frame) (a : Option (List ℕ)) → Keeps f.data_len (verify_in f a)
unfolding verify_in
Keeps-verify_in f none = λ q e. cc
Keeps-verify_in f (some temp) =
    Keeps-bind f.data_len (frame_without_check_sum2bit_stream f temp) _
      λ r. Keeps-bind f.data_len (crc16 r.1 r.0) _ λ c. Keeps-choice f (f.check_sum == c)

Keeps-read_tail :
    (malloc : Malloc) (s : List ℕ) (f : Frame) (p : ℕ)
    → Keeps f.data_len (read_tail malloc s (some (f, p)))
unfolding read_tail verify
Keeps-read_tail malloc s f p =
    Keeps-bind f.data_len (load s p 2) _
      λ n. Keeps-bind f.data_len (load s (p + 2) 2) _ λ c. Keeps-verify_in _ (malloc (p + 2))

-- A length above 512 runs past the end of the array in the frame, or of the bytes.
read_data_outside :
    (s : List ℕ) (p : ℕ) (f : Frame) (l : List ℕ)
    → load s p 2 ≡ ok l
    → length f.data_bytes ≡ 512
    → 512 < of_le l
    → read_data f p s ≡ fault
unfolding read_data
read_data_outside s p f l e len big = elim (Run-cases (load s (p + 2) (of_le l))) [
  | inl outside ↦ rw (e, outside)
  | inr (d, inside) ↦
      rw
        (
          e,
          inside,
          store_outside f.data_bytes 0 d (omega (arith, length-load s (p + 2) (of_le l) d inside)),
        )
        refl
]

module _ (malloc : Malloc) (f g : Frame) (rest : List ℕ) (h : IsFrame g)
    (header : g.header ≡ tp_header) (t : g.frame_type ≡ type_transport_data) where
  abbrev stream : List ℕ
  stream = command_bytes g ++ rest

  load_header : load stream 0 4 ≡ ok g.header
  load_header =
      load_part [] g.header _ stream 0 4
        (append_assoc g.header
          (le16 g.address ++ (le16 g.frame_type ++ (le32 g.n_file ++ le16 g.n_frame))) rest)
        refl (sym h.header_length)

  load_type : load stream 6 2 ≡ ok (le16 g.frame_type)
  load_type =
      load_part (g.header ++ le16 g.address) (le16 g.frame_type)
        (le32 g.n_file ++ (le16 g.n_frame ++ rest)) stream 6 2 (simp append_assoc)
        (omega (arith, h.header_length, length-append g.header (le16 g.address))) refl

  load_address : load stream 4 2 ≡ ok (le16 g.address)
  load_address =
      load_part g.header (le16 g.address)
        (le16 g.frame_type ++ (le32 g.n_file ++ (le16 g.n_frame ++ rest))) stream 4 2
        (simp append_assoc) (sym h.header_length) refl

  -- The two bytes at offset 8, where the parser expects the length.
  load_length : load stream 8 2 ≡ ok (le16 g.n_file)
  load_length =
      load_part (g.header ++ (le16 g.address ++ le16 g.frame_type)) (le16 g.n_file)
        (g.n_file / 65536 % 256 ∷ g.n_file / 16777216 % 256 ∷ le16 g.n_frame ++ rest) stream 8 2
        (simp append_assoc)
        (omega
          (arith, h.header_length, length-append g.header (le16 g.address ++ le16 g.frame_type)))
        refl

  abbrev typed : Frame
  typed = record f { header = g.header; address = g.address; frame_type = type_transport_data }

  reaches_data : bit_stream2frame malloc (some f) stream ≡ (
      read_data typed 8 stream >>= λ q. read_n_file q 522 stream >>= λ b. read_tail malloc stream b)
  unfolding bit_stream2frame read_fields read_body
  reaches_data =
      let right : bytes_eq g.header tp_header ≡ true =
        ap (λ l. bytes_eq l tp_header) header ∙ bytes_eq_refl tp_header in
      let type : of_le (le16 g.frame_type) ≡ type_transport_data =
        of_le-le16 g.frame_type h.frame_type_range ∙ t in
      rw (load_header, right, load_address, load_type, of_le-le16 g.address h.address_range, type)
        (>>=_assoc (read_data typed 8 stream) (λ q. read_n_file q 522 stream)
          (read_tail malloc stream))

  -- A well-formed data frame with the protocol's header, whose file number has more than 512 in
  -- its low 16 bits, makes `bit_stream2frame` run past the end of an array, for every content of
  -- the frame.
  pub bit_stream2frame_overrun :
      length f.data_bytes ≡ 512
      → 512 < g.n_file % 2 ^ 16
      → bit_stream2frame malloc (some f) stream ≡ fault
  bit_stream2frame_overrun len big =
      reaches_data
      ∙ rw (read_data_outside stream 8 typed (le16 g.n_file) load_length len (omega arith)) refl

  Keeps-data : Keeps (of_le (le16 g.n_file)) (
      read_data typed 8 stream >>= λ q. read_n_file q 522 stream >>= λ b. read_tail malloc stream b)
  unfolding read_data read_n_file
  Keeps-data =
      let n = of_le (le16 g.n_file) in
      rw load_length (
        simp >>=_assoc (
          Keeps-bind n (load stream 10 n) _ λ d.
            Keeps-bind n (store f.data_bytes 0 d) _ λ data_bytes.
              Keeps-bind n (load stream 522 4) _ λ b. Keeps-read_tail malloc stream _ 526))

  -- Whatever `bit_stream2frame` makes of the bytes of a well-formed data frame with the
  -- protocol's header, the length of the data that it stores is the low half of the number of
  -- the file, and not the length that was sent.
  pub bit_stream2frame_misread :
      (q : Frame)
      → bit_stream2frame malloc (some f) stream ≡ ok (some q)
      → q.data_len ≡ g.n_file % 2 ^ 16
  bit_stream2frame_misread q e = Keeps-data q (sym reaches_data ∙ e) ∙ omega arith
