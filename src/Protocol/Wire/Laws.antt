-- ===== src/Protocol/Wire/Laws.antt =====
-- Frames without data over a line.
use mathlib.Core.List.{append_assoc, append-nil}
use deep_space_detection.Base.{
  ℕ, zero, suc, ◌+◌, ◌≤◌, ◌<◌, ◌≡◌, refl, sym, ap, ◌∙◌, arith, ==_refl, if◌then◌else◌, List, [],
  ◌∷◌, ◌++◌, some, ok, fault, le16, length, length-append, take, drop, take-append_self,
  drop-append_self,
}
use deep_space_detection.Crc.Reference.{modbus}
use deep_space_detection.Crc.Detect.{modbus-lt}
use deep_space_detection.Protocol.Frame.{Frame, IsFrame, tp_header}
use deep_space_detection.Protocol.Stream.{Malloc}
use deep_space_detection.Protocol.Stream.Layout.{
  command_bytes, length-command_bytes, command_bytes-IsBytes,
}
use deep_space_detection.Protocol.Stream.RoundTrip.{IsShort, Allocates, received}
use deep_space_detection.Protocol.Link.{Tty, send_frame, receive_frame}
use deep_space_detection.Protocol.Link.Send.{short_line, send_frame-short}
use deep_space_detection.Protocol.Link.Receive.{first_bytes, other_bytes, receive_frame-short}
use deep_space_detection.Protocol.Wire.{Wire}

take_all : (n : ℕ) (xs : List ℕ) → length xs ≤ n → take n xs ≡ xs
take_all zero [] h = refl
take_all zero (x ∷ xs) h = absurd (omega arith)
take_all (suc n) [] h = refl
take_all (suc n) (x ∷ xs) h = ap (◌∷◌ x) (take_all n xs (omega arith))

drop_all : (n : ℕ) (xs : List ℕ) → length xs ≤ n → drop n xs ≡ []
drop_all zero [] h = refl
drop_all zero (x ∷ xs) h = absurd (omega arith)
drop_all (suc n) [] h = refl
drop_all (suc n) (x ∷ xs) h = drop_all n xs (omega arith)

module _ {ℓ} {S : Type ℓ} (near far : Tty S) (W : Wire near far) where
  -- A `read` of the first part of what is on the way.
  read_part :
      (s : S) (n : ℕ) (xs ys : List ℕ)
      → W.held s ≡ xs ++ ys
      → n ≡ length xs
      → 0 < n
      → (far.read s n ≡ ((far.read s n).0, some xs)) × (W.held (far.read s n).0 ≡ ys)
  read_part s n [] ys e size some_asked = absurd (omega (arith, size))
  read_part s n (b ∷ bs) ys e size some_asked = (
    ap (λ o. ((far.read s n).0, o))
        (W.read-held s n b (bs ++ ys) e
          ∙ ap (λ k. some (take k (b ∷ bs ++ ys))) size
          ∙ ap some (take-append_self (b ∷ bs) ys)),
    W.held-read s n b (bs ++ ys) e
        ∙ ap (λ k. drop k (b ∷ bs ++ ys)) size
        ∙ drop-append_self (b ∷ bs) ys,
  )

  -- A `read` that asks for all that there is, or more.
  read_all :
      (s : S) (n : ℕ) (xs : List ℕ)
      → W.held s ≡ xs
      → 0 < length xs
      → length xs ≤ n
      → (far.read s n ≡ ((far.read s n).0, some xs)) × (W.held (far.read s n).0 ≡ [])
  read_all s n [] e some_there fits = absurd (omega arith)
  read_all s n (b ∷ bs) e some_there fits = (
    ap (λ o. ((far.read s n).0, o)) (W.read-held s n b bs e ∙ ap some (take_all n (b ∷ bs) fits)),
    W.held-read s n b bs e ∙ drop_all n (b ∷ bs) fits,
  )

  module _ (malloc : Malloc) (fresh f : Frame) (h : IsFrame f) (header : f.header ≡ tp_header)
      (t : IsShort f.frame_type) (alloc : (n : ℕ) → n ≤ 530 → Allocates malloc n) where
    abbrev pub check : ℕ
    check = modbus (command_bytes f)

    split_line :
        (extra : List ℕ) → short_line f ++ extra ≡ first_bytes f ++ (other_bytes f check ++ extra)
    split_line extra = simp append_assoc

    -- `receive_frame` on a frame that has arrived, with what follows it.
    receive_arrived :
        (s : S) (old : Frame) (extra : List ℕ)
        → W.held s ≡ short_line f ++ extra
        → length extra ≤ 514
        → (u : S) × (receive_frame far malloc (some fresh) s old
            ≡ ok (u, some (16 + length extra), received fresh f check))
          × (W.held u ≡ [])
    receive_arrived s old extra e fits =
        let size : 8 ≡ length (first_bytes f) =
          omega (
            arith,
            h.header_length,
            length-append f.header (le16 f.address ++ le16 f.frame_type),
          ) in
        let (r, rest) =
          read_part s 8 (first_bytes f) (other_bytes f check ++ extra) (e ∙ split_line extra) size
            (omega arith) in
        let s' = (far.read s 8).0 in
        let (r', empty) =
          read_all s' 522 (other_bytes f check ++ extra) rest (omega arith) (omega arith) in
        let u = (far.read s' 522).0 in
        (
          u,
          receive_frame-short far malloc fresh f check extra h header t
                (modbus-lt (command_bytes f) (command_bytes-IsBytes f h.header_bytes))
                (alloc 14 (omega arith)) (alloc 530 (omega arith)) fits s s' u old r r'
              ∙ ap
                  (λ b.
                    if b then ok (u, some (16 + length extra), received fresh f check) else fault)
                  (==_refl check),
          empty,
        )

    -- A well-formed control or request frame with the protocol's header gets over an empty line:
    -- `send_frame` writes it, and `receive_frame` at the other end takes 16 bytes, leaves the
    -- line empty, and has the same header, address, type, number of the file or command, and
    -- number of the frame, with the CRC-16/MODBUS of the bytes of those. `malloc` finds up to
    -- 530 bytes.
    pub receive_frame-send_frame :
        (s : S) (old : Frame)
        → W.held s ≡ []
        → let sent = near.write s (short_line f) in
          (u : S) × (send_frame near malloc s f ≡ ok sent)
          × (receive_frame far malloc (some fresh) sent.0 old
              ≡ ok (u, some 16, received fresh f check))
          × (W.held u ≡ [])
    receive_frame-send_frame s old e =
        let sent = near.write s (short_line f) in
        let (u, r, empty) =
          receive_arrived sent.0 old []
            (W.held-write s (short_line f)
              ∙ ap (λ l. l ++ short_line f) e
              ∙ sym (append-nil (short_line f)))
            (omega arith) in
        (u, send_frame-short near malloc s f h t (alloc 16 (omega arith)), r, empty)

    -- Of two well-formed control or request frames that are sent in a row over an empty line,
    -- the first with the protocol's header, one call of `receive_frame` takes all the bytes, and
    -- has the fields of the first: the other one is lost. `malloc` finds up to 530 bytes.
    pub receive_frame-send_frame_twice :
        (s : S) (g old : Frame)
        → IsFrame g
        → IsShort g.frame_type
        → W.held s ≡ []
        → let sent = near.write s (short_line f) in
          let again = near.write sent.0 (short_line g) in
          (u : S) × (send_frame near malloc s f ≡ ok sent)
          × (send_frame near malloc sent.0 g ≡ ok again)
          × (receive_frame far malloc (some fresh) again.0 old
              ≡ ok (u, some 32, received fresh f check))
          × (W.held u ≡ [])
    receive_frame-send_frame_twice s g old hg tg e =
        let sent = near.write s (short_line f) in
        let again = near.write sent.0 (short_line g) in
        let size : length (short_line g) ≡ 16 = omega (
          arith,
          length-command_bytes g hg.header_length,
          length-append (command_bytes g) (le16 (modbus (command_bytes g))),
        ) in
        let held_sent : W.held sent.0 ≡ short_line f =
          W.held-write s (short_line f) ∙ ap (λ l. l ++ short_line f) e in
        let (u, r, empty) =
          receive_arrived again.0 old (short_line g)
            (W.held-write sent.0 (short_line g) ∙ ap (λ l. l ++ short_line g) held_sent)
            (omega (arith, size)) in
        let a = alloc 16 (omega arith) in
        (
          u,
          send_frame-short near malloc s f h t a,
          send_frame-short near malloc sent.0 g hg tg a,
          r ∙ ap (λ n. ok (u, some (16 + n), received fresh f check)) size,
          empty,
        )
