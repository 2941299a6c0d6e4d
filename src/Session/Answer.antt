-- ===== src/Session/Answer.antt =====
-- What the master's answer to a request adds to the line.
use deep_space_detection.Base.{
  false, true, ℕ, zero, suc, ◌+◌, ◌-◌, ◌*◌, ◌%◌, ◌≡◌, ◌≤◌, ◌∙◌, refl, ap, inr, arith, ◌==◌, List,
  ◌++◌, length, take, drop, some, Run, ok, le16, length-take, length-drop, length-append, IsBytes,
  IsBytes-take, IsBytes-drop, IsBytes-append,
}
use deep_space_detection.Base.Ranges.{AreBytes}
use deep_space_detection.Crc.Reference.{modbus}
use deep_space_detection.Protocol.Frame.{Frame, IsFrame, type_request_data, type_transport_data}
use deep_space_detection.Protocol.Frame.Ranges.{set_type, set_n_file, set_data, set_data_len}
use deep_space_detection.Protocol.Stream.{Malloc}
use deep_space_detection.Protocol.Stream.Layout.{command_bytes, length-command_bytes}
use deep_space_detection.Protocol.Stream.Transport.{transport_bytes, padding, length-front}
use deep_space_detection.Protocol.Stream.RoundTrip.{Allocates}
use deep_space_detection.Protocol.Link.{Tty, send_frame}
use deep_space_detection.Protocol.Link.Send.{short_line, send_frame-short, send_frame-transport}
use deep_space_detection.Protocol.Wire.{Wire}
use deep_space_detection.Master.{total_frames, send_chunk, send_chunks, answer_request}
use deep_space_detection.Master.Chunks.{load_inside, store_front, send_chunks-zero, send_chunks-suc}

module _ {ℓ} {S : Type ℓ} (near far : Tty S) (V : Wire near far) (malloc : Malloc)
    (alloc : (n : ℕ) → n ≤ 530 → Allocates malloc n)
    (whole : (s : S) (out : List ℕ) → (near.write s out).1 ≡ some (length out)) where
  -- What is sent adds so many bytes.
  abbrev pub Grows : S → ℕ → S → Type 0
  Grows s n t = length (V.held t) ≡ length (V.held s) + n

  write-Grows :
      (s : S) (out : List ℕ) (n : ℕ)
      → length out ≡ n
      → (near.write s out ≡ ((near.write s out).0, some n)) × Grows s n (near.write s out).0
  write-Grows s out n e = (
    ap (λ o. ((near.write s out).0, o)) (whole s out ∙ ap some e),
    omega (arith, e, ap length (V.held-write s out), length-append (V.held s) out),
  )

  abbrev Sends : S → Frame → ℕ → Type ℓ
  Sends s g n = (t : S) × (send_frame near malloc s g ≡ ok (t, some n)) × Grows s n t

  send_frame-Grows :
      (s : S) (g : Frame)
      → IsFrame g
      → g.frame_type ≡ type_transport_data
      → g.data_len ≤ 512
      → Sends s g 530
  send_frame-Grows s g h t short =
      let a = alloc 530 (omega arith) in
      let front = transport_bytes g ++ padding g a.0 in
      let size : length (front ++ le16 (modbus front)) ≡ 530 = omega (
        arith,
        a.2,
        length-append front (le16 (modbus front)),
        length-front g a.0 h short (omega (arith, a.2)),
      ) in
      let (run, grows) = write-Grows s (front ++ le16 (modbus front)) 530 size in
      (_, send_frame-transport near malloc s g h t short a ∙ ap ok run, grows)

  send_frame-short-Grows :
      (s : S) (g : Frame) → IsFrame g → g.frame_type ≡ type_request_data → Sends s g 16
  send_frame-short-Grows s g h t =
      let size : length (short_line g) ≡ 16 = omega (
        arith,
        length-command_bytes g h.header_length,
        length-append (command_bytes g) (le16 (modbus (command_bytes g))),
      ) in
      let (run, grows) = write-Grows s (short_line g) 16 size in
      (_, send_frame-short near malloc s g h (inr t) (alloc 16 (omega arith)) ∙ ap ok run, grows)

  -- A frame that is ready for the data of the image.
  abbrev Ready : Frame → Type 0
  Ready g = IsFrame g × (g.frame_type ≡ type_transport_data)

  send_chunk-Grows :
      (others : Frame → S → Run (S × Frame)) (img : List ℕ) (p : ℕ) (output : Frame) (s : S) (n : ℕ)
      → p + n ≤ length img
      → n ≤ 512
      → IsBytes img
      → Ready output
      → (out : Frame) × (t : S) × Ready out
        × (out.data_len ≡ n)
        × Grows s 530 t
        × (send_chunk (send_frame near malloc) others n img p output s ≡ others out t)
  send_chunk-Grows others img p output s n inside most bytes (h, typed) =
      let d = take n (drop p img) in
      let rest = drop (length d) output.data_bytes in
      let size : length d ≡ n = omega (arith, length-take n (drop p img), length-drop p img) in
      let filled : AreBytes 512 (d ++ rest) = (
        omega
            (arith, length-append d rest, length-drop (length d) output.data_bytes, h.data_length),
        IsBytes-append d rest (IsBytes-take n (drop p img) (IsBytes-drop p img bytes))
            (IsBytes-drop (length d) output.data_bytes h.data_range),
      ) in
      let out = record output { data_len = n; data_bytes = d ++ rest } in
      let h' : IsFrame out = set_data output h n (d ++ rest) (omega arith) filled in
      let (t, run, grows) = send_frame-Grows s out h' typed most in
      (
        out,
        t,
        (h', typed),
        refl,
        grows,
        rw
            (
              load_inside img p n inside,
              store_front output.data_bytes d (omega (arith, h.data_length)),
              run,
            )
            refl,
      )

  send_chunks-Grows :
      (remaining i : ℕ) (img : List ℕ) (output : Frame) (s : S)
      → i + remaining ≡ total_frames (length img)
      → output.data_len ≡ 512
      → IsBytes img
      → Ready output
      → (t : S) × (out : Frame) × Ready out
        × Grows s (remaining * 530) t
        × (send_chunks (send_frame near malloc) remaining i img (i * 512) output s ≡ ok (t, out))
  send_chunks-Grows zero i img output s total len bytes ready = (
    s,
    output,
    ready,
    omega arith,
    send_chunks-zero (send_frame near malloc) i img (i * 512) output s,
  )
  send_chunks-Grows (suc zero) i img output s total len bytes ready =
      let send = send_frame near malloc in
      let n = length img % 512 in
      let last : (i == total_frames (length img) - 1) ≡ true = ground arith in
      let (out, t, ready', _, grows, step) =
        send_chunk-Grows (send_chunks send zero (suc i) img (i * 512 + n)) img (i * 512) output s n
          (ground arith) (omega arith) bytes ready in
      (
        t,
        out,
        ready',
        grows,
        send_chunks-suc send zero i img (i * 512) output s n (rw last refl)
            ∙ step
            ∙ send_chunks-zero send (suc i) img (i * 512 + n) out t,
      )
  send_chunks-Grows (suc (suc r)) i img output s total len bytes ready =
      let send = send_frame near malloc in
      let more : (i == total_frames (length img) - 1) ≡ false = ground arith in
      let (out, t, ready', len', grows, step) =
        send_chunk-Grows (send_chunks send (suc r) (suc i) img (i * 512 + 512)) img (i * 512) output
          s 512 (ground arith) (omega arith) bytes ready in
      let (u, out', ready'', grows', rest) =
        send_chunks-Grows (suc r) (suc i) img out t (omega arith) len' bytes ready' in
      let start : suc i * 512 ≡ i * 512 + 512 = omega arith in
      (
        u,
        out',
        ready'',
        omega (arith, grows, grows'),
        send_chunks-suc send (suc r) i img (i * 512) output s 512 (rw more len)
            ∙ step
            ∙ (rw start at rest),
      )

  -- For an image of bytes, and where `write` takes all that it is given, the answer ends, and what
  -- goes over the line is 530 bytes for each frame of the image and the 16 bytes of a request.
  pub answer_request-Grows :
      (img : List ℕ) (input output : Frame) (s : S)
      → IsBytes img
      → IsFrame input
      → IsFrame output
      → (t : S) × (out : Frame) × IsFrame out
        × Grows s (total_frames (length img) * 530 + 16) t
        × (answer_request (send_frame near malloc) img input output s ≡ ok (t, out))
  unfolding answer_request
  answer_request-Grows img input output s bytes hi ho =
      let typed = set_type output ho type_transport_data (omega arith) in
      let named =
        set_n_file (record output { frame_type = type_transport_data }) typed input.n_file
          hi.n_file_range in
      let full =
        set_data_len (record output { frame_type = type_transport_data; n_file = input.n_file })
          named 512 (omega arith) in
      let (t, out, ready, grows, run) =
        send_chunks-Grows (total_frames (length img)) 0 img _ s (omega arith) refl bytes
          (full, refl) in
      let asks = set_type out ready.0 type_request_data (omega arith) in
      let (u, run', grows') =
        send_frame-short-Grows t (record out { frame_type = type_request_data }) asks refl in
      (u, _, asks, omega (arith, grows, grows'), rw (run, run') refl)
