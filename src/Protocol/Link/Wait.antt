-- ===== src/Protocol/Link/Wait.antt =====
-- `wait_frame` of transmission_protocol.c: what it does with the line and with the results of
-- `receive_frame`.
use deep_space_detection.Base.{
  Post-then, ◌<◌, ℕ, zero, suc, ◌≤◌, ◌≡◌, refl, arith, List, some, none, Option, ltb, Run, ok, load,
  store, Post, Post-bind, Post-if, of_le, length,
}
use deep_space_detection.Protocol.Frame.{Frame, type_control, control_resend}
use deep_space_detection.Protocol.Stream.{Malloc, bit_stream2frame}
use deep_space_detection.Protocol.Link.{
  wait_next, Tty, receive_size, unless_null, take_body, receive_rest, take_type, receive_frame,
  wait_loop, wait_frame,
}

-- `t` is a state that the line reaches from `s` by reading alone.
pub data Reads {ℓ} {S : Type ℓ} (tty : Tty S) (s : S) : S → Type ℓ where
  here : Reads tty s s
  next : {t u : S} (n : ℕ) → Reads tty s t → (tty.read t n).0 ≡ u → Reads tty s u

-- The result -1, or a count of the eight bytes up to the type at least.
abbrev pub AtLeastType : Option ℕ → Type 0
AtLeastType none = Unit
AtLeastType (some m) = 8 ≤ m

module _ {ℓ} {S : Type ℓ} (tty : Tty S) (malloc : Malloc) (fresh : Option Frame) where
  abbrev Received : S → S × Option ℕ × Frame → Type ℓ
  Received s r = Reads tty s r.0 × AtLeastType r.1

  take_body-Received :
      (s t : S) (f : Frame) (buffer : List ℕ) (got : Option (List ℕ))
      → Reads tty s t
      → Post (Received s) (take_body tty malloc fresh t f buffer got)
  unfolding take_body
  take_body-Received s t f buffer none r = (r, tt)
  take_body-Received s t f buffer (some more) r =
      Post-bind (Received s) (store buffer 8 more) _ λ b.
        Post-bind (Received s) (bit_stream2frame malloc fresh b) _
          λ p. Post-bind (Received s) (unless_null p) _ λ g. (r, omega arith)

  receive_rest-Received :
      (s t : S) (f : Frame) (temp : List ℕ)
      → Reads tty s t
      → Post (Received s) (receive_rest tty malloc fresh t f temp)
  unfolding receive_rest
  receive_rest-Received s t f temp r = Post-bind (Received s) (load temp 6 2) _ λ l.
      Post-bind (Received s) (receive_size (of_le l)) _ λ size.
        Post-bind (Received s) (unless_null (malloc size)) _ λ b.
          Post-bind (Received s) (store b 0 temp) _
            λ b'. take_body-Received s _ f b' _ (next _ r refl)

  take_type-Received :
      (s t : S) (f : Frame) (got : Option (List ℕ))
      → Reads tty s t
      → Post (Received s) (take_type tty malloc fresh t f got)
  unfolding take_type
  take_type-Received s t f none r = (r, tt)
  take_type-Received s t f (some bytes) r = Post-bind (Received s) (store _ 0 bytes) _ λ temp.
      Post-if (Received s) (ltb (length bytes) 8) _ _ (r, tt) (receive_rest-Received s t f temp r)

  -- If `receive_frame` runs through, it has only read from the line, and its result is -1 or at
  -- least 8. The result 0, by which the caller would learn of a damaged frame, does not occur.
  pub receive_frame-AtLeastType :
      (s : S) (f : Frame)
      → Post (λ r. Reads tty s r.0 × AtLeastType r.1) (receive_frame tty malloc fresh s f)
  unfolding receive_frame
  receive_frame-AtLeastType s f = take_type-Received s _ f _ (next 8 here refl)

  -- What `wait_frame` leaves of the line and of the frame to send.
  abbrev pub Waited : S → Frame → Option (S × Frame × Frame) → Type ℓ
  Waited s output none = Unit
  Waited s output (some (t, input, output')) = Reads tty s t × (output' ≡ output)

  wait_next-Waited :
      (s t : S) (again : S → Frame → Frame → Run (Option (S × Frame × Frame))) (n : Option ℕ)
      (input output : Frame)
      → Reads tty s t
      → AtLeastType n
      → Post (Waited s output) (again t input output)
      → Post (Waited s output) (wait_next tty malloc fresh again t n input output)
  unfolding wait_next
  wait_next-Waited s t again none input output r p h = h
  wait_next-Waited s t again (some zero) input output r p h = absurd (omega arith)
  wait_next-Waited s t again (some (suc m)) input output r p h = (r, refl)

  pub Reads-trans : {s t u : S} → Reads tty s t → Reads tty t u → Reads tty s u
  Reads-trans r here = r
  Reads-trans r (next n q e) = next n (Reads-trans r q) e

  wait_loop-Waited :
      (k : ℕ) (s t : S) (input output : Frame)
      → Reads tty s t
      → Post (Waited s output) (wait_loop tty malloc fresh k t input output)
  unfolding wait_loop
  wait_loop-Waited zero s t input output r = tt
  wait_loop-Waited (suc k) s t input output r =
      Post-then (Received t) (Waited s output) (receive_frame tty malloc fresh t input) _
        (receive_frame-AtLeastType t input)
        λ q (reads, least).
          let r' = Reads-trans r reads in
          wait_next-Waited s q.0 _ q.1 q.2 output r' least (wait_loop-Waited k s q.0 q.2 output r')

  -- If `wait_frame` returns, it has only read from the line: nothing was sent, no request to
  -- send again either; and of the frame to send it has set the type and the command number, and
  -- left the count of frames.
  pub wait_frame-Reads :
      (k : ℕ) (s : S) (input output : Frame)
      → Post
          (Waited s (record output { frame_type = type_control; n_file = control_resend }))
          (wait_frame tty malloc fresh k s input output)
  unfolding wait_frame
  wait_frame-Reads k s input output = wait_loop-Waited k s s input _ here

  -- `n` calls of `receive_frame` that report a failing or short read.
  pub data Fails : ℕ → S → Frame → S → Frame → Type ℓ where
    done : {s : S} {f : Frame} → Fails zero s f s f
    more :
        {n : ℕ} {s t u : S} {f g h : Frame}
        → receive_frame tty malloc fresh s f ≡ ok (t, none, g)
        → Fails n t g u h
        → Fails (suc n) s f u h

  wait_loop-arrives :
      (k n m : ℕ) {s t u : S} {f g h : Frame} (output : Frame)
      → Fails n s f t g
      → receive_frame tty malloc fresh t g ≡ ok (u, some (suc m), h)
      → n < k
      → wait_loop tty malloc fresh k s f output ≡ ok (some (u, h, output))
  unfolding wait_loop wait_next
  wait_loop-arrives zero n m output fails r lt = absurd (omega arith)
  wait_loop-arrives (suc k) _ m output done r lt = rw r
  wait_loop-arrives (suc k) _ m output (more e fails) r lt =
      rw e (wait_loop-arrives k _ m output fails r (omega arith))

  -- `wait_frame` retries while reads fail or are short, and returns the first frame that
  -- arrives: fuel for one round more than the failures is enough.
  pub wait_frame-arrives :
      (k n m : ℕ) {s t u : S} {f g h : Frame} (output : Frame)
      → Fails n s f t g
      → receive_frame tty malloc fresh t g ≡ ok (u, some (suc m), h)
      → n < k
      → wait_frame tty malloc fresh k s f output
        ≡ ok (some (u, h, record output { frame_type = type_control; n_file = control_resend }))
  unfolding wait_frame
  wait_frame-arrives k n m output fails r lt = wait_loop-arrives k n m _ fails r lt
