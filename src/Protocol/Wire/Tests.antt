-- ===== src/Protocol/Wire/Tests.antt =====
-- Both directions of a line, as two queues of bytes.
use deep_space_detection.Base.{
  ℕ, ◌≤◌, ◌≡◌, refl, inr, List, [], ◌∷◌, ◌++◌, length, take, drop, Option, none, some, ok,
}
use deep_space_detection.Protocol.Link.{Tty, send_frame, receive_frame}
use deep_space_detection.Protocol.Link.Send.{short_line}
use deep_space_detection.Protocol.Link.Tests.{blank}
use deep_space_detection.Protocol.Stream.RoundTrip.{received, Allocates}
use deep_space_detection.Protocol.Tests.{request, request-IsFrame, malloc, malloc-Allocates}
use deep_space_detection.Protocol.Wire.{Wire}
use deep_space_detection.Protocol.Wire.Laws.{
  check, receive_frame-send_frame, receive_frame-send_frame_twice,
}

-- On the way to the master, and on the way to the slave.
abbrev pub Queues : Type 0
Queues = List ℕ × List ℕ

abbrev pub taken : List ℕ → ℕ → List ℕ × Option (List ℕ)
taken [] n = ([], none)
taken (b ∷ bs) n = (drop n (b ∷ bs), some (take n (b ∷ bs)))

abbrev pub slave_end : Tty Queues
slave_end = record {
  read = λ s n. ((s.0, (taken s.1 n).0), (taken s.1 n).1);
  write = λ s out. ((s.0 ++ out, s.1), some (length out));
}

abbrev pub master_end : Tty Queues
master_end = record {
  read = λ s n. (((taken s.0 n).0, s.1), (taken s.0 n).1);
  write = λ s out. ((s.0, s.1 ++ out), some (length out));
}

pub taken-some :
    (q : List ℕ) (n b : ℕ) (bs : List ℕ) → q ≡ b ∷ bs → (taken q n).1 ≡ some (take n (b ∷ bs))
taken-some q n b bs e = rw e refl

pub taken-drop : (q : List ℕ) (n b : ℕ) (bs : List ℕ) → q ≡ b ∷ bs → (taken q n).0 ≡ drop n (b ∷ bs)
taken-drop q n b bs e = rw e refl

abbrev pub to_master : Wire slave_end master_end
to_master = record {
  held = λ s. s.0;
  held-write = λ s out. refl;
  read-held = λ s. taken-some s.0;
  held-read = λ s. taken-drop s.0;
  held-write_back = λ s out. refl;
  held-read_back = λ s n. refl;
}

abbrev pub to_slave : Wire master_end slave_end
to_slave = record {
  held = λ s. s.1;
  held-write = λ s out. refl;
  read-held = λ s. taken-some s.1;
  held-read = λ s. taken-drop s.1;
  held-write_back = λ s out. refl;
  held-read_back = λ s n. refl;
}

abbrev pub allocates : (n : ℕ) → n ≤ 530 → Allocates malloc n
allocates n h = malloc-Allocates n

abbrev sum : ℕ
sum =
    check slave_end master_end to_master malloc blank request request-IsFrame refl (inr refl)
      allocates

receive_frame-send_frame_example :
    let sent = slave_end.write ([], []) (short_line request) in
    (u : Queues) × (send_frame slave_end malloc ([], []) request ≡ ok sent)
    × (receive_frame master_end malloc (some blank) sent.0 blank
        ≡ ok (u, some 16, received blank request sum))
    × (u.0 ≡ [])
receive_frame-send_frame_example =
    receive_frame-send_frame slave_end master_end to_master malloc blank request request-IsFrame
      refl (inr refl) allocates ([], []) blank refl

receive_frame-send_frame_twice_example :
    let sent = slave_end.write ([], []) (short_line request) in
    let again = slave_end.write sent.0 (short_line request) in
    (u : Queues) × (send_frame slave_end malloc ([], []) request ≡ ok sent)
    × (send_frame slave_end malloc sent.0 request ≡ ok again)
    × (receive_frame master_end malloc (some blank) again.0 blank
        ≡ ok (u, some 32, received blank request sum))
    × (u.0 ≡ [])
receive_frame-send_frame_twice_example =
    receive_frame-send_frame_twice slave_end master_end to_master malloc blank request
      request-IsFrame refl (inr refl) allocates ([], []) request blank request-IsFrame (inr refl)
      refl
