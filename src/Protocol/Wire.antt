-- ===== src/Protocol/Wire.antt =====
-- A serial line between the two programs, as `send_frame` and `receive_frame` of
-- transmission_protocol.c meet it: what one end writes, the other one reads.
pub mod Laws
pub mod Tests
use deep_space_detection.Base.{ℕ, ◌≡◌, List, ◌∷◌, ◌++◌, Option, some, take, drop}
use deep_space_detection.Protocol.Link.{Tty}

-- One direction of the line, in its raw mode, from the end `near` to the end `far`: the bytes that
-- are on the way keep their order, and a `read` takes as many of them as it asks for, or all if
-- there are fewer. What goes the other way leaves them alone.
pub record Wire {ℓ} {S : Type ℓ} (near far : Tty S) : Type ℓ where
  pub held : S → List ℕ
  pub held-write : (s : S) (out : List ℕ) → held (near.write s out).0 ≡ held s ++ out
  pub read-held :
      (s : S) (n b : ℕ) (bs : List ℕ) → held s ≡ b ∷ bs → (far.read s n).1 ≡ some (take n (b ∷ bs))
  pub held-read :
      (s : S) (n b : ℕ) (bs : List ℕ) → held s ≡ b ∷ bs → held (far.read s n).0 ≡ drop n (b ∷ bs)
  pub held-write_back : (s : S) (out : List ℕ) → held (far.write s out).0 ≡ held s
  pub held-read_back : (s : S) (n : ℕ) → held (near.read s n).0 ≡ held s
