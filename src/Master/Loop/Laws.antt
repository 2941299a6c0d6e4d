-- ===== src/Master/Loop/Laws.antt =====
-- What becomes of a frame of data at the master.
use deep_space_detection.Base.{
  ℕ, ◌+◌, ◌≡◌, refl, arith, Bool, List, [], ◌∷◌, ◌++◌, Option, some, none, ok, fault, Run, ◌>>=◌,
  length, length-append, store, store_outside,
}
use deep_space_detection.Protocol.Frame.{Frame, type_transport_data}
use deep_space_detection.Protocol.Stream.{Malloc}
use deep_space_detection.Protocol.Link.{Tty, unless_null}
use deep_space_detection.Slave.{Files}
use deep_space_detection.Master.Loop.{Img, img_at, file_name, bin, receive_data, handle}

module _ (basename : List ℕ → List ℕ) (malloc : Malloc) (opens : List ℕ → Bool)
    (imgs : List (Option Img)) (output_dir : List ℕ)
    (sized : (n : ℕ) (a : List ℕ) → malloc n ≡ some a → length a ≡ n) where
  length-file_name :
      (img : Img)
      → length (file_name basename malloc opens imgs output_dir img)
        ≡ length output_dir + length (basename img.name) + 5
  length-file_name img = omega (
    arith,
    length-append output_dir (b'/' ∷ basename img.name ++ bin),
    length-append (b'/' ∷ basename img.name) bin,
  )

  -- The name and the zero at its end do not fit into the memory for the name.
  no_room :
      (img : Img) (m : Option (List ℕ)) (next : List ℕ → Run Files)
      → let len = length output_dir + length (basename img.name) + 5 in
        malloc len ≡ m
        → (unless_null (malloc len) >>= λ buffer.
            store buffer 0 (file_name basename malloc opens imgs output_dir img ++ 0 ∷ []) >>= next)
          ≡ fault
  no_room img none next e = rw e refl
  no_room img (some a) next e =
      let name = file_name basename malloc opens imgs output_dir img in
      let size : length a ≡ length output_dir + length (basename img.name) + 5 = sized _ a e in
      let outside : store a 0 (name ++ 0 ∷ []) ≡ fault =
        store_outside a 0 (name ++ 0 ∷ [])
          (omega (arith, size, length-file_name img, length-append name (0 ∷ []))) in
      rw (e, outside) refl

  receive_data-at :
      (found : Run Img) (input : Frame) (files : Files)
      → img_at imgs input.n_file ≡ found
      → receive_data basename malloc opens imgs output_dir input files ≡ fault
  unfolding receive_data
  receive_data-at fault input files e = rw e refl
  receive_data-at (ok img) input files e =
      rw e (no_room img (malloc (length output_dir + length (basename img.name) + 5)) _ refl)

  pub receive_data-fault :
      (input : Frame) (files : Files)
      → receive_data basename malloc opens imgs output_dir input files ≡ fault
  receive_data-fault input files = receive_data-at (img_at imgs input.n_file) input files refl

  module _ {ℓ} {S : Type ℓ} (tty : Tty S) (fresh : Option Frame) where
    -- Where `malloc` gives the bytes asked for or fails, the master runs into undefined
    -- behaviour on every frame of data, whatever its images, its directory and the frame: either
    -- there is no such image or no memory, or `sprintf` writes the zero behind the memory for
    -- the name.
    pub handle_data :
        (line : S) (input output : Frame) (files : Files)
        → input.frame_type ≡ type_transport_data
        → handle basename malloc opens imgs output_dir tty fresh line input output files ≡ fault
    unfolding handle receive_data
    handle_data line input output files e =
        rw (e, receive_data-at (img_at imgs input.n_file) input files refl) refl
