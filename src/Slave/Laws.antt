-- ===== src/Slave/Laws.antt =====
-- What becomes of the files: the case of a frame of data in main.c.
use deep_space_detection.Base.{
  leb, ℕ, ◌+◌, ◌≡◌, ◌≤◌, refl, arith, ◌==◌, leb, Bool-cases, inl, inr, if◌then◌else◌, Bool, false,
  List, [], ◌∷◌, ◌++◌, some, take, drop, length, length-append, ok, fault, store, store_outside,
}
use deep_space_detection.Protocol.Frame.{Frame, type_transport_data}
use deep_space_detection.Protocol.Stream.{Malloc}
use deep_space_detection.Slave.{Files, file_name, yuv, receive_data}

store_inside :
    (buf src : List ℕ) → length src ≤ length buf → (out : List ℕ) × (store buf 0 src ≡ ok out)
unfolding store
store_inside buf src h = (take 0 buf ++ (src ++ drop (0 + length src) buf), ground arith)

module _ (print : ℕ → List ℕ) (malloc : Malloc) (opens : List ℕ → Bool) (output_dir buffer : List ℕ)
    (input output : Frame) (files : Files) (made : malloc (length output_dir + 4 + 5) ≡ some buffer)
    (room : length buffer ≡ length output_dir + 4 + 5) where
  length-file_name :
      length (file_name print malloc opens output_dir input.n_file)
      ≡ length output_dir + 5 + length (print input.n_file)
  length-file_name = omega (
    arith,
    length-append output_dir (b'/' ∷ print input.n_file ++ yuv),
    length-append (b'/' ∷ print input.n_file) yuv,
  )

  -- Of a frame of data the slave saves nothing, whatever its directory and its frame: if the
  -- number of the file prints as at most three characters, the files are as before and only the
  -- type of the frame to send is set; if as more, `sprintf` writes past the end of the memory
  -- that `malloc` gives for the name, which has the length asked for.
  pub receive_data_lem : receive_data print malloc opens output_dir input output files ≡ (
      if leb (length (print input.n_file)) 3
      then ok (files, record output { frame_type = type_transport_data })
      else fault)
  unfolding receive_data
  receive_data_lem =
      let name = file_name print malloc opens output_dir input.n_file in
      let whole : length (name ++ 0 ∷ []) ≡ length name + 1 =
        omega (arith, length-append name (0 ∷ [])) in
      elim (Bool-cases (leb (length (print input.n_file)) 3)) [
        | inl e ↦
            let (out, fits) =
              store_inside buffer (name ++ 0 ∷ []) (ground (arith, length-file_name)) in
            let other : (length name == length output_dir + 4 + 5) ≡ false =
              ground (arith, length-file_name) in
            rw (made, fits, other, e) refl
        | inr e ↦
            let outside : store buffer 0 (name ++ 0 ∷ []) ≡ fault =
              store_outside buffer 0 (name ++ 0 ∷ []) (ground (arith, length-file_name)) in
            rw (made, outside, e) refl
      ]
