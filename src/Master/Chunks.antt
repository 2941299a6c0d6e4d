-- ===== src/Master/Chunks.antt =====
-- What of an image is sent.
use deep_space_detection.Base.{
  false, true, ℕ, zero, suc, ◌+◌, ◌-◌, ◌*◌, ◌%◌, ◌≡◌, ◌≤◌, ◌∙◌, refl, ap, sym, arith, ◌==◌,
  if◌then◌else◌, List, [], ◌∷◌, ◌++◌, length, take, drop, Option, some, Run, ok, load, store,
  drop-drop, Bool, true, false, take_self, length-take, length-drop, length-append,
  take-append_self,
}
use mathlib.Core.List.{append-nil, append_assoc}
use deep_space_detection.Protocol.Frame.{Frame}
use deep_space_detection.Master.{send_chunk, total_frames, send_chunks}

abbrev none_left : List ℕ
none_left = []

take_nothing : (n : ℕ) → take n none_left ≡ none_left
take_nothing zero = refl
take_nothing (suc n) = refl

take_add : (m n : ℕ) (xs : List ℕ) → take (m + n) xs ≡ take m xs ++ take n (drop m xs)
take_add zero n xs = ap (λ (k : ℕ). take k xs) (omega arith)
take_add (suc m) n [] = take_nothing (suc m + n) ∙ sym (take_nothing n)
take_add (suc m) n (x ∷ xs) = rw eq (ap (◌∷◌ x) (take_add m n xs))
  where
    eq : suc m + n ≡ suc (m + n)
    eq = omega arith

pub load_inside :
    (buf : List ℕ) (p n : ℕ) → p + n ≤ length buf → load buf p n ≡ ok (take n (drop p buf))
unfolding load
load_inside buf p n h = ground arith

pub store_front :
    (buf src : List ℕ)
    → length src ≤ length buf
    → store buf 0 src ≡ ok (src ++ drop (length src) buf)
unfolding store
store_front buf src h = ground arith

-- A line that keeps the data of the frames.
abbrev pub note_data : List ℕ → Frame → Run (List ℕ × Option ℕ)
note_data sent f = ok (sent ++ take f.data_len f.data_bytes, some 530)

note_chunk :
    (next : Frame → List ℕ → Run (List ℕ × Frame)) (img : List ℕ) (p : ℕ) (output : Frame)
    (sent : List ℕ) (n : ℕ)
    → p + n ≤ length img
    → n ≤ 512
    → length output.data_bytes ≡ 512
    → (out : Frame) × (out.data_len ≡ n)
      × (length out.data_bytes ≡ 512)
      × (send_chunk note_data next n img p output sent ≡ next out (sent ++ take n (drop p img)))
note_chunk next img p output sent n inside most full =
    let d = take n (drop p img) in
    let size : length d ≡ n = omega (arith, length-take n (drop p img), length-drop p img) in
    let rest = drop (length d) output.data_bytes in
    let out = record output { data_len = n; data_bytes = d ++ rest } in
    (
      out,
      refl,
      omega (arith, length-append d rest, length-drop (length d) output.data_bytes),
      rw (load_inside img p n inside, store_front output.data_bytes d (omega arith))
          (ap (λ k. next out (sent ++ k))
            (ap (λ (k : ℕ). take k (d ++ rest)) (sym size) ∙ take-append_self d rest)),
    )

-- The bytes in the last frames of an image.
abbrev pub bytes_in : ℕ → ℕ → ℕ
bytes_in zero size = 0
bytes_in (suc zero) size = size % 512
bytes_in (suc (suc remaining)) size = 512 + bytes_in (suc remaining) size

module _ {ℓ} {S : Type ℓ} (send : S → Frame → Run (S × Option ℕ)) where
  pub send_chunks-zero :
      (i : ℕ) (img : List ℕ) (p : ℕ) (output : Frame) (sent : S)
      → send_chunks send zero i img p output sent ≡ ok (sent, output)
  unfolding send_chunks
  send_chunks-zero i img p output sent = refl

  pub send_chunks-suc :
      (remaining i : ℕ) (img : List ℕ) (p : ℕ) (output : Frame) (sent : S) (n : ℕ)
      → (if i == total_frames (length img) - 1 then length img % 512 else output.data_len) ≡ n
      → send_chunks send (suc remaining) i img p output sent
        ≡ send_chunk send (send_chunks send remaining (suc i) img (p + n)) n img p output sent
  unfolding send_chunks
  send_chunks-suc remaining i img p output sent n e =
      ap (λ k. send_chunk send (send_chunks send remaining (suc i) img (p + k)) k img p output sent)
        e

send_chunks-note_data :
    (remaining i : ℕ) (img : List ℕ) (output : Frame) (sent : List ℕ)
    → i + remaining ≡ total_frames (length img)
    → output.data_len ≡ 512
    → length output.data_bytes ≡ 512
    → (out : Frame) × (send_chunks note_data remaining i img (i * 512) output sent
        ≡ ok (sent ++ take (bytes_in remaining (length img)) (drop (i * 512) img), out))
send_chunks-note_data zero i img output sent total len full = (
  output,
  send_chunks-zero note_data i img (i * 512) output sent
      ∙ ap (λ l. ok (l, output)) (sym (append-nil sent)),
)
send_chunks-note_data (suc zero) i img output sent total len full =
    let n = length img % 512 in
    let last : (i == total_frames (length img) - 1) ≡ true = ground arith in
    let (out, _, _, step) =
      note_chunk (send_chunks note_data zero (suc i) img (i * 512 + n)) img (i * 512) output sent n
        (ground arith) (omega arith) full in
    (
      out,
      send_chunks-suc note_data zero i img (i * 512) output sent n (rw last)
          ∙ step
          ∙ send_chunks-zero note_data (suc i) img (i * 512 + n) out
              (sent ++ take n (drop (i * 512) img)),
    )
send_chunks-note_data (suc (suc r)) i img output sent total len full =
    let more : (i == total_frames (length img) - 1) ≡ false = ground arith in
    let (out, len', full', step) =
      note_chunk (send_chunks note_data (suc r) (suc i) img (i * 512 + 512)) img (i * 512) output
        sent 512 (ground arith) (omega arith) full in
    let (out', rest) =
      send_chunks-note_data (suc r) (suc i) img out (sent ++ take 512 (drop (i * 512) img))
        (omega arith) len' full' in
    let start : suc i * 512 ≡ i * 512 + 512 = omega arith in
    let left = bytes_in (suc r) (length img) in
    let here = drop (i * 512) img in
    let join : sent ++ take 512 here ++ take left (drop (i * 512 + 512) img)
        ≡ sent ++ take (512 + left) here =
      append_assoc sent (take 512 here) (take left (drop (i * 512 + 512) img))
      ∙ ap (λ l. sent ++ l)
          (ap (λ l. take 512 here ++ take left l) (sym (drop-drop 512 (i * 512) img))
            ∙ sym (take_add 512 left here)) in
    (
      out',
      send_chunks-suc note_data (suc r) i img (i * 512) output sent 512 (rw more len)
          ∙ step
          ∙ (rw start at rest)
          ∙ ap (λ l. ok (l, out')) join,
    )

bytes_in-suc : (r size : ℕ) → bytes_in (suc r) size ≡ r * 512 + size % 512
bytes_in-suc zero size = omega arith
bytes_in-suc (suc r) size = omega (arith, bytes_in-suc r size)

bytes_in_total :
    (t size : ℕ)
    → t ≡ total_frames size
    → bytes_in t size ≡ (if size % 512 == 0 then size - 512 else size)
bytes_in_total zero size e = ground arith
bytes_in_total (suc r) size e = ground (arith, bytes_in-suc r size)

take_if :
    (b : Bool) (n : ℕ) (xs : List ℕ)
    → take (if b then n else length xs) xs ≡ (if b then take n xs else xs)
take_if true n xs = refl
take_if false n xs = take_self xs

-- The answer to a request for an image, over a line that keeps the data of every frame, with a
-- first length of 512 and a data array of 512 bytes, stays within the image and ends; the data
-- that it sends is the whole image in order if its size is no multiple of 512, and otherwise all
-- but the last 512 bytes, since the last frame is sent with no data.
pub send_chunks_lem :
    (img : List ℕ) (output : Frame)
    → output.data_len ≡ 512
    → length output.data_bytes ≡ 512
    → let size = length img in
      (out : Frame) × (send_chunks note_data (total_frames size) 0 img 0 output []
        ≡ ok (if size % 512 == 0 then take (size - 512) img else img, out))
send_chunks_lem img output len full =
    let (out, run) =
      send_chunks-note_data (total_frames (length img)) 0 img output [] (omega arith) len full in
    let size = length img in
    (
      out,
      run
          ∙ ap (λ (k : ℕ). ok (take k img, out)) (bytes_in_total (total_frames size) size refl)
          ∙ ap (λ l. ok (l, out)) (take_if (size % 512 == 0) (size - 512) img),
    )
