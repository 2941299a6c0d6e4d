-- ===== src/Slave.antt =====
-- What the slave does with a frame of data: the case of one in the loop of `main` of main.c under
-- project-spec/meta-user/recipes-apps/autostart/src. `print` is the conversion `%d` of `sprintf`,
-- and `opens` tells for which names `fopen` succeeds.
pub mod Laws
pub mod Loop
pub mod Main
mod Tests
use deep_space_detection.Base.{
  ℕ, ◌+◌, ◌==◌, bytes_eq, if◌then◌else◌, Bool, List, [], ◌∷◌, ◌++◌, length, Run, ok, ◌>>=◌, load,
  store,
}
use deep_space_detection.Protocol.Frame.{Frame, type_transport_data}
use deep_space_detection.Protocol.Stream.{Malloc}
use deep_space_detection.Protocol.Link.{unless_null}

-- The contents of each file, by name.
abbrev pub Files : Type 0
Files = List ℕ → List ℕ

-- `fwrite` to a file that is opened with "a".
abbrev pub append_to : List ℕ → List ℕ → Files → Files
append_to name bytes files other = if bytes_eq name other then files other ++ bytes else files other

abbrev pub yuv : List ℕ
yuv = b'.' ∷ b'y' ∷ b'u' ∷ b'v' ∷ []

module _ (print : ℕ → List ℕ) (malloc : Malloc) (opens : List ℕ → Bool) where
  -- What `sprintf` writes, less the zero at its end.
  abbrev pub file_name : List ℕ → ℕ → List ℕ
  file_name output_dir n_file = output_dir ++ (b'/' ∷ print n_file ++ yuv)

  -- The data of the frame, into the file of that name.
  abbrev pub append_data : Frame → List ℕ → Files → Run Files
  append_data input name files = do
    d ← load input.data_bytes 0 input.data_len
    ok (append_to name d files)

  -- The room is for four digits, and for no zero at the end of the name.
  unfoldable pub receive_data : List ℕ → Frame → Frame → Files → Run (Files × Frame)
  receive_data output_dir input output files = do
    let len = length output_dir + 4 + 5
    let name = file_name output_dir input.n_file
    buffer ← unless_null (malloc len)
    buffer ← store buffer 0 (name ++ 0 ∷ [])
    files ←
        (if length name == len
          then (if opens name then append_data input name files else ok files)
          else ok files)
    ok (files, record output { frame_type = type_transport_data })
