-- ===== src/Protocol/Frame/Ranges.antt =====
-- A frame whose members are in the ranges of their types, after an assignment to some of them.
use deep_space_detection.Base.{ℕ, ◌^◌, ◌<◌, ◌≡◌, List, length, IsBytes}
use deep_space_detection.Base.Ranges.{AreBytes}
use deep_space_detection.Protocol.Frame.{Frame, IsFrame}

pub in_range :
    (f : Frame)
    → length f.header ≡ 4
    → IsBytes f.header
    → f.address < 2 ^ 16
    → f.frame_type < 2 ^ 16
    → f.n_file < 2 ^ 32
    → f.n_frame < 2 ^ 16
    → f.data_len < 2 ^ 16
    → length f.data_bytes ≡ 512
    → IsBytes f.data_bytes
    → f.check_sum < 2 ^ 16
    → IsFrame f
in_range f hl hb a t i n l dl db c = record {
  header_length = hl;
  header_bytes = hb;
  address_range = a;
  frame_type_range = t;
  n_file_range = i;
  n_frame_range = n;
  data_len_range = l;
  data_length = dl;
  data_range = db;
  check_sum_range = c;
}

module _ (f : Frame) (h : IsFrame f) where
  pub set_type : (t : ℕ) → (lt : t < 2 ^ 16) → IsFrame (record f { frame_type = t })
  set_type t lt =
      in_range (record f { frame_type = t }) h.header_length h.header_bytes h.address_range lt
        h.n_file_range h.n_frame_range h.data_len_range h.data_length h.data_range h.check_sum_range

  pub set_n_file : (n : ℕ) → (lt : n < 2 ^ 32) → IsFrame (record f { n_file = n })
  set_n_file n lt =
      in_range (record f { n_file = n }) h.header_length h.header_bytes h.address_range
        h.frame_type_range lt h.n_frame_range h.data_len_range h.data_length h.data_range
        h.check_sum_range

  pub set_data :
      (n : ℕ)
      → (d : List ℕ) → (lt : n < 2 ^ 16) → (is : AreBytes 512 d)
      → IsFrame (record f { data_len = n; data_bytes = d })
  set_data n d lt is =
      in_range (record f { data_len = n; data_bytes = d }) h.header_length h.header_bytes
        h.address_range h.frame_type_range h.n_file_range h.n_frame_range lt is.0 is.1
        h.check_sum_range

  pub set_data_len : (n : ℕ) → (lt : n < 2 ^ 16) → IsFrame (record f { data_len = n })
  set_data_len n lt =
      in_range (record f { data_len = n }) h.header_length h.header_bytes h.address_range
        h.frame_type_range h.n_file_range h.n_frame_range lt h.data_length h.data_range
        h.check_sum_range
