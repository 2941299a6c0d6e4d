-- ===== src/Protocol/Frame.antt =====
-- The constants and the frame of transmission_protocol.h.
pub mod Ranges
use deep_space_detection.Base.{ℕ, ◌^◌, ◌<◌, ◌≡◌, List, [], ◌∷◌, length, All}

abbrev pub tp_header : List ℕ
tp_header = 0xeb ∷ 0x90 ∷ 0xeb ∷ 0x90 ∷ []

abbrev pub address_master : ℕ
address_master = 0

abbrev pub address_slave : ℕ
address_slave = 1

abbrev pub type_control : ℕ
type_control = 1

abbrev pub type_request_data : ℕ
type_request_data = 3

abbrev pub type_transport_data : ℕ
type_transport_data = 5

abbrev pub size_control : ℕ
size_control = 16

abbrev pub size_request_data : ℕ
size_request_data = 16

abbrev pub size_transport_data : ℕ
size_transport_data = 530

-- The bytes up to the frame type, which tell how long a frame is.
abbrev pub size_cmd_type : ℕ
size_cmd_type = 8

abbrev pub data_len_max : ℕ
data_len_max = 512

abbrev pub control_resend : ℕ
control_resend = 0

-- `frame_t`. The members `n_file` and `cmd_id` of its anonymous union are the same four bytes,
-- and so one field here.
pub record Frame : Type 0 where
  pub header : List ℕ
  pub address : ℕ
  pub frame_type : ℕ
  pub n_file : ℕ
  pub n_frame : ℕ
  pub data_len : ℕ
  pub data_bytes : List ℕ
  pub check_sum : ℕ

-- Every member is in the range of its C type, and the arrays have their declared lengths.
pub record IsFrame (f : Frame) : Type 0 where
  pub header_length : length f.header ≡ 4
  pub header_bytes : All (λ b. b < 256) f.header
  pub address_range : f.address < 2 ^ 16
  pub frame_type_range : f.frame_type < 2 ^ 16
  pub n_file_range : f.n_file < 2 ^ 32
  pub n_frame_range : f.n_frame < 2 ^ 16
  pub data_len_range : f.data_len < 2 ^ 16
  pub data_length : length f.data_bytes ≡ 512
  pub data_range : All (λ b. b < 256) f.data_bytes
  pub check_sum_range : f.check_sum < 2 ^ 16
