-- ===== src/Base/Ranges.antt =====
-- Buffers of bytes.
use deep_space_detection.Base.{ℕ, ◌≡◌, List, length, IsBytes}

-- `n` bytes.
abbrev pub AreBytes : ℕ → List ℕ → Type 0
AreBytes n d = (length d ≡ n) × IsBytes d
