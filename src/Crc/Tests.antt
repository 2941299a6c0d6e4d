-- ===== src/Crc/Tests.antt =====
-- Runs of `crc16`.
use deep_space_detection.Base.{ℕ, ◌≡◌, ◌≢◌, refl, arith, List, [], ◌∷◌, ok, take, IsBytes}
use deep_space_detection.Crc.{crc16}
use deep_space_detection.Crc.Reference.{modbus, crc16-modbus}
use deep_space_detection.Crc.Detect.{crc16_detects_byte}

-- "123456789", of which the check value of CRC-16/MODBUS is known.
abbrev digits : List ℕ
digits = b'1' ∷ b'2' ∷ b'3' ∷ b'4' ∷ b'5' ∷ b'6' ∷ b'7' ∷ b'8' ∷ b'9' ∷ []

check_value : crc16 digits 9 ≡ ok 0x4b37
unfolding crc16
check_value = refl

digits-IsBytes : IsBytes digits
digits-IsBytes = omega arith

crc16-modbus_example : crc16 digits 8 ≡ ok (modbus (take 8 digits))
crc16-modbus_example = crc16-modbus digits 8 digits-IsBytes (omega arith) (omega arith)

crc16_detects_byte_example : crc16 (1 ∷ 2 ∷ 3 ∷ []) 3 ≢ crc16 (1 ∷ 7 ∷ 3 ∷ []) 3
crc16_detects_byte_example =
    crc16_detects_byte (1 ∷ []) (3 ∷ []) 2 7 (omega arith) (omega arith) (omega arith) (omega arith)
      (omega arith) (omega arith)
