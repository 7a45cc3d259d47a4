-- ===== src/Modbus/Crc.antt =====
-- `mb_rtu_compute_crc16` of lib/modbus/modbus_rtu_client.c. A byte or a 16-bit word is a number
-- below 2 ^ 8 or 2 ^ 16; `crc >> 1` and both exclusive ors stay below 2 ^ 16, so no cast cuts.
pub mod Register
pub mod Residue
pub mod Detect
mod Tests
use loop_charger_inverter.Prelude.{ℕ, ◌/◌, List, [], ◌∷◌, ◌==◌, if◌then◌else◌, bit_and, bit_xor}

abbrev pub crc_polynomial : ℕ
crc_polynomial = 0xA001

abbrev pub crc_init : ℕ
crc_init = 0xFFFF

-- The body of the inner loop: one bit.
pub crc_bit : ℕ → ℕ
crc_bit crc = if bit_and crc 1 == 0 then crc / 2 else bit_xor (crc / 2) crc_polynomial

-- The inner loop, `bit` from 0 to 7.
pub crc_eight : ℕ → ℕ
unfolding crc_bit
crc_eight crc = crc_bit (crc_bit (crc_bit (crc_bit (crc_bit (crc_bit (crc_bit (crc_bit crc)))))))

-- The body of the outer loop: one byte.
pub crc_byte : ℕ → ℕ → ℕ
unfolding crc_eight
crc_byte crc byte = crc_eight (bit_xor crc byte)

-- The outer loop from a given register.
unfoldable pub crc_from : ℕ → List ℕ → ℕ
unfolding crc_byte
crc_from crc [] = crc
crc_from crc (byte ∷ rest) = crc_from (crc_byte crc byte) rest

unfoldable pub compute_crc16 : List ℕ → ℕ
unfolding crc_from
compute_crc16 bytes = crc_from crc_init bytes
