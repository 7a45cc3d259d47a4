-- ===== src/Modbus/Crc/Residue.antt =====
-- The register after a frame and its own CRC, low byte first.
use loop_charger_inverter.Prelude.{ℕ, ◌*◌, ◌/◌, ◌%◌, ◌≡◌, ◌∙◌, ap, List, [], ◌∷◌, ◌++◌, arith}
use loop_charger_inverter.Prelude.Bits.{bit_and-one, bit_xor_byte, bit_xor_self}
use loop_charger_inverter.Modbus.Crc.{crc_bit, crc_eight, crc_byte, crc_from, compute_crc16}
use loop_charger_inverter.Modbus.Crc.Register.{crc_from-append}

crc_bit_even : (k : ℕ) → crc_bit (k * 2) ≡ k
unfolding crc_bit
crc_bit_even k = ground (arith, bit_and-one (k * 2))

-- Eight zero bits are only shifted out.
crc_eight_shift : (h : ℕ) → crc_eight (h * 256) ≡ h
unfolding crc_eight
crc_eight_shift h = ground (
  arith,
  crc_bit_even (h * 128),
  crc_bit_even (h * 64),
  crc_bit_even (h * 32),
  crc_bit_even (h * 16),
  crc_bit_even (h * 8),
  crc_bit_even (h * 4),
  crc_bit_even (h * 2),
  crc_bit_even h,
)

crc_low_byte : (c : ℕ) → crc_byte c (c % 256) ≡ c / 256
unfolding crc_byte
crc_low_byte c =
    ground (arith, bit_xor_byte (c / 256) (c % 256) (omega arith), crc_eight_shift (c / 256))

crc_high_byte : (h : ℕ) → crc_byte h h ≡ 0
unfolding crc_byte
crc_high_byte h = ground (arith, bit_xor_self h, crc_eight_shift 0)

crc_from_own : (c : ℕ) → crc_from c (c % 256 ∷ c / 256 ∷ []) ≡ 0
unfolding crc_from
crc_from_own c = ap (λ t. crc_byte t (c / 256)) (crc_low_byte c) ∙ crc_high_byte (c / 256)

-- The CRC of a message with its CRC appended, low byte first, is zero.
pub compute_crc16_residue :
    (bytes : List ℕ)
    → compute_crc16 (bytes ++ (compute_crc16 bytes % 256 ∷ compute_crc16 bytes / 256 ∷ [])) ≡ 0
unfolding compute_crc16
compute_crc16_residue bytes = crc_from-append _ bytes _ ∙ crc_from_own (crc_from 0xFFFF bytes)
