-- ===== src/Modbus/Frame.antt =====
-- The ADU helpers of lib/modbus/modbus_rtu_client.c and the constants of modbus_defines.h. A
-- buffer with its write position is the list of the bytes written so far.
pub mod Laws
use loop_charger_inverter.Prelude.{
  ℕ, ◌+◌, ◌-◌, ◌*◌, ◌/◌, ◌%◌, Bool, true, false, List, [], ◌∷◌, ◌++◌, take, get_or, ltb, ◌==◌,
  if◌then◌else◌, bit_and, bit_or,
}
use loop_charger_inverter.Modbus.Crc.{compute_crc16}

abbrev pub func_read_holding_registers : ℕ
func_read_holding_registers = 0x03

abbrev pub func_write_single_register : ℕ
func_write_single_register = 0x06

abbrev pub func_write_multiple_registers : ℕ
func_write_multiple_registers = 0x10

abbrev pub rtu_crc_len : ℕ
rtu_crc_len = 2

abbrev pub rtu_max_adu_length : ℕ
rtu_max_adu_length = 256

abbrev pub max_read_registers : ℕ
max_read_registers = 125

abbrev pub max_write_registers : ℕ
max_write_registers = 123

abbrev pub exception_flag : ℕ
exception_flag = 0x80

-- A byte of a buffer; every read of the program is inside the buffer.
abbrev pub byte_at : List ℕ → ℕ → ℕ
byte_at buf i = get_or buf i 0

unfoldable pub append_uint16_be : List ℕ → ℕ → List ℕ
append_uint16_be buf value = buf ++ (value / 256 % 256 ∷ bit_and value 0xFF % 256 ∷ [])

unfoldable pub append_crc : List ℕ → List ℕ
append_crc buf =
    buf ++ (bit_and (compute_crc16 buf) 0xFF % 256 ∷ compute_crc16 buf / 256 % 256 ∷ [])

unfoldable pub verify_response_crc : List ℕ → ℕ → Bool
verify_response_crc buf len =
    if ltb len rtu_crc_len
    then false
    else compute_crc16 (take (len - rtu_crc_len) buf)
      == bit_or (byte_at buf (len - 2)) (byte_at buf (len - 1) * 256)
