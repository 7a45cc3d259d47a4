-- ===== src/Modbus/Crc/Tests.antt =====
-- Runs of the CRC on the messages of tests/test_modbus_rtu_crc.c.
use loop_charger_inverter.Prelude.{◌≡◌, refl, [], ◌∷◌}
use loop_charger_inverter.Modbus.Crc.{compute_crc16}

crc_of_read_request : compute_crc16 (1 ∷ 3 ∷ 0 ∷ 0 ∷ 0 ∷ 10 ∷ []) ≡ 0xCDC5
unfolding compute_crc16
crc_of_read_request = refl
