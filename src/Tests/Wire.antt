-- ===== src/Tests/Wire.antt =====
-- Examples for the Modbus frames and the client, on a line with one slave, unit 1.
use loop_charger_inverter.Prelude.{ℕ, suc, ◌≡◌, ◌⊎◌, refl, some, List, [], ◌∷◌, arith, length, take}
use loop_charger_inverter.Prelude.Int.{pos}
use loop_charger_inverter.Modbus.Crc.{compute_crc16, crc_from}
use loop_charger_inverter.Modbus.Crc.Detect.{compute_crc16_burst}
use loop_charger_inverter.Modbus.Frame.{append_crc, byte_at}
use loop_charger_inverter.Modbus.Serial.{Event, interrupted, timed_out, bytes}
use loop_charger_inverter.Modbus.Serial.Delivery.{complete, again, piece, line_bytes}
use loop_charger_inverter.Modbus.Transaction.{Ctx, Exchange, client_ok, err_timeout, err_transport}
use loop_charger_inverter.Modbus.Transaction.Laws.{IsAccepted}
use loop_charger_inverter.Modbus.Client.{
  read_holding_registers, write_single_register, copy_registers,
}
use loop_charger_inverter.Modbus.Client.Laws.{
  read_holding_registers_ok, read_holding_registers_short, read_holding_registers-IsAccepted,
  write_single_register_ok,
}

compute_crc16_burst_example : Path ℕ 0x12 0x12 × Path ℕ 0x34 0x34
compute_crc16_burst_example =
    compute_crc16_burst (1 ∷ []) (7 ∷ []) 0x12 0x34 0x12 0x34 (omega arith, tt) (omega arith, tt)
      (omega arith, omega arith, omega arith, omega arith) refl

abbrev unit1 : Ctx
unit1 = record {
  fd = pos 7;
  cfg = record {
    serial_path = "/dev/ttyS1";
    baud_rate = 9600;
    unit_id = 1;
    response_timeout_ms = 1000;
  };
}

-- A line on which every request is taken and answered by the same events.
abbrev replies : List Event → ℕ → ℕ → List ℕ → ℕ × Exchange
replies events w timeout req = (suc w, record { written = pos (length req); events = events })

abbrev read_answer : List Event
read_answer = bytes (1 ∷ 3 ∷ 2 ∷ []) ∷ interrupted ∷ bytes (0x12 ∷ 0x34 ∷ 0xB5 ∷ 0x33 ∷ []) ∷ []

read_holding_registers_ok_example :
    read_holding_registers (replies read_answer) 0 (some unit1) 0x2000 1 (some (0 ∷ 9 ∷ []))
    ≡ (1, client_ok, some (0x1234 ∷ 9 ∷ []))
unfolding append_crc compute_crc16 crc_from
read_holding_registers_ok_example =
    read_holding_registers_ok (replies read_answer) 0 unit1 0x2000 (0x1234 ∷ []) (0 ∷ 9 ∷ []) refl
      (omega arith) (omega arith, omega arith) (omega arith, tt) (omega arith) refl
      (piece 1 (3 ∷ 2 ∷ []) refl (again (piece 0x12 (0x34 ∷ 0xB5 ∷ 0x33 ∷ []) refl complete)))

read_holding_registers-IsAccepted_example :
    let frame = take 7 (line_bytes read_answer) in
    IsAccepted 1 7 frame
    × (byte_at frame 1 ≡ 3)
    × (byte_at frame 2 ≡ 2)
    × (some (0x1234 ∷ 9 ∷ []) ≡ some (copy_registers 1 0 frame (0 ∷ 9 ∷ [])))
unfolding append_crc compute_crc16 crc_from
read_holding_registers-IsAccepted_example =
    read_holding_registers-IsAccepted (replies read_answer) 0 unit1 0x2000 1 (0 ∷ 9 ∷ []) (
      read_holding_registers_ok (replies read_answer) 0 unit1 0x2000 (0x1234 ∷ []) (0 ∷ 9 ∷ []) refl
        (omega arith) (omega arith, omega arith) (omega arith, tt) (omega arith) refl
        (piece 1 (3 ∷ 2 ∷ []) refl (again (piece 0x12 (0x34 ∷ 0xB5 ∷ 0x33 ∷ []) refl complete))))

-- An exception response: 5 bytes.
abbrev exception_answer : List Event
exception_answer = bytes (1 ∷ 0x83 ∷ 2 ∷ 0xC0 ∷ 0xF1 ∷ []) ∷ timed_out ∷ []

read_holding_registers_short_example :
    let (w', code, out') =
      read_holding_registers (replies exception_answer) 0 (some unit1) 0x3000 1 (some (8 ∷ [])) in
    ((code ≡ err_timeout) ⊎ (code ≡ err_transport)) × (out' ≡ some (8 ∷ []))
read_holding_registers_short_example =
    read_holding_registers_short (replies exception_answer) 0 unit1 0x3000 1 (8 ∷ []) refl
      (omega arith, omega arith) (omega arith)

-- The echo of another address and value than those written.
abbrev echo_answer : List Event
echo_answer = bytes (1 ∷ 6 ∷ 0x20 ∷ 1 ∷ 0 ∷ 5 ∷ 0x13 ∷ 0xC9 ∷ []) ∷ []

write_single_register_ok_example :
    write_single_register (replies echo_answer) 0 (some unit1) 0x2000 7 ≡ (1, client_ok)
unfolding append_crc compute_crc16 crc_from
write_single_register_ok_example =
    write_single_register_ok (replies echo_answer) 0 unit1 0x2000 7 0x20 1 0 5 refl
      (omega arith, (omega arith, (omega arith, (omega arith, (omega arith, tt))))) refl
      (piece 1 (6 ∷ 0x20 ∷ 1 ∷ 0 ∷ 5 ∷ 0x13 ∷ 0xC9 ∷ []) refl complete)
