-- ===== src/Tests/Scan.antt =====
-- Examples for the command queue and for a whole pass: unit 1 with one command queued, on a line
-- with a slave that keeps its registers, answers reads and takes writes of one register.
use mathlib.Core.Path.{ap₂}
use mathlib.Core.List.{append-nil}
use loop_charger_inverter.Prelude.{
  ℕ, ◌+◌, ◌*◌, ◌/◌, ◌%◌, ◌^◌, ◌<◌, ◌≡◌, ◌≢◌, refl, sym, ap, get_elem?, some, List, [], ◌∷◌, ◌++◌,
  arith, length, if◌then◌else◌, ◌==◌, subst,
}
use loop_charger_inverter.Prelude.Int.{pos}
use loop_charger_inverter.Modbus.Frame.{append_crc, append_uint16_be, byte_at, verify_response_crc}
use loop_charger_inverter.Modbus.Crc.{compute_crc16, crc_from}
use loop_charger_inverter.Modbus.Serial.{bytes, read_exact}
use loop_charger_inverter.Modbus.Serial.Delivery.{complete, piece, Delivers}
use loop_charger_inverter.Modbus.Transaction.{
  Ctx, Exchange, do_transaction, receive_response, check_response,
}
use loop_charger_inverter.Modbus.Client.{
  read_request, write_single_request, write_locked, write_single_register,
}
use loop_charger_inverter.Modbus.Client.Laws.{read_request_lem, read_reply}
use loop_charger_inverter.DeviceMap.{Mapping, device_register_map_init}
use loop_charger_inverter.Inverter.Map.{inverter1_mapping_table, inverter1_profile}
use loop_charger_inverter.Inverter.Map.Laws.{
  inverter1_profile-IsWellFormed, own_slots-IsInjective, slots_inside-get_elem?,
}
use loop_charger_inverter.Inverter.Queue.{auto, fc06, CmdQueue, queue_init, queue_push, queue_pop}
use loop_charger_inverter.Inverter.Queue.Fifo.{
  IsWellFormed, contents, queue_init-IsWellFormed, queue_push-contents,
}
use loop_charger_inverter.Inverter.Unit.Drain.{drain_arrivals-Drained}
use loop_charger_inverter.Inverter.Unit.Arrivals.{
  process_callback_arrivals, HasValues, Push, Drained, drain_arrivals,
}
use loop_charger_inverter.Inverter.Queue.Runs.{QueueCall, push, pop, queue_calls, queue_calls-fifo}
use loop_charger_inverter.Inverter.Unit.{InverterUnit, drain_queue, write_registers_to_device}
use loop_charger_inverter.Inverter.Unit.Scan.{fails_of}
use loop_charger_inverter.Inverter.Unit.Slave.{Answers, registers}
use loop_charger_inverter.Inverter.Unit.Round.{IsReady}
use loop_charger_inverter.Inverter.Unit.Pass.{waiting_in, process_callback_arrivals-Filled}
use loop_charger_inverter.Prelude.{All}

abbrev Registers : Type 0
Registers = ℕ → ℕ

abbrev values_of : Registers → ℕ → ℕ
values_of w a = w a % 2 ^ 16

abbrev word_at : List ℕ → ℕ → ℕ
word_at req i = byte_at req i * 256 + byte_at req (i + 1)

-- FC03 reads; any other request is taken as FC06 and echoed.
abbrev slave : Registers → ℕ → List ℕ → Registers × Exchange
slave w timeout req =
    let reply : List ℕ = read_reply 1 (registers (values_of w) (word_at req 2) (word_at req 4)) in
    if byte_at req 1 == 3
    then (w, record { written = pos (length req); events = bytes reply ∷ [] })
    else (
      λ a. if a == word_at req 2 then word_at req 4 else w a,
      record { written = pos (length req); events = bytes req ∷ [] },
    )

slave_reads :
    (w : Registers) (timeout addr qty : ℕ)
    → addr < 2 ^ 16
    → qty < 2 ^ 16
    → slave w timeout (read_request 1 addr qty) ≡ (
      w,
      record {
        written = pos (length (read_request 1 addr qty));
        events = bytes (read_reply 1 (registers (values_of w) addr qty)) ∷ [];
      },
    )
unfolding append_crc
slave_reads w timeout addr qty ha hq = rw (read_request_lem 1 addr qty (omega arith) ha hq) (
    ap₂
      (λ (a q : ℕ). (
        w,
        record {
          written = pos 8;
          events = bytes (read_reply 1 (registers (values_of w) a q)) ∷ [];
        },
      ))
      whole_addr whole_qty)
  where
    whole_addr : addr / 256 * 256 + addr % 256 ≡ addr
    whole_addr = omega arith

    whole_qty : qty / 256 * 256 + qty % 256 ≡ qty
    whole_qty = omega arith

abbrev opened : Ctx
opened = record {
  fd = pos 7;
  cfg = record {
    serial_path = "/dev/ttyS1";
    baud_rate = 9600;
    unit_id = 1;
    response_timeout_ms = 1000;
  };
}

slave-Answers : Answers slave opened values_of
unfolding append_crc
slave-Answers = record {
  words = λ w a. omega arith;
  takes_request = λ w addr qty p s r.
      ap (λ (x : Registers × Exchange). x.1.written)
        (slave_reads w 1000 addr qty (omega arith) (omega arith));
  replies = λ w addr qty p s r.
      subst
        (λ (x : Registers × Exchange).
          Delivers x.1.events (read_reply 1 (registers (values_of w) addr qty)))
        (sym (slave_reads w 1000 addr qty (omega arith) (omega arith)))
        (piece 1 _ (sym (append-nil _)) complete);
  keeps = λ w addr qty p s r.
      ap (λ (x : Registers × Exchange). values_of x.0)
        (slave_reads w 1000 addr qty (omega arith) (omega arith));
}

abbrev one_command : CmdQueue
one_command = (queue_push queue_init 0x2001 (50 ∷ []) 1 auto).0

abbrev unit1 : InverterUnit
unit1 = record {
  profile = inverter1_profile;
  rtu_ctx = opened;
  comm_fail_count = 2;
  cmd_queue = one_command;
}

unit1-IsReady : IsReady unit1 inverter1_mapping_table
unit1-IsReady = record {
  well_formed = inverter1_profile-IsWellFormed;
  rows = (omega arith, omega arith);
  addresses = ground arith;
  own_slots = own_slots-IsInjective inverter1_mapping_table refl;
  inside = λ k m at. slots_inside-get_elem? inverter1_mapping_table k m refl at;
  chunk = (omega arith, omega arith);
  opened = refl;
  unit_byte = omega arith;
}

-- The queued write of 50 has reached the register of the slave.
written_first : values_of (drain_queue slave 2 (λ a. 0) opened one_command).0 0x2001 ≡ 50
unfolding drain_queue queue_push queue_pop write_registers_to_device write_single_register
    write_single_request write_locked append_crc append_uint16_be compute_crc16 crc_from
    do_transaction receive_response read_exact check_response verify_response_crc
written_first = refl

-- Two threads' commands, and the poll thread in between.
abbrev mixed_calls : List QueueCall
mixed_calls =
    push 0x2001 (50 ∷ []) 1 auto
    ∷ pop
    ∷ push 0x2000 (1 ∷ 2 ∷ []) 2 auto
    ∷ push 0x2002 [] 0 auto
    ∷ pop
    ∷ pop
    ∷ []

queue_calls-fifo_example :
    let (after, accepted, popped) = queue_calls mixed_calls queue_init in
    IsWellFormed after × (popped ++ contents after ≡ contents queue_init ++ accepted)
queue_calls-fifo_example =
    queue_calls-fifo mixed_calls queue_init queue_init-IsWellFormed (ground arith)

-- While the first command is written, three more come; the one without values is refused.
abbrev late : List (List Push)
late =
    []
    ∷ (record { addr = 0x2000; values = 1 ∷ 2 ∷ []; count = 2; mode = auto }
        ∷ record { addr = 0x2002; values = []; count = 0; mode = auto }
        ∷ record { addr = 0x2002; values = 7 ∷ 9 ∷ []; count = 1; mode = fc06 }
        ∷ [])
    ∷ []

one_command-IsWellFormed : IsWellFormed one_command
unfolding queue_push
one_command-IsWellFormed =
    (queue_push-contents queue_init 0x2001 (50 ∷ []) 1 auto queue_init-IsWellFormed (omega arith)).0

late-HasValues : All (All HasValues) late
late-HasValues = (tt, ((omega arith, (omega arith, (omega arith, tt))), tt))

drain_arrivals-Drained_example :
    Drained slave
      (λ a. 0)
      opened
      (record { addr = 0x2001; values = 50 ∷ []; mode = auto }
        ∷ record { addr = 0x2000; values = 1 ∷ 2 ∷ []; mode = auto }
        ∷ record { addr = 0x2002; values = 7 ∷ []; mode = fc06 }
        ∷ [])
      (drain_arrivals slave late (λ a. 0) opened one_command)
unfolding queue_push
drain_arrivals-Drained_example =
    drain_arrivals-Drained slave late (λ a. 0) opened one_command one_command-IsWellFormed
      late-HasValues

-- A fourth command comes while the registers are read.
abbrev fourth : Push
fourth = record { addr = 0x2001; values = 60 ∷ []; count = 1; mode = auto }

process_callback_arrivals-Filled_example :
    let ((w', pool', unit'), code) =
      process_callback_arrivals slave late
        (fourth ∷ [])
        (λ a. 0)
        device_register_map_init
        (some unit1) in
    let drained = drain_arrivals slave late (λ a. 0) opened one_command in
    (code ≡ pos 0)
    × (fails_of unit' ≡ 0)
    × Drained slave
        (λ a. 0)
        opened
        (record { addr = 0x2001; values = 50 ∷ []; mode = auto }
          ∷ record { addr = 0x2000; values = 1 ∷ 2 ∷ []; mode = auto }
          ∷ record { addr = 0x2002; values = 7 ∷ []; mode = fc06 }
          ∷ [])
        drained
    × (waiting_in unit' ≡ record { addr = 0x2001; values = 60 ∷ []; mode = auto } ∷ [])
    × (values_of w' ≡ values_of drained.0)
    × ((k : ℕ) (m : Mapping)
        → get_elem? inverter1_mapping_table k ≡ some m
        → pool' m.pool_address ≡ values_of drained.0 m.device_address)
    × ((p : ℕ)
        → ((k : ℕ) (m : Mapping)
            → get_elem? inverter1_mapping_table k ≡ some m
            → m.pool_address ≢ p)
        → pool' p ≡ device_register_map_init p)
unfolding queue_push
process_callback_arrivals-Filled_example =
    process_callback_arrivals-Filled slave values_of late (fourth ∷ []) (λ a. 0)
      device_register_map_init unit1 inverter1_mapping_table unit1-IsReady slave-Answers
      one_command-IsWellFormed late-HasValues (omega arith, tt)
