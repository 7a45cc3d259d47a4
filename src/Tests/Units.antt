-- ===== src/Tests/Units.antt =====
-- Examples for the command queue, the scan and the handlers.
use loop_charger_inverter.Prelude.{
  ℕ, suc, ◌≡◌, ◌≤◌, ◌<◌, refl, Bool, true, false, some, List, [], ◌∷◌, ◌++◌, arith, map, All,
}
use loop_charger_inverter.Prelude.Int.{is_neg, pos, negsuc}
use loop_charger_inverter.Modbus.Transaction.{Ctx, Exchange}
use loop_charger_inverter.DeviceMap.{device_register_map_init}
use loop_charger_inverter.Inverter.Map.{inverter1_mapping_table, inverter1_profile}
use loop_charger_inverter.Inverter.Queue.{auto, CmdQueue, queue_init, queue_push}
use loop_charger_inverter.Inverter.Unit.{InverterUnit, scan_loop}
use loop_charger_inverter.Inverter.Unit.Segments.{run_segments, expand_all, scan_loop_covers}
use loop_charger_inverter.Modbus.Port.{SerialCalls, Termios, cs8}
use loop_charger_inverter.Inverter.Thread.{disconnected, starting, stopped, Thread, thread_run}
use loop_charger_inverter.Inverter.Thread.Connection.{IsSound, thread_run-IsSound, thread_run_stops}
use loop_charger_inverter.Inverter.Handlers.{UnitQueue}

abbrev one_command : CmdQueue
one_command = (queue_push queue_init 0x2001 (50 ∷ []) 1 auto).0

scan_loop_covers_example :
    (segs : List (ℕ × ℕ)) × ((S : Type 0) (segment : S → ℕ → ℕ → S × Bool) (s : S)
      → scan_loop segment inverter1_mapping_table 11 20 11 1 0 1 s ≡ run_segments segment segs s)
    × (expand_all segs ≡ map (λ m. m.device_address) inverter1_mapping_table)
    × All (λ g. (0 < g.1) × (g.1 ≤ 20)) segs
scan_loop_covers_example =
    scan_loop_covers inverter1_mapping_table 20 (omega arith) (omega arith) (omega arith)

-- The requests of the scan of unit 1, as a list that the body of the loop appends to.
scan_unit1 :
    scan_loop {S = List (ℕ × ℕ)}
      (λ s start count. (s ++ ((start, count) ∷ []), true))
      inverter1_mapping_table
      11
      20
      11
      1
      0
      1
      []
    ≡ ((0x2000, 3) ∷ (0x2100, 6) ∷ (0x210C, 1) ∷ (0x220A, 1) ∷ [], true)
unfolding scan_loop
scan_unit1 = refl

abbrev closed : Ctx
closed = record {
  fd = negsuc 0;
  cfg = record {
    serial_path = "/dev/ttyS1";
    baud_rate = 9600;
    unit_id = 1;
    response_timeout_ms = 1000;
  };
}

-- A line that takes no request.
abbrev dead : ℕ → ℕ → List ℕ → ℕ × Exchange
dead w timeout req = (w, record { written = negsuc 0; events = [] })

abbrev unit1 : InverterUnit
unit1 = record {
  profile = inverter1_profile;
  rtu_ctx = closed;
  comm_fail_count = 2;
  cmd_queue = one_command;
}

-- A terminal as it is at first.
abbrev cooked : Termios
cooked = record {
  ispeed = 38400;
  ospeed = 38400;
  parenb = false;
  cstopb = false;
  csize = cs8;
  crtscts = false;
  cread = true;
  clocal = false;
  other_cflag = 0;
  icanon = true;
  echo = true;
  echoe = true;
  isig = true;
  other_lflag = 0;
  opost = true;
  other_oflag = 0;
  ixon = true;
  ixoff = false;
  ixany = false;
  ignbrk = false;
  brkint = true;
  parmrk = false;
  istrip = false;
  inlcr = false;
  igncr = false;
  icrnl = true;
  other_iflag = 0;
  vmin = 1;
  vtime = 0;
}

-- A port that always opens, with descriptor 7.
abbrev port : SerialCalls ℕ
port = record {
  open_path = λ w path. (w, pos 7);
  get_attributes = λ w fd. some cooked;
  set_attributes = λ w fd settings. (w, true);
  close_fd = λ w fd. suc w;
}

abbrev thread : Thread ℕ
thread = record {
  line = 0;
  pool = device_register_map_init;
  cfg = record {
    path = "/dev/ttyS1";
    baud_rate = 9600;
    modbus_uid = 1;
    connection_state = disconnected;
  };
  unit = unit1;
  phase = starting;
}

thread_run-IsSound_example : IsSound (thread_run port dead (true ∷ true ∷ true ∷ false ∷ []) thread)
thread_run-IsSound_example =
    thread_run-IsSound port dead (true ∷ true ∷ true ∷ false ∷ []) thread tt

thread_run_stops_example :
    let ended = thread_run port dead (true ∷ false ∷ false ∷ []) thread in
    (ended.phase ≡ stopped) × (is_neg ended.unit.rtu_ctx.fd ≡ true)
thread_run_stops_example = thread_run_stops port dead (true ∷ []) thread tt

abbrev units : List UnitQueue
units = record { uid = 1; cmd_queue = queue_init } ∷ []
