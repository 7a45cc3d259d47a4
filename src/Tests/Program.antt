-- ===== src/Tests/Program.antt =====
-- Examples for the program, its log, and the helpers of the messages.
use loop_charger_inverter.Prelude.{
  ℕ, ◌+◌, ◌≡◌, refl, true, false, Option, some, List, [], ◌∷◌, arith, length, if◌then◌else◌,
}
use loop_charger_inverter.Prelude.Int.{ℤ, pos, negsuc}
use loop_charger_inverter.Cmos.Text.{codes, c_string, after_prefix}
use loop_charger_inverter.Cmos.Pub.{PubCalls, compose_data}
use loop_charger_inverter.Cmos.Link.{Message}
use loop_charger_inverter.Cmos.Util.{Numbers, cmos_get_field, after_first, copy_field}
use loop_charger_inverter.Cmos.Util.Parsing.{parse_composed, cmos_parse-composed}
use loop_charger_inverter.Log.{
  stdout, stderr, TimeOfDay, level_output, log_line, log_message, LogCall, set_log_level, message,
  log_run,
}
use loop_charger_inverter.Log.Streams.{lines_on, error_lines, other_lines, log_run-lines_on}
use loop_charger_inverter.DeviceMap.{device_register_map_init}
use loop_charger_inverter.Inverter.Start.{ThreadCalls}
use loop_charger_inverter.Inverter.AlarmManager.{SqlCalls}
use loop_charger_inverter.Program.{
  option_c, option_l, Daemon, MonitorCalls, waiting, parse_arguments, start_all, launch_loaded,
  launch, shut_down,
}
use loop_charger_inverter.Program.Threads.{
  ThreadId, publisher_thread, subscriber_thread, monitor_thread, unit_thread, Threads, one_more,
  one_joined, total, IsThreading,
}
use loop_charger_inverter.Program.Balance.{IsStopped, launch-shut_down}
use loop_charger_inverter.Tests.Start.{json, unit1, bridge, one_loaded}
use loop_charger_inverter.Program.Wait.{
  at_test, in_pause, left, go_on, signal, wait_run, wait_step, next_point, wait_run_ends,
  wait_run_lost,
}

-- The value itself stands for its number.
abbrev numbers : Numbers (List ℕ)
numbers = record { atof = λ t. t; atoi = λ t. pos (length t); zero_f = [] }

abbrev current : Message
current = record {
  state = some (codes "Alive");
  type = some (codes "sensor");
  key = codes "output_current";
  value = some (codes "25.5");
}

cmos_parse-composed_example :
    parse_composed numbers (
      compose_data
        (some (codes "Alive"))
        (some (codes "sensor"))
        (some (codes "output_current"))
        (some (codes "25.5")))
    ≡ some (
      record {
        type = codes "sensor";
        key = codes "output_current";
        value = codes "25.5";
        value_f = codes "25.5";
        value_i = pos 4;
      },
      pos 0,
    )
cmos_parse-composed_example = cmos_parse-composed numbers current (record {
  state_field = (ground arith, ground arith, omega arith);
  type_field = (ground arith, ground arith, omega arith);
  key_field = (ground arith, ground arith, omega arith);
  value_field = (ground arith, ground arith, omega arith);
  fits = omega arith;
})

-- The search does not look where a field starts.
inside_a_text : (cmos_get_field (codes "state=subtype=a type=b") (codes "type") 64).0 ≡ codes "a"
unfolding cmos_get_field after_first c_string after_prefix copy_field
inside_a_text = refl

abbrev noon : TimeOfDay
noon = record { seconds = codes "2026-01-01 12:00:00"; tv_usec = 7250 }

abbrev log_calls : List LogCall
log_calls =
    message 1 noon (codes "hidden")
    ∷ message 2 noon (codes "shown")
    ∷ set_log_level 6
    ∷ message 3 noon (codes "hidden")
    ∷ message 4 noon (codes "failed")
    ∷ []

first_line :
    log_message 2 2 noon (codes "shown")
    ≡ some (stdout, codes "[2026-01-01 12:00:00.007] [CM_MODBUS] [INFO]: shown\n")
unfolding log_message level_output log_line
first_line = refl

log_run-lines_on_example :
    (lines_on stderr (log_run 2 log_calls) ≡ error_lines log_calls)
    × (lines_on stdout (log_run 2 log_calls) ≡ other_lines 2 log_calls)
log_run-lines_on_example = log_run-lines_on log_calls 2

-- The first signal comes too late for the test.
wait_run_ends_example :
    (wait_run
      (go_on ∷ signal ∷ go_on ∷ go_on ∷ signal ∷ go_on ∷ signal ∷ go_on ∷ [])
      (record { point = at_test; g_running = true })).point
    ≡ left
wait_run_ends_example =
    wait_run_ends (go_on ∷ []) (go_on ∷ []) (signal ∷ go_on ∷ [])
      (record { point = at_test; g_running = true })

wait_run_lost_example :
    (wait_run
      (go_on ∷ signal ∷ go_on ∷ go_on ∷ go_on ∷ [])
      (record { point = at_test; g_running = true })).point
    ≡ in_pause
unfolding wait_run wait_step next_point
wait_run_lost_example =
    wait_run_lost (go_on ∷ []) 2 (record { point = at_test; g_running = true }) refl

-- The worlds are the threads made and joined; every call succeeds.
abbrev sockets : PubCalls Threads
sockets = record {
  connect_tcp = λ w ip port. (w, pos 3);
  socket = λ w. (w, pos 4);
  bind = λ w fd port. (w, pos 0);
  listen = λ w fd. (w, pos 0);
  epoll_create = λ w fd. (w, pos 5);
  epoll_wait = λ w fd. (w, pos 0);
  accept = λ w fd. (w, negsuc 0);
  send = λ w fd line. (w, pos (length line));
  close = λ w fd. w;
}

abbrev threads : ThreadCalls Threads
threads = record {
  create_publisher = λ w. (one_more publisher_thread w, pos 0);
  create_subscriber = λ w. (one_more subscriber_thread w, pos 0);
  create_unit = λ w u. (one_more (unit_thread u.cfg) w, pos 0);
  cancel_subscriber = λ w. w;
  join_subscriber = λ w. one_joined subscriber_thread w;
  join_publisher = λ w p. (one_joined publisher_thread w, p);
  join_unit = λ w u. one_joined (unit_thread u.cfg) w;
}

abbrev monitor : MonitorCalls Threads
monitor = record {
  get_monotonic_ms = λ w. (w, 1000);
  create_monitor = λ w. (one_more monitor_thread w, true);
  join_monitor = λ w. one_joined monitor_thread w;
}

abbrev sql : SqlCalls Threads
sql = record {
  ensure_log_dir = λ w. w;
  open_log = λ w. (w, true);
  create_table = λ w. (w, true);
  close_log = λ w. w;
  local_time = λ w. (w, codes "2026-01-01 12:00:00");
  count_rows = λ w. (w, some 0);
  run_statement = λ w s. w;
}

threading : IsThreading sockets threads monitor sql (λ w. w)
threading = record {
  connect_keeps = λ w ip port. refl;
  socket_keeps = λ w. refl;
  bind_keeps = λ w fd port. refl;
  listen_keeps = λ w fd. refl;
  epoll_keeps = λ w fd. refl;
  send_keeps = λ w fd line. refl;
  close_keeps = λ w fd. refl;
  publisher_made = λ w. refl;
  subscriber_made = λ w. refl;
  unit_made = λ w u. refl;
  monitor_made = λ w. refl;
  cancel_keeps = λ w. refl;
  subscriber_joined = λ w. refl;
  publisher_joined = λ w p. refl;
  unit_joined = λ w u. refl;
  monitor_joined = λ w. refl;
  clock_keeps = λ w. refl;
  sql_close_keeps = λ w. refl;
}

-- The variables before `main`.
abbrev fresh : Daemon
fresh = record {
  current_log_level = 2;
  config_path = [];
  inverter = [];
  pool = device_register_map_init;
  cmos = bridge;
  units = [];
  alarms = record { ctxs = []; running = false; last_beat_ms = 0 };
  alarm_ctx_count = 0;
  alarm_log = record { db_open = false; db_open_failed = false };
}

abbrev no_threads : Threads
no_threads = record { created = []; joined = [] }

abbrev configured : Daemon
configured = record fresh {
  current_log_level = 1;
  config_path = codes "c.json";
  inverter = unit1 ∷ [];
}

abbrev one_char : List ℕ → ℤ
one_char t = pos (length t)

abbrev file : List ℕ → Option ℕ
file path = some 0

abbrev started : Threads × Daemon
started = start_all one_char json file sockets threads monitor no_threads configured

launched :
    launch one_char json file sockets threads monitor no_threads fresh
      (option_l (codes "1") ∷ option_c (codes "c.json") ∷ [])
    ≡ waiting started.0 started.1
unfolding launch launch_loaded parse_arguments
launched = rw one_loaded refl

abbrev weigh : ThreadId → ℕ
weigh publisher_thread = 1
weigh subscriber_thread = 10
weigh monitor_thread = 100
weigh (unit_thread cfg) = 1000

-- One unit, the bridge and the monitor were started.
launch-shut_down_example :
    IsStopped (shut_down sockets threads monitor sql started.0 started.1).1
    × (total weigh (shut_down sockets threads monitor sql started.0 started.1).0.joined
        ≡ total weigh (shut_down sockets threads monitor sql started.0 started.1).0.created
          + (if started.1.cmos.bridge_running then 0 else 11))
launch-shut_down_example =
    launch-shut_down one_char json file sockets threads monitor sql (λ w. w) threading weigh
      no_threads fresh (option_l (codes "1") ∷ option_c (codes "c.json") ∷ []) started.0 started.1
      started.0 started.1 refl refl launched refl refl refl
