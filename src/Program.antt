-- ===== src/Program.antt =====
-- src/main.c: the program from its arguments to its end. What `getopt` returns is a list, and `atoi`,
-- the JSON library, the sockets, the threads and the clock are parameters. The lines that are logged
-- are left out.
pub mod Wait
pub mod Threads
pub mod Joins
pub mod Balance
use loop_charger_inverter.Prelude.{
  ℕ, ◌+◌, ◌-◌, ◌%◌, ◌^◌, Bool, true, false, Option, none, some, List, [], ◌∷◌, map, if◌then◌else◌,
}
use loop_charger_inverter.Prelude.Int.{ℤ, pos, negsuc, eq_pos}
use loop_charger_inverter.Cmos.Text.{codes}
use loop_charger_inverter.Log.{log_level_info}
use loop_charger_inverter.DeviceMap.{RegisterPool, device_register_map_init}
use loop_charger_inverter.Cmos.Pub.{PubCalls}
use loop_charger_inverter.Config.{
  UnitConfig, JsonCalls, Loaded, exited, undefined, loaded, load_json_config,
}
use loop_charger_inverter.Alarm.Bridge.{Bridge, bridge_start, bridge_stop}
use loop_charger_inverter.Inverter.Start.{
  RunningUnit, CmosBridge, ThreadCalls, to_uint8, start_inverter_modules, stop_inverter_modules,
}
use loop_charger_inverter.Inverter.Alarms.{inverter_alarm_register_all}
use loop_charger_inverter.Inverter.AlarmManager.{SqlCalls, AlarmLog, manager_close}

-- What a call of `getopt` with "c:l:h" finds: an option with its argument, or one without; `other`
-- is the '?' of an option that it does not know or whose argument is missing.
pub data Opt : Type 0 where
  option_c : List ℕ → Opt
  option_l : List ℕ → Opt
  option_h : Opt
  other : Opt

-- The cast to `log_level_t`, which is an `unsigned int`.
abbrev pub to_log_level : ℤ → ℕ
to_log_level (pos n) = n % 2 ^ 32
to_log_level (negsuc n) = 2 ^ 32 - 1 - n % 2 ^ 32

module _ (atoi : List ℕ → ℤ) where
  -- `parse_arguments`, with the path and the level so far; `none` where it exits with EXIT_FAILURE.
  unfoldable pub parse_arguments : List Opt → List ℕ → ℕ → Option (List ℕ × ℕ)
  parse_arguments [] config_path log_level = some (config_path, log_level)
  parse_arguments (option_c optarg ∷ opts) config_path log_level =
      parse_arguments opts optarg log_level
  parse_arguments (option_l optarg ∷ opts) config_path log_level =
      parse_arguments opts config_path (to_log_level (atoi optarg))
  parse_arguments (option_h ∷ opts) config_path log_level = none
  parse_arguments (other ∷ opts) config_path log_level = none

abbrev pub default_path : List ℕ
default_path = codes "./config/config.json"

-- The variables of the files that `main` brings together.
pub record Daemon : Type 0 where
  pub current_log_level : ℕ
  pub config_path : List ℕ
  pub inverter : List UnitConfig
  pub pool : RegisterPool
  pub cmos : CmosBridge
  pub units : List RunningUnit
  pub alarms : Bridge RegisterPool
  pub alarm_ctx_count : ℕ
  pub alarm_log : AlarmLog

-- The clock, and whether `pthread_create` makes the monitor thread; the join of it.
pub record MonitorCalls (W : Type 0) : Type 0 where
  pub get_monotonic_ms : W → W × ℕ
  pub create_monitor : W → W × Bool
  pub join_monitor : W → W

-- What `main` has done when it comes to wait for a signal: the process has ended with the status 1,
-- its behaviour is not defined, or all is started.
pub data Launched (W : Type 0) : Type 0 where
  ended : Launched W
  broken : Launched W
  waiting : W → Daemon → Launched W

module _ {W J : Type 0} (atoi : List ℕ → ℤ) (json : JsonCalls J) (from_file : List ℕ → Option J)
    (sockets : PubCalls W) (threads : ThreadCalls W) (monitor : MonitorCalls W) where
  -- `main` from the start of the modules on. It goes on where a start fails.
  unfoldable pub start_all : W → Daemon → W × Daemon
  start_all w d =
      let (w1, cmos, units, status) = start_inverter_modules sockets threads w d.cmos d.inverter in
      let (alarms, count) =
        inverter_alarm_register_all (map (λ c. to_uint8 c.modbus_uid) d.inverter) d.alarms in
      let (w2, now) = monitor.get_monotonic_ms w1 in
      let (w3, created) = monitor.create_monitor w2 in
      let (alarms', code) = bridge_start alarms now created in
      (w3, record d { cmos = cmos; units = units; alarms = alarms'; alarm_ctx_count = count })

  -- `main` from `load_json_config` on, with what that makes.
  unfoldable pub launch_loaded : W → Daemon → ℕ → Loaded → Launched W
  unfolding start_all
  launch_loaded w d level exited = ended
  launch_loaded w d level undefined = broken
  launch_loaded w d level (loaded config_path inverter) =
      let (w', d') = start_all w (record d {
        current_log_level = level;
        config_path = config_path;
        inverter = inverter;
        pool = device_register_map_init;
      }) in
      waiting w' d'

  -- `main` up to the loop that waits.
  unfoldable pub launch : W → Daemon → List Opt → Launched W
  unfolding parse_arguments launch_loaded
  launch w d opts = elim (parse_arguments atoi opts default_path log_level_info) [
    | none ↦ ended
    | some (path, level) ↦ launch_loaded w d level (load_json_config json (from_file path) path)
  ]

module _ {W : Type 0} (sockets : PubCalls W) (threads : ThreadCalls W) (monitor : MonitorCalls W)
    (sql : SqlCalls W) where
  -- `main` behind the loop; it returns 0.
  unfoldable pub shut_down : W → Daemon → W × Daemon
  shut_down w d =
      let w1 = if d.alarms.running then monitor.join_monitor w else w in
      let (w2, cmos, units) = stop_inverter_modules sockets threads w1 d.cmos d.units in
      let (w3, alarm_log) = manager_close sql w2 d.alarm_log in
      (
        w3,
        record d {
          alarms = bridge_stop d.alarms;
          cmos = cmos;
          units = units;
          alarm_log = alarm_log;
        },
      )
