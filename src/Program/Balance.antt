-- ===== src/Program/Balance.antt =====
-- The program of src/main.c from its start to its end.
use loop_charger_inverter.Prelude.{
  ℕ, ◌+◌, ◌≡◌, refl, sym, ap, subst, Bool, true, false, Option, Option-cases, List, [], arith, map,
  if◌then◌else◌, Bool-cases, inl, inr,
}
use loop_charger_inverter.Prelude.Int.{ℤ, pos}
use loop_charger_inverter.Cmos.Pub.{PubCalls, closed_publisher, cmos_pub_close}
use loop_charger_inverter.Config.{JsonCalls, Loaded, exited, undefined, loaded, load_json_config}
use loop_charger_inverter.Log.{log_level_info}
use loop_charger_inverter.DeviceMap.{RegisterPool, device_register_map_init}
use loop_charger_inverter.Alarm.Bridge.{Bridge, bridge_start, bridge_stop}
use loop_charger_inverter.Inverter.AlarmManager.{SqlCalls, AlarmLog, manager_close}
use loop_charger_inverter.Inverter.Start.{
  ThreadCalls, to_uint8, start_loop, inverter_cmos_bridge_start, inverter_cmos_bridge_stop,
  start_inverter_modules, stop_inverter_modules,
}
use loop_charger_inverter.Inverter.Alarms.{inverter_alarm_register_all}
use loop_charger_inverter.Program.{
  Opt, Daemon, MonitorCalls, Launched, ended, broken, waiting, parse_arguments, default_path,
  start_all, launch_loaded, launch, shut_down,
}
use loop_charger_inverter.Program.Threads.{
  ThreadId, publisher_thread, subscriber_thread, monitor_thread, Threads, total, units_threads,
  Running, IsThreading, made, not_made, as_many, start_loop-Running,
  inverter_cmos_bridge_start-Running,
}
use loop_charger_inverter.Program.Joins.{Joins, shut_down-Joins}

-- What the threads weigh that the program has by its own books.
abbrev pub weight_of : (ThreadId → ℕ) → Daemon → ℕ
weight_of weigh d =
    total weigh (units_threads d.units)
    + (if d.cmos.bridge_running then weigh publisher_thread + weigh subscriber_thread else 0)
    + (if d.alarms.running then weigh monitor_thread else 0)

-- No thread runs, by the program's own books.
abbrev pub IsIdle : Daemon → Type 0
IsIdle d = (d.cmos.bridge_running ≡ false) × (d.alarms.running ≡ false)

-- What `main` leaves behind.
abbrev pub IsStopped : Daemon → Type 0
IsStopped d =
    (d.units ≡ [])
    × (d.cmos.bridge_running ≡ false)
    × (d.cmos.publisher ≡ closed_publisher d.cmos.publisher)
    × (d.alarms.running ≡ false)
    × (d.alarm_log.db_open ≡ false)

-- What a launched program has running, by the books of both sides.
abbrev IsCounted : {W : Type 0} → (ThreadId → ℕ) → (W → Threads) → Launched W → Type 0
IsCounted weigh counts ended = Unit
IsCounted weigh counts broken = Unit
IsCounted weigh counts (waiting w d) = Running weigh (weight_of weigh d) (counts w)

module _ {W J : Type 0} (atoi : List ℕ → ℤ) (json : JsonCalls J) (from_file : List ℕ → Option J)
    (sockets : PubCalls W) (threads : ThreadCalls W) (monitor : MonitorCalls W) (sql : SqlCalls W)
    (counts : W → Threads) (threading : IsThreading sockets threads monitor sql counts)
    (weigh : ThreadId → ℕ) where
  bridge_start-Running :
      (n : ℕ) (w : W) (b : Bridge RegisterPool)
      → Running weigh n (counts w)
      → Running weigh
          (n
            + (if (bridge_start b
                  (monitor.get_monotonic_ms w).1
                  (monitor.create_monitor (monitor.get_monotonic_ms w).0).1).0.running
                then weigh monitor_thread
                else 0))
          (counts (monitor.create_monitor (monitor.get_monotonic_ms w).0).0)
  unfolding bridge_start
  bridge_start-Running n w b h =
      let timed = (monitor.get_monotonic_ms w).0 in
      let (w', created) = monitor.create_monitor timed in
      let h' : Running weigh n (counts timed) =
        subst (Running weigh n) (sym (threading.clock_keeps w)) h in
      elim (Bool-cases created) [
        | inl runs ↦
            rw (bridge_start, runs)
              (made weigh n monitor_thread (counts timed) (counts w') created
                (threading.monitor_made timed) h' runs)
        | inr fails ↦
            rw (bridge_start, fails)
              (as_many weigh n _ (counts w') (omega arith) (
                not_made weigh n monitor_thread (counts timed) (counts w') created
                  (threading.monitor_made timed) h' fails))
      ]

  start_all-Running :
      (w : W) (d : Daemon)
      → d.cmos.bridge_running ≡ false
      → Running weigh 0 (counts w)
      → Running weigh
          (weight_of weigh (start_all atoi json from_file sockets threads monitor w d).1)
          (counts (start_all atoi json from_file sockets threads monitor w d).0)
  unfolding start_all start_inverter_modules
  start_all-Running w d idle h =
      let (w1, units, status) = start_loop threads w [] (pos 0) d.inverter in
      let (w2, b, code) = inverter_cmos_bridge_start sockets threads w1 d.cmos in
      bridge_start-Running
        (total weigh (units_threads units)
          + (if b.bridge_running then weigh publisher_thread + weigh subscriber_thread else 0))
        w2 (inverter_alarm_register_all (map (λ c. to_uint8 c.modbus_uid) d.inverter) d.alarms).0
        (inverter_cmos_bridge_start-Running sockets threads monitor sql counts threading weigh
          (total weigh (units_threads units)) w1 d.cmos idle
          (start_loop-Running sockets threads monitor sql counts threading weigh d.inverter w []
            (pos 0) h))

  launch_loaded-IsCounted :
      (w : W) (d : Daemon) (level : ℕ) (l : Loaded)
      → d.cmos.bridge_running ≡ false
      → Running weigh 0 (counts w)
      → IsCounted weigh counts
          (launch_loaded atoi json from_file sockets threads monitor w d level l)
  unfolding launch_loaded
  launch_loaded-IsCounted w d level exited idle h = tt
  launch_loaded-IsCounted w d level undefined idle h = tt
  launch_loaded-IsCounted w d level (loaded config_path inverter) idle h =
      start_all-Running w
        (record d {
          current_log_level = level;
          config_path = config_path;
          inverter = inverter;
          pool = device_register_map_init;
        })
        idle h

  launch-IsCounted :
      (w : W) (d : Daemon) (opts : List Opt)
      → d.cmos.bridge_running ≡ false
      → Running weigh 0 (counts w)
      → IsCounted weigh counts (launch atoi json from_file sockets threads monitor w d opts)
  unfolding launch
  launch-IsCounted w d opts idle h =
      elim (Option-cases (parse_arguments atoi opts default_path log_level_info)) [
        | inl exits ↦ rw (launch, exits) tt
        | inr ((path, level), parsed) ↦
            rw (launch, parsed)
              (launch_loaded-IsCounted w d level (load_json_config json (from_file path) path) idle
                h)
      ]

  stopped : (w : W) (d : Daemon) → IsStopped (shut_down sockets threads monitor sql w d).1
  unfolding shut_down stop_inverter_modules inverter_cmos_bridge_stop bridge_stop manager_close
      cmos_pub_close
  stopped w d = (refl, refl, refl, idle d.alarms, shut _ d.alarm_log)
    where
      idle : (b : Bridge RegisterPool) → (bridge_stop b).running ≡ false
      idle b = elim (Bool-cases b.running) [
        | inl runs ↦ rw (bridge_stop, runs) refl
        | inr quiet ↦ simp (bridge_stop, quiet)
      ]

      shut : (w : W) (log : AlarmLog) → (manager_close sql w log).1.db_open ≡ false
      shut w log = elim (Bool-cases log.db_open) [
        | inl is_open ↦ rw (manager_close, is_open) refl
        | inr closed ↦ simp (manager_close, closed)
      ]

  final :
      (running monitored : Bool) (n : ℕ) (t t' : Threads)
      → Running weigh
          (n
            + (if running then weigh publisher_thread + weigh subscriber_thread else 0)
            + (if monitored then weigh monitor_thread else 0))
          t
      → Joins weigh
          ((if monitored then weigh monitor_thread else 0)
            + ((weigh publisher_thread + weigh subscriber_thread) + n))
          t
          t'
      → total weigh t'.joined
        ≡ total weigh t'.created
          + (if running then 0 else weigh publisher_thread + weigh subscriber_thread)
  final true monitored n t t' h j = omega (arith, h, ap (total weigh) j.made_none, j.joined_so_many)
  final false monitored n t t' h j =
      omega (arith, h, ap (total weigh) j.made_none, j.joined_so_many)

  -- The program from its arguments to its end, with calls that make and join threads as IsThreading
  -- says, and started with no thread: if it comes to wait for a signal, and then has units of the
  -- same configurations when it is told to end, the monitor running or not as it was started, and
  -- no thread made or joined meanwhile, then it ends with no unit, with the bridge and the monitor
  -- stopped, the publisher's variables cleared and the alarm database closed. If the bridge was
  -- started, the threads joined weigh as much as those created, whatever weight each thread is
  -- given, so each thread is joined as often as it was created; if the bridge could not be started,
  -- its publisher and its subscriber are each joined once more than created.
  pub launch-shut_down :
      (w : W) (d : Daemon) (opts : List Opt) (w1 : W) (d1 : Daemon) (w2 : W) (d2 : Daemon)
      → d.cmos.bridge_running ≡ false
      → counts w ≡ record { created = []; joined = [] }
      → launch atoi json from_file sockets threads monitor w d opts ≡ waiting w1 d1
      → counts w2 ≡ counts w1
      → units_threads d2.units ≡ units_threads d1.units
      → d2.alarms.running ≡ d1.alarms.running
      → IsStopped (shut_down sockets threads monitor sql w2 d2).1
        × (total weigh (counts (shut_down sockets threads monitor sql w2 d2).0).joined
            ≡ total weigh (counts (shut_down sockets threads monitor sql w2 d2).0).created
              + (if d1.cmos.bridge_running
                  then 0
                  else weigh publisher_thread + weigh subscriber_thread))
  launch-shut_down w d opts w1 d1 w2 d2 idle none_yet waits quiet units monitored =
      let none_running : Running weigh 0 (counts w) =
        subst (Running weigh 0) (sym none_yet) (omega arith) in
      let owed : Running weigh (weight_of weigh d1) (counts w1) =
        subst (IsCounted weigh counts) waits (launch-IsCounted w d opts idle none_running) in
      let n : ℕ =
        total weigh (units_threads d2.units)
        + (if d1.cmos.bridge_running then weigh publisher_thread + weigh subscriber_thread else 0)
        + (if d2.alarms.running then weigh monitor_thread else 0) in
      let same : weight_of weigh d1 ≡ n = rw (units, monitored) refl in
      (
        stopped w2 d2,
        final d1.cmos.bridge_running d2.alarms.running (total weigh (units_threads d2.units))
            (counts w2) (counts (shut_down sockets threads monitor sql w2 d2).0)
            (subst (Running weigh n) (sym quiet)
              (as_many weigh (weight_of weigh d1) n (counts w1) same owed))
            (shut_down-Joins sockets threads monitor sql counts threading weigh w2 d2),
      )
