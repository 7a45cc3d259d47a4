-- ===== src/Program/Joins.antt =====
-- The threads that the end of src/main.c joins.
use loop_charger_inverter.Prelude.{
  ℕ, ◌+◌, ◌≡◌, refl, ap, ◌∙◌, subst, Bool, true, false, List, [], ◌∷◌, arith, if◌then◌else◌,
  Bool-cases, inl, inr,
}
use loop_charger_inverter.Cmos.Pub.{PubCalls}
use loop_charger_inverter.Inverter.AlarmManager.{SqlCalls, AlarmLog, manager_close}
use loop_charger_inverter.Inverter.Start.{
  RunningUnit, CmosBridge, ThreadCalls, join_units, inverter_cmos_bridge_stop,
  stop_inverter_modules,
}
use loop_charger_inverter.Program.{Daemon, MonitorCalls, shut_down}
use loop_charger_inverter.Program.Threads.{
  ThreadId, publisher_thread, subscriber_thread, monitor_thread, unit_thread, Threads, one_joined,
  total, units_threads, IsThreading, cmos_pub_close-keeps,
}

-- From `t` to `t'` threads of this weight are joined, and nothing else.
pub record Joins (weigh : ThreadId → ℕ) (k : ℕ) (t t' : Threads) : Type 0 where
  pub made_none : t'.created ≡ t.created
  pub joined_so_many : total weigh t'.joined ≡ total weigh t.joined + k

module _ (weigh : ThreadId → ℕ) where
  kept : {t t' : Threads} → t' ≡ t → Joins weigh 0 t t'
  kept e = record {
    made_none = ap (λ x. x.created) e;
    joined_so_many = omega (arith, ap (λ x. total weigh x.joined) e);
  }

  once :
      (id : ThreadId) (t : Threads) {t' : Threads}
      → t' ≡ one_joined id t
      → Joins weigh (weigh id) t t'
  once id t e = record {
    made_none = ap (λ x. x.created) e;
    joined_so_many = omega (arith, ap (λ x. total weigh x.joined) e);
  }

  then_more :
      {k m : ℕ} {t t' t'' : Threads}
      → Joins weigh k t t'
      → Joins weigh m t' t''
      → Joins weigh (k + m) t t''
  then_more h h' = record {
    made_none = h'.made_none ∙ h.made_none;
    joined_so_many = omega (arith, h.joined_so_many, h'.joined_so_many);
  }

  as_count : {k m : ℕ} {t t' : Threads} → k ≡ m → Joins weigh k t t' → Joins weigh m t t'
  as_count {t} {t'} e h = subst (λ n. Joins weigh n t t') e h

module _ {W : Type 0} (sockets : PubCalls W) (threads : ThreadCalls W) (monitor : MonitorCalls W)
    (sql : SqlCalls W) (counts : W → Threads)
    (threading : IsThreading sockets threads monitor sql counts) (weigh : ThreadId → ℕ) where
  join_units-Joins :
      (units : List RunningUnit) (w : W)
      → Joins weigh
          (total weigh (units_threads units))
          (counts w)
          (counts (join_units threads w units))
  unfolding join_units
  join_units-Joins [] w = kept weigh refl
  join_units-Joins (u ∷ units) w = as_count weigh (omega arith) (
      then_more weigh
        (once weigh (unit_thread u.cfg) _ (threading.unit_joined w (record u { running = false })))
        (join_units-Joins units (threads.join_unit w (record u { running = false }))))

  monitor-Joins :
      (running : Bool) (w : W)
      → Joins weigh
          (if running then weigh monitor_thread else 0)
          (counts w)
          (counts (if running then monitor.join_monitor w else w))
  monitor-Joins true w = once weigh monitor_thread _ (threading.monitor_joined w)
  monitor-Joins false w = kept weigh refl

  manager_close-Joins :
      (w : W) (log : AlarmLog) → Joins weigh 0 (counts w) (counts (manager_close sql w log).0)
  unfolding manager_close
  manager_close-Joins w log = elim (Bool-cases log.db_open) [
    | inl is_open ↦ rw (manager_close, is_open) (kept weigh (threading.sql_close_keeps w))
    | inr shut ↦ rw (manager_close, shut) (kept weigh refl)
  ]

  bridge_stop-Joins :
      (w : W) (b : CmosBridge)
      → Joins weigh
          (weigh publisher_thread + weigh subscriber_thread)
          (counts w)
          (counts (inverter_cmos_bridge_stop sockets threads w b).0)
  unfolding inverter_cmos_bridge_stop
  bridge_stop-Joins w b =
      let w1 = threads.cancel_subscriber w in
      let w2 = threads.join_subscriber w1 in
      let (w3, p) = threads.join_publisher w2 b.publisher in
      as_count weigh (omega arith) (
        then_more weigh (kept weigh (threading.cancel_keeps w)) (
          then_more weigh (once weigh subscriber_thread _ (threading.subscriber_joined w1)) (
            then_more weigh
              (once weigh publisher_thread _ (threading.publisher_joined w2 b.publisher))
              (kept weigh
                (cmos_pub_close-keeps sockets threads monitor sql counts threading w3 p)))))

  -- The end of `main` joins every unit, both threads of the bridge, and the monitor if it runs.
  pub shut_down-Joins :
      (w : W) (d : Daemon)
      → Joins weigh
          ((if d.alarms.running then weigh monitor_thread else 0)
            + ((weigh publisher_thread + weigh subscriber_thread)
                + total weigh (units_threads d.units)))
          (counts w)
          (counts (shut_down sockets threads monitor sql w d).0)
  unfolding shut_down stop_inverter_modules
  shut_down-Joins w d =
      let w1 = if d.alarms.running then monitor.join_monitor w else w in
      let (w2, b) = inverter_cmos_bridge_stop sockets threads w1 d.cmos in
      let w3 = join_units threads w2 d.units in
      as_count weigh (omega arith) (
        then_more weigh (monitor-Joins d.alarms.running w) (
          then_more weigh (bridge_stop-Joins w1 d.cmos)
            (then_more weigh (join_units-Joins d.units w2) (manager_close-Joins w3 d.alarm_log))))
