-- ===== src/Inverter/Thread/Connection.antt =====
-- The port and the connection state over the life of a poll thread.
use loop_charger_inverter.Prelude.{
  ℕ, ◌≡◌, refl, sym, ap, Bool, true, false, some, List, [], ◌∷◌, ◌++◌, arith, ◌==◌, Bool-cases,
  Option-cases, inl, inr,
}
use mathlib.Core.Path.{subst}
use loop_charger_inverter.Prelude.Int.{eq_pos, is_neg}
use loop_charger_inverter.Modbus.Transaction.{Ctx, Exchange}
use loop_charger_inverter.Modbus.Port.{SerialCalls, connect, disconnect}
use loop_charger_inverter.DeviceMap.{RegisterPool}
use loop_charger_inverter.Inverter.Unit.{InverterUnit, scan_registers, process_callback}
use loop_charger_inverter.Inverter.Thread.{
  ConnectionState, connected, ModuleConfig, Phase, starting, polling, stopped, Thread, drop_line,
  probe_unit, init_callback, outer_step, inner_step, thread_step, thread_run, rtu_cfg,
}

-- While the thread polls, the port is open and the connection state says so; once it has stopped,
-- the port is closed.
abbrev pub IsSoundIn : Phase → Ctx → ConnectionState → Type 0
IsSoundIn starting ctx state = Unit
IsSoundIn polling ctx state = (is_neg ctx.fd ≡ false) × (state ≡ connected)
IsSoundIn stopped ctx state = is_neg ctx.fd ≡ true

abbrev pub IsSound : {W : Type 0} → Thread W → Type 0
IsSound t = IsSoundIn t.phase t.unit.rtu_ctx t.cfg.connection_state

module _ {W : Type 0} (calls : SerialCalls W) (bus : W → ℕ → List ℕ → W × Exchange) where
  drop_line-closed :
      (w : W) (unit : InverterUnit) → is_neg (drop_line calls w unit).1.rtu_ctx.fd ≡ true
  unfolding drop_line disconnect
  drop_line-closed w unit = elim (Bool-cases (is_neg unit.rtu_ctx.fd)) [
    | inl closed ↦ rw (drop_line, disconnect, closed) closed
    | inr opened ↦ rw (drop_line, disconnect, opened) refl
  ]

  connect-open :
      (w : W) (cfg : ModuleConfig)
      → eq_pos (connect calls w (rtu_cfg cfg)).2 0 ≡ true
      → is_neg (connect calls w (rtu_cfg cfg)).1.fd ≡ false
  unfolding connect
  connect-open w cfg e = elim (Bool-cases (is_neg (calls.open_path w cfg.path).1)) [
    | inl none_open ↦ ground arith
    | inr opened ↦ ground arith
  ]

  probe_unit-open :
      (w : W) (cfg : ModuleConfig) (unit : InverterUnit)
      → is_neg unit.rtu_ctx.fd ≡ false
      → eq_pos (probe_unit calls bus w cfg unit).3 0 ≡ true
      → IsSoundIn polling
          (probe_unit calls bus w cfg unit).2.rtu_ctx
          (probe_unit calls bus w cfg unit).1.connection_state
  unfolding probe_unit
  probe_unit-open w cfg unit opened e = ground arith

  process_callback-ctx :
      (w : W) (pool : RegisterPool) (unit : InverterUnit)
      → (u : InverterUnit) × ((process_callback bus w pool (some unit)).0.2 ≡ some u)
        × (u.rtu_ctx ≡ unit.rtu_ctx)
  unfolding process_callback
  process_callback-ctx w pool unit = elim (Option-cases unit.profile.table) [
    | inl f ↦ rw (scan_registers, f) (_, refl, refl)
    | inr (table, f) ↦ elim (Bool-cases (unit.profile.table_count == 0)) [
      | inl e ↦ rw (scan_registers, f, e) (_, refl, refl)
      | inr e ↦ rw (scan_registers, f, e) (_, refl, refl)
    ]
  ]

  init_callback-open :
      (w : W) (cfg : ModuleConfig) (unit : InverterUnit)
      → eq_pos (init_callback calls bus w cfg unit).3 0 ≡ true
      → IsSoundIn polling
          (init_callback calls bus w cfg unit).2.rtu_ctx
          (init_callback calls bus w cfg unit).1.connection_state
  unfolding init_callback
  init_callback-open w cfg unit e = ground (
    arith,
    connect-open w cfg,
    probe_unit-open (connect calls w (rtu_cfg cfg)).0 cfg
        (record unit { rtu_ctx = (connect calls w (rtu_cfg cfg)).1 }),
  )

  outer_step-IsSound : (running : Bool) (t : Thread W) → IsSound (outer_step calls bus running t)
  unfolding outer_step
  outer_step-IsSound false t = drop_line-closed t.line t.unit
  outer_step-IsSound true t =
      elim (Bool-cases (eq_pos (init_callback calls bus t.line t.cfg t.unit).3 0)) [
        | inl ok ↦ rw ok (init_callback-open t.line t.cfg t.unit ok)
        | inr failed ↦ rw failed tt
      ]

  inner_step-IsSound :
      (running : Bool) (t : Thread W)
      → t.phase ≡ polling
      → IsSoundIn polling t.unit.rtu_ctx t.cfg.connection_state
      → IsSound (inner_step calls bus running t)
  unfolding inner_step
  inner_step-IsSound false t at h = tt
  inner_step-IsSound true t at h =
      elim (Bool-cases (eq_pos (process_callback bus t.line t.pool (some t.unit)).1 0)) [
        | inl ok ↦
            let (u, e, same) = process_callback-ctx t.line t.pool t.unit in
            rw (inner_step, ok, at, e, same) h
        | inr failed ↦ rw (inner_step, failed) tt
      ]

  thread_step-IsSound :
      (running : Bool) (t : Thread W) → IsSound t → IsSound (thread_step calls bus running t)
  unfolding thread_step
  thread_step-IsSound running t h = by_phase t.phase refl
    where
      by_phase : (p : Phase) → t.phase ≡ p → IsSound (thread_step calls bus running t)
      by_phase starting at = rw (thread_step, at) (outer_step-IsSound running t)
      by_phase polling at =
          rw (thread_step, at)
            (inner_step-IsSound running t at
              (subst (λ p. IsSoundIn p t.unit.rtu_ctx t.cfg.connection_state) at h))
      by_phase stopped at = rw (thread_step, at) h

  -- From a state where this holds, as the start does, whatever values of `running` the thread
  -- sees: it is never in its polling loop without an open port and the connection state
  -- CONNECTED, and it never ends with the port open.
  pub thread_run-IsSound :
      (inputs : List Bool) (t : Thread W) → IsSound t → IsSound (thread_run calls bus inputs t)
  unfolding thread_run
  thread_run-IsSound [] t h = h
  thread_run-IsSound (running ∷ inputs) t h =
      thread_run-IsSound inputs (thread_step calls bus running t) (thread_step-IsSound running t h)

  abbrev Ends : Thread W → Type 0
  Ends t =
      ((thread_step calls bus false t).phase ≡ stopped)
      × (is_neg (thread_step calls bus false t).unit.rtu_ctx.fd ≡ true)

  last_tests : (t : Thread W) → IsSound t → Ends (thread_step calls bus false t)
  unfolding thread_step outer_step inner_step
  last_tests t h = by_phase t.phase refl
    where
      after :
          (s : Thread W)
          → thread_step calls bus false t ≡ s
          → Ends s
          → Ends (thread_step calls bus false t)
      after s e ends = subst Ends (sym e) ends

      by_phase : (p : Phase) → t.phase ≡ p → Ends (thread_step calls bus false t)
      by_phase starting at =
          after (outer_step calls bus false t) (rw (thread_step, at) refl)
            (refl, drop_line-closed t.line t.unit)
      by_phase polling at =
          after (inner_step calls bus false t) (rw (thread_step, at) refl)
            (refl, drop_line-closed t.line t.unit)
      by_phase stopped at =
          after t
            (ap
              (λ p. elim p as (λ _. Thread W) [
                | starting ↦ outer_step calls bus false t
                | polling ↦ inner_step calls bus false t
                | stopped ↦ t
              ])
              at)
            (
              rw (thread_step, at) at,
              rw (thread_step, at)
                  (subst (λ p. IsSoundIn p t.unit.rtu_ctx t.cfg.connection_state) at h),
            )

  -- From a sound state, as the start is, and after any run, two tests of `running` that give
  -- false end the thread, with the port closed.
  pub thread_run_stops :
      (inputs : List Bool) (t : Thread W)
      → IsSound t
      → let ended = thread_run calls bus (inputs ++ (false ∷ false ∷ [])) t in
        (ended.phase ≡ stopped) × (is_neg ended.unit.rtu_ctx.fd ≡ true)
  unfolding thread_run
  thread_run_stops [] t h = last_tests t h
  thread_run_stops (running ∷ inputs) t h =
      thread_run_stops inputs (thread_step calls bus running t) (thread_step-IsSound running t h)
