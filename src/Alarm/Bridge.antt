-- ===== src/Alarm/Bridge.antt =====
-- lib/alarm/alarm_bridge.c: the registered contexts and the monitor thread. A context is held by
-- value, so each is registered once, as src/inverter_alarm.c does. The clock is the list of values
-- that `get_monotonic_ms` returns to the passes of the thread; `pthread_create` is a Boolean.
pub mod Laws
use loop_charger_inverter.Prelude.{
  ℕ, zero, suc, ◌+◌, ◌-◌, ◌%◌, ◌^◌, Bool, true, false, not, ◌&&◌, Option, none, some, List, [], ◌∷◌,
  ◌++◌, length, ltb, leb, ◌==◌, if◌then◌else◌,
}
use loop_charger_inverter.Prelude.Int.{ℤ, pos, negsuc}
use loop_charger_inverter.Alarm.Engine.{EngineCtx, Emitted, alarm_engine_run}

abbrev pub max_ctxs : ℕ
max_ctxs = 16

abbrev pub startup_delay_ms : ℕ
startup_delay_ms = 5000

-- The module's state. `g_ctx_count` is the length of `ctxs`.
pub record Bridge (R : Type 0) : Type 0 where
  pub ctxs : List (EngineCtx R)
  pub running : Bool
  pub last_beat_ms : ℕ

-- The locals of the monitor thread.
pub record Monitor : Type 0 where
  pub start_ms : ℕ
  pub warming : Bool

module _ {R : Type 0} where
  -- `alarm_bridge_register_ctx`.
  unfoldable pub register_ctx : Bridge R → Option (EngineCtx R) → Bridge R × ℤ
  register_ctx b none = (b, negsuc 0)
  register_ctx b (some ctx) =
      if b.running
      then (b, negsuc 0)
      else if leb max_ctxs (length b.ctxs)
      then (b, negsuc 0)
      else (record b { ctxs = b.ctxs ++ (ctx ∷ []) }, pos 0)

  -- `alarm_bridge_start` at the time `now`.
  unfoldable pub bridge_start : Bridge R → ℕ → Bool → Bridge R × ℤ
  bridge_start b now created =
      if created
      then (record b { last_beat_ms = now; running = true }, pos 0)
      else (record b { last_beat_ms = now; running = false }, negsuc 0)

  -- `alarm_bridge_stop`.
  unfoldable pub bridge_stop : Bridge R → Bridge R
  bridge_stop b = if not b.running then b else record b { running = false }

  -- The inner loop: every context, in the order of registration.
  unfoldable pub run_ctxs : R → List (EngineCtx R) → List (EngineCtx R) × List Emitted
  run_ctxs r [] = ([], [])
  run_ctxs r (ctx ∷ ctxs) =
      let (ran, now) = alarm_engine_run (some ctx) r in
      let (ctxs', later) = run_ctxs r ctxs in
      ((elim ran [ none ↦ ctx | some ctx' ↦ ctx' ]) ∷ ctxs', now ++ later)

  -- The inner loop on the module's state.
  unfoldable pub evaluate : R → Bridge R → Bridge R × List Emitted
  evaluate r b = let (ctxs', events) = run_ctxs r b.ctxs in (record b { ctxs = ctxs' }, events)

  -- One pass of the monitor thread at the time `now`, with `g_running` set.
  unfoldable pub monitor_pass : R → ℕ → Monitor → Bridge R → Monitor × Bridge R × List Emitted
  monitor_pass r now m b =
      let beaten : Bridge R = record b { last_beat_ms = now } in
      if m.warming && ltb ((now + 2 ^ 64 - m.start_ms) % 2 ^ 64) startup_delay_ms
      then (m, beaten, [])
      else let (b', events) = evaluate r beaten in (record m { warming = false }, b', events)

  -- The passes at the times of a list, each with what the registers are then.
  unfoldable pub monitor_run : List (ℕ × R) → Monitor → Bridge R → Monitor × Bridge R × List Emitted
  monitor_run [] m b = (m, b, [])
  monitor_run (pass ∷ passes) m b =
      let (m', b', now) = monitor_pass pass.1 pass.0 m b in
      let (m'', b'', later) = monitor_run passes m' b' in (m'', b'', now ++ later)
