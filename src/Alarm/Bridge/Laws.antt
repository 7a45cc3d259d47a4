-- ===== src/Alarm/Bridge/Laws.antt =====
-- The registration of contexts, and the passes of the monitor before and after the start-up delay.
use loop_charger_inverter.Prelude.{
  ℕ, ◌+◌, ◌-◌, ◌%◌, ◌^◌, ◌≤◌, ◌<◌, ◌≡◌, ◌⊎◌, inl, inr, refl, ap, true, false, none, some, List, [],
  ◌∷◌, ◌++◌, arith, All, length, leb, Bool-cases, length-append, lt→ltb, le→ltb,
}
use loop_charger_inverter.Prelude.Int.{pos, negsuc}
use loop_charger_inverter.Alarm.Engine.{EngineCtx, Emitted}
use loop_charger_inverter.Alarm.Bridge.{
  Bridge, Monitor, max_ctxs, startup_delay_ms, register_ctx, evaluate, monitor_pass, monitor_run,
}

early_wrapped :
    (now start : ℕ)
    → start ≤ now
    → now < start + startup_delay_ms
    → (now + 2 ^ 64 - start) % 2 ^ 64 < startup_delay_ms
early_wrapped now start lo hi = omega arith

late_wrapped :
    (now start : ℕ)
    → start + startup_delay_ms ≤ now
    → now < start + 2 ^ 64
    → startup_delay_ms ≤ (now + 2 ^ 64 - start) % 2 ^ 64
late_wrapped now start lo hi = omega arith

module _ {R : Type 0} where
  -- With at most 16 contexts registered: a registration appends the context and returns 0 when
  -- the monitor is not running and fewer than 16 contexts are registered; a null context and
  -- any other registration return -1 and change nothing. There are never more than 16 contexts.
  pub register_ctx_lem :
      (b : Bridge R) (ctx : EngineCtx R)
      → length b.ctxs ≤ max_ctxs
      → let (b', code) = register_ctx b (some ctx) in
        (register_ctx b none ≡ (b, negsuc 0))
        × (length b'.ctxs ≤ max_ctxs)
        × (((b.running ≡ false)
              × (length b.ctxs < max_ctxs)
              × (code ≡ pos 0)
              × (b' ≡ record b { ctxs = b.ctxs ++ (ctx ∷ []) }))
            ⊎ (((b.running ≡ true) ⊎ (length b.ctxs ≡ max_ctxs)) × (code ≡ negsuc 0) × (b' ≡ b)))
  unfolding register_ctx
  register_ctx_lem b ctx h = elim (Bool-cases b.running) [
    | inl run ↦ rw run (refl, h, inr (inl refl, refl, refl))
    | inr idle ↦ elim (Bool-cases (leb max_ctxs (length b.ctxs))) [
      | inl full ↦ rw (idle, full) (refl, h, inr (inr (ground arith), refl, refl))
      | inr room ↦
          let below : length b.ctxs < max_ctxs = ground arith in
          rw (idle, room)
            (
              refl,
              rw (length-append b.ctxs (ctx ∷ [])) (omega arith),
              inl (refl, below, refl, refl),
            )
    ]
  ]

  -- Once the monitor is not warming, a pass evaluates every context.
  abbrev pub evaluate_run : List (ℕ × R) → Bridge R → Bridge R × List Emitted
  evaluate_run [] b = (b, [])
  evaluate_run (pass ∷ passes) b =
      let (b', now) = evaluate pass.1 (record b { last_beat_ms = pass.0 }) in
      let (b'', later) = evaluate_run passes b' in (b'', now ++ later)

  -- What a pass that evaluates puts before the outcome of the passes behind it.
  after :
      (pass : ℕ × R) (b : Bridge R) {x y : Monitor × Bridge R × List Emitted}
      → x ≡ y
      → Path
          (Monitor × Bridge R × List Emitted)
          (x.0, x.1, (evaluate pass.1 (record b { last_beat_ms = pass.0 })).1 ++ x.2)
          (y.0, y.1, (evaluate pass.1 (record b { last_beat_ms = pass.0 })).1 ++ y.2)
  after pass b e =
      ap (λ out. (out.0, out.1, (evaluate pass.1 (record b { last_beat_ms = pass.0 })).1 ++ out.2))
        e

  monitor_run_active :
      (passes : List (ℕ × R)) (m : Monitor) (b : Bridge R)
      → m.warming ≡ false
      → monitor_run passes m b ≡ (
        record { start_ms = m.start_ms; warming = false },
        (evaluate_run passes b).0,
        (evaluate_run passes b).1,
      )
  unfolding monitor_run monitor_pass
  monitor_run_active [] m b h = ap (λ w. (record { start_ms = m.start_ms; warming = w }, b, [])) h
  monitor_run_active (pass ∷ passes) m b h = rw h (
      after pass b (
        monitor_run_active passes (record { start_ms = m.start_ms; warming = false })
          (evaluate pass.1 (record b { last_beat_ms = pass.0 })).0 refl))

  -- A pass before the delay has passed since the start.
  abbrev pub IsEarly : ℕ → ℕ × R → Type 0
  IsEarly start pass = (start ≤ pass.0) × (pass.0 < start + startup_delay_ms)

  -- While 5000 ms have not passed since the start, the passes evaluate nothing and emit no
  -- event; the first pass after that, which comes within 2^64 ms, and each pass from then on
  -- whatever the clock says, evaluates every context.
  pub monitor_run_warming :
      (quiet later : List (ℕ × R)) (first : ℕ × R) (start : ℕ) (b : Bridge R)
      → All (IsEarly start) quiet
      → start + startup_delay_ms ≤ first.0
      → first.0 < start + 2 ^ 64
      → monitor_run (quiet ++ (first ∷ later)) (record { start_ms = start; warming = true }) b ≡ (
        record { start_ms = start; warming = false },
        (evaluate_run (first ∷ later) b).0,
        (evaluate_run (first ∷ later) b).1,
      )
  unfolding monitor_run monitor_pass
  monitor_run_warming [] later first start b q lo hi =
      rw (monitor_pass, le→ltb _ _ (late_wrapped first.0 start lo hi))
        (after first b (
          monitor_run_active later (record { start_ms = start; warming = false })
            (evaluate first.1 (record b { last_beat_ms = first.0 })).0 refl))
  monitor_run_warming (pass ∷ quiet) later first start b q lo hi =
      rw (monitor_pass, lt→ltb _ _ (early_wrapped pass.0 start q.0.0 q.0.1))
        (monitor_run_warming quiet later first start (record b { last_beat_ms = pass.0 }) q.1 lo hi)
