-- ===== src/Alarm/Engine/Changes.antt =====
-- The history of an entry of the CHANGE condition.
use loop_charger_inverter.Prelude.{
  ℕ, ◌≡◌, refl, ap, Option, none, some, List, [], ◌∷◌, ◌++◌, arith, ◌==◌, if◌then◌else◌,
}
use loop_charger_inverter.Alarm.Engine.{
  change, trigger, Entry, State, Emitted, eval_change, step_entry,
}
use loop_charger_inverter.Alarm.Engine.Sticky.{run_entry}

-- A trigger for each available reading that differs from the one before it.
abbrev pub changes : Entry → ℕ → List (Option ℕ) → List Emitted
changes entry before [] = []
changes entry before (none ∷ readings) = changes entry before readings
changes entry before (some v ∷ readings) =
    (if v == before then [] else record { entry = entry; value = v; event = trigger } ∷ [])
    ++ changes entry v readings

-- The last reading that is available.
abbrev pub last_value : ℕ → List (Option ℕ) → ℕ
last_value before [] = before
last_value before (none ∷ readings) = last_value before readings
last_value before (some v ∷ readings) = last_value v readings

step_entry-change :
    (entry : Entry) (state : State) (v : ℕ)
    → entry.condition ≡ change
    → step_entry entry state (some v) ≡ (
      record { is_active = state.is_active; prev_value = v },
      (if v == state.prev_value
          then []
          else record { entry = entry; value = v; event = trigger } ∷ []),
    )
unfolding step_entry eval_change
step_entry-change entry state v h = rw h (ground arith)

-- A CHANGE entry emits one trigger for each available reading that differs from the available one
-- before it, and nothing else; `prev_value` ends as the last of them and the sticky flag is not
-- touched.
pub run_entry-changes :
    (entry : Entry) (state : State) (readings : List (Option ℕ))
    → entry.condition ≡ change
    → run_entry entry state readings ≡ (
      record { is_active = state.is_active; prev_value = last_value state.prev_value readings },
      changes entry state.prev_value readings,
    )
unfolding step_entry
run_entry-changes entry state [] h = refl
run_entry-changes entry state (none ∷ readings) h = run_entry-changes entry state readings h
run_entry-changes entry state (some v ∷ readings) h = rw (step_entry-change entry state v h) (
    ap
      (λ out. (
        out.0,
        (if v == state.prev_value
              then []
              else record { entry = entry; value = v; event = trigger } ∷ [])
            ++ out.1,
      ))
      (run_entry-changes entry (record { is_active = state.is_active; prev_value = v }) readings h))
