-- ===== src/Alarm/Engine/Sticky.antt =====
-- The history of one entry over many passes: what its events and its state are, as a function of
-- the values read.
use loop_charger_inverter.Prelude.{
  ℕ, ◌≡◌, ◌⊎◌, inl, inr, refl, ap, Bool, not, ◌&&◌, Option, none, some, List, [], ◌∷◌, ◌++◌, arith,
  if◌then◌else◌,
}
use loop_charger_inverter.Alarm.Engine.{
  Condition, bitmask, range, trigger, clear, Entry, State, Emitted, eval_bitmask, eval_range,
  step_entry,
}

-- One entry through a list of readings, one for each pass.
abbrev pub run_entry : Entry → State → List (Option ℕ) → State × List Emitted
run_entry entry state [] = (state, [])
run_entry entry state (reading ∷ readings) =
    let (state', now) = step_entry entry state reading in
    let (state'', later) = run_entry entry state' readings in (state'', now ++ later)

-- The condition of a sticky entry, as a predicate of the value.
abbrev pub triggered : Condition → Entry → ℕ → Bool
triggered bitmask entry value = eval_bitmask entry value
triggered _ entry value = eval_range entry value

abbrev pub IsSticky : Condition → Type 0
IsSticky c = (c ≡ bitmask) ⊎ (c ≡ range)

-- What is emitted for the readings that are available: a trigger at each rise of the condition, a
-- clear at each fall.
abbrev pub edges : (ℕ → Bool) → Entry → Bool → List (Option ℕ) → List Emitted
edges high entry before [] = []
edges high entry before (none ∷ readings) = edges high entry before readings
edges high entry before (some v ∷ readings) =
    (if high v && not before
      then record { entry = entry; value = v; event = trigger } ∷ []
      else if not (high v) && before
      then record { entry = entry; value = v; event = clear } ∷ []
      else [])
    ++ edges high entry (high v) readings

-- The condition at the last reading that is available.
abbrev pub last_high : (ℕ → Bool) → Bool → List (Option ℕ) → Bool
last_high high before [] = before
last_high high before (none ∷ readings) = last_high high before readings
last_high high before (some v ∷ readings) = last_high high (high v) readings

step_entry-sticky :
    (entry : Entry) (state : State) (v : ℕ)
    → IsSticky entry.condition
    → step_entry entry state (some v) ≡ (
      record { is_active = triggered entry.condition entry v; prev_value = state.prev_value },
      (if triggered entry.condition entry v && not state.is_active
          then record { entry = entry; value = v; event = trigger } ∷ []
          else if not (triggered entry.condition entry v) && state.is_active
          then record { entry = entry; value = v; event = clear } ∷ []
          else []),
    )
unfolding step_entry
step_entry-sticky entry state v (inl h) = rw h (ground arith)
step_entry-sticky entry state v (inr h) = rw h (ground arith)

-- A BITMASK or RANGE entry is an edge detector: over any readings its events are the rises and
-- falls of its condition, in order and with the value read, its sticky flag ends as the condition of
-- the last reading available, and `prev_value` is not touched.
pub run_entry-edges :
    (entry : Entry) (state : State) (readings : List (Option ℕ))
    → IsSticky entry.condition
    → run_entry entry state readings ≡ (
      record {
        is_active = last_high (triggered entry.condition entry) state.is_active readings;
        prev_value = state.prev_value;
      },
      edges (triggered entry.condition entry) entry state.is_active readings,
    )
unfolding step_entry
run_entry-edges entry state [] h = refl
run_entry-edges entry state (none ∷ readings) h = run_entry-edges entry state readings h
run_entry-edges entry state (some v ∷ readings) h =
    let high = triggered entry.condition entry v in
    rw (step_entry-sticky entry state v h) (
      ap
        (λ out. (
          out.0,
          (if high && not state.is_active
                then record { entry = entry; value = v; event = trigger } ∷ []
                else if not high && state.is_active
                then record { entry = entry; value = v; event = clear } ∷ []
                else [])
              ++ out.1,
        ))
        (run_entry-edges entry (record { is_active = high; prev_value = state.prev_value }) readings
          h))
