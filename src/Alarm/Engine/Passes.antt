-- ===== src/Alarm/Engine/Passes.antt =====
-- The whole table of `alarm_engine_run` over many passes, entry by entry.
use loop_charger_inverter.Prelude.{
  ℕ, zero, suc, ◌≡◌, Option, some, List, [], ◌∷◌, map, length, get_elem?,
}
use loop_charger_inverter.Alarm.Engine.{Entry, State, step_entry, engine_loop}
use loop_charger_inverter.Alarm.Engine.Sticky.{run_entry}

-- The states after passes of the loop over the table, each with what the registers are then.
abbrev pub engine_passes : List Entry → List State → List (ℕ → Option ℕ) → List State
engine_passes table states [] = states
engine_passes table states (read ∷ reads) =
    engine_passes table (engine_loop read (length table) table states).0 reads

-- One pass steps the state of each entry with the reading of its register.
engine_loop-get_elem? :
    (read : ℕ → Option ℕ) (table : List Entry) (states : List State) (i : ℕ) (entry : Entry)
    (state : State)
    → get_elem? table i ≡ some entry
    → get_elem? states i ≡ some state
    → get_elem? (engine_loop read (length table) table states).0 i
      ≡ some (step_entry entry state (read entry.device_address)).0
unfolding engine_loop
engine_loop-get_elem? read [] states i entry state at_t at_s = absurd (cc)
engine_loop-get_elem? read (e ∷ table) [] i entry state at_t at_s = absurd (cc)
engine_loop-get_elem? read (e ∷ table) (s ∷ states) zero entry state at_t at_s = cc
engine_loop-get_elem? read (e ∷ table) (s ∷ states) (suc i) entry state at_t at_s =
    engine_loop-get_elem? read table states i entry state at_t at_s

-- After any passes over the table, the state of entry `i` is what that entry alone comes to on the
-- readings of its register: no entry touches the state of another.
pub engine_passes-run_entry :
    (table : List Entry) (reads : List (ℕ → Option ℕ)) (states : List State) (i : ℕ) (entry : Entry)
    (state : State)
    → get_elem? table i ≡ some entry
    → get_elem? states i ≡ some state
    → get_elem? (engine_passes table states reads) i
      ≡ some (run_entry entry state (map (λ read. read entry.device_address) reads)).0
engine_passes-run_entry table [] states i entry state at_t at_s = at_s
engine_passes-run_entry table (read ∷ reads) states i entry state at_t at_s =
    engine_passes-run_entry table reads (engine_loop read (length table) table states).0 i entry
      (step_entry entry state (read entry.device_address)).0 at_t
      (engine_loop-get_elem? read table states i entry state at_t at_s)
