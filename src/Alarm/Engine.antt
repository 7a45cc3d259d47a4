-- ===== src/Alarm/Engine.antt =====
-- `alarm_engine.c`: read a register, evaluate the condition, emit an event. `R` is what the read
-- function reads from (its `read_data` included); the calls of `event_fn` are the list of events, in
-- order.
pub mod Sticky
pub mod Changes
pub mod Passes
use loop_charger_inverter.Prelude.{
  ℕ, zero, suc, Bool, true, false, not, ◌&&◌, ◌||◌, Option, none, some, List, [], ◌∷◌, ◌++◌, ltb,
  ◌==◌, if◌then◌else◌, bit_and, String,
}

-- `alarm_cond_t`; `unknown` is any other value, the `default` of the switch.
pub data Condition : Type 0 where
  bitmask range change unknown : Condition

-- `alarm_event_t`.
pub data AlarmEvent : Type 0 where
  trigger clear : AlarmEvent

-- `alarm_entry_t`.
pub record Entry : Type 0 where
  pub device_address : ℕ
  pub condition : Condition
  pub lo_limit : ℕ
  pub hi_limit : ℕ
  pub error_code : ℕ
  pub description : String

-- `alarm_state_t`.
pub record State : Type 0 where
  pub is_active : Bool
  pub prev_value : ℕ

-- One call of `event_fn`.
pub record Emitted : Type 0 where
  pub entry : Entry
  pub value : ℕ
  pub event : AlarmEvent

unfoldable pub eval_bitmask : Entry → ℕ → Bool
eval_bitmask entry value = bit_and value entry.hi_limit == entry.hi_limit

unfoldable pub eval_range : Entry → ℕ → Bool
eval_range entry value = ltb value entry.lo_limit || ltb entry.hi_limit value

unfoldable pub eval_change : State → ℕ → Bool
eval_change state value = not (value == state.prev_value)

unfoldable pub apply_sticky : Entry → State → ℕ → Bool → State × List Emitted
apply_sticky entry state value triggered =
    if triggered && not state.is_active
    then (
      record state { is_active = true },
      record { entry = entry; value = value; event = trigger } ∷ [],
    )
    else if not triggered && state.is_active
    then (
      record state { is_active = false },
      record { entry = entry; value = value; event = clear } ∷ [],
    )
    else (state, [])

-- The switch on the condition.
unfoldable pub eval_entry : Condition → Entry → State → ℕ → State × List Emitted
unfolding apply_sticky
eval_entry bitmask entry state value = apply_sticky entry state value (eval_bitmask entry value)
eval_entry range entry state value = apply_sticky entry state value (eval_range entry value)
eval_entry change entry state value = (
  record state { prev_value = value },
  (if eval_change state value
      then record { entry = entry; value = value; event = trigger } ∷ []
      else []),
)
eval_entry unknown entry state value = (state, [])

-- The body of the loop; `none` is a register that is not available.
unfoldable pub step_entry : Entry → State → Option ℕ → State × List Emitted
unfolding eval_entry
step_entry entry state none = (state, [])
step_entry entry state (some value) = eval_entry entry.condition entry state value

-- The loop of `alarm_engine_run` over the first `count` entries.
unfoldable pub engine_loop :
    (ℕ → Option ℕ) → ℕ → List Entry → List State → List State × List Emitted
engine_loop read zero table states = (states, [])
engine_loop read (suc count) (entry ∷ table) (state ∷ states) =
    let (state', now) = step_entry entry state (read entry.device_address) in
    let (states', later) = engine_loop read count table states in (state' ∷ states', now ++ later)
engine_loop read (suc count) _ states = (states, [])

-- `alarm_engine_ctx_t`; a null pointer is `none`, and `has_event_fn` tells whether `event_fn` is set.
pub record EngineCtx (R : Type 0) : Type 0 where
  pub table : Option (List Entry)
  pub states : Option (List State)
  pub count : ℕ
  pub read_fn : Option (R → ℕ → Option ℕ)
  pub has_event_fn : Bool

-- With every pointer there.
unfoldable pub run_entries :
    {R : Type 0}
    → EngineCtx R
    → R
    → List Entry
    → List State
    → (R → ℕ → Option ℕ)
    → EngineCtx R × List Emitted
unfolding engine_loop
run_entries ctx r table states read =
    if not ctx.has_event_fn || ctx.count == 0
    then (ctx, [])
    else let (states', events) = engine_loop (read r) ctx.count table states in
      (record ctx { states = some states' }, events)

unfoldable pub alarm_engine_run :
    {R : Type 0} → Option (EngineCtx R) → R → Option (EngineCtx R) × List Emitted
unfolding run_entries
alarm_engine_run none r = (none, [])
alarm_engine_run (some ctx) r = elim ctx.table [
  | none ↦ (some ctx, [])
  | some table ↦ elim ctx.states [
    | none ↦ (some ctx, [])
    | some states ↦ elim ctx.read_fn [
      | none ↦ (some ctx, [])
      | some read ↦ let (ctx', events) = run_entries ctx r table states read in (some ctx', events)
    ]
  ]
]
