-- ===== src/Inverter/Bridge/Dispatch.antt =====
-- What a message of the controller does to the command queues.
use mathlib.Core.List.{append_assoc, append-nil}
use loop_charger_inverter.Prelude.{
  get_elem?, ◌+◌, ◌-◌, ◌≤◌, ◌<◌, ◌++◌, sym, All, arith, length, length-append, take_all, ℕ, ◌%◌,
  ◌^◌, ◌≡◌, refl, ap, ◌∙◌, subst, true, Option, none, some, List, [], ◌∷◌, map,
}
use loop_charger_inverter.Prelude.Int.{pos}
use loop_charger_inverter.Cmos.Text.{codes, newline, same_text}
use loop_charger_inverter.Cmos.Sub.{SubSlot, Call, is_refused, calls_of, ctx_handle_line}
use loop_charger_inverter.Cmos.Link.{Message, IsPlain, line_of, received, ctx_handle_line-message}
use loop_charger_inverter.Cmos.Conns.{cm_max_sub_slots, filter_size, SubCtx, SubCalls}
use loop_charger_inverter.Cmos.Spin.{cmos_sub_add, filled_slot}
use loop_charger_inverter.Cmos.Spin.Keeps.{cmos_sub_add-sub_slots}
use loop_charger_inverter.Inverter.Handlers.{UnitQueue, on_write, on_main_pump_duty_cmd}
use loop_charger_inverter.Inverter.Handlers.Access.{command_handlers_refused}
use loop_charger_inverter.Inverter.Handlers.Queued.{
  AreWellFormed, waiting_requests, put_on_first, one_register, on_write-IsPut,
}
use loop_charger_inverter.Inverter.Bridge.{
  Handler, bridge_sub_hmi_topic, Subscription, subscriptions, run_handler, run_calls, subscribe_all,
}

-- The slot that `cmos_sub_add` fills for a subscription.
abbrev pub slot_of : Subscription → SubSlot Handler
slot_of sub = record {
  topic = bridge_sub_hmi_topic;
  filter_state = [];
  filter_type = sub.filter_type;
  filter_key = sub.filter_key;
  cb = some sub.handler;
  used = true;
}

abbrev pub hmi_message : Option (List ℕ) → List ℕ → List ℕ → List ℕ → Message
hmi_message state type key value = record {
  state = state;
  type = some type;
  key = key;
  value = some value;
}

-- The line that a publisher of the controller's topic sends.
abbrev pub hmi_line : Option (List ℕ) → List ℕ → List ℕ → List ℕ → List ℕ
hmi_line state type key value =
    line_of bridge_sub_hmi_topic (hmi_message state type key value) ++ (newline ∷ [])

-- The calls that one line causes on the connections of the four subscriptions, one connection after
-- the other.
abbrev pub calls_for : List ℕ → List (Call Handler)
calls_for line = calls_of (
    ctx_handle_line (map slot_of subscriptions) (pos 0) line
    ∷ ctx_handle_line (map slot_of subscriptions) (pos 1) line
    ∷ ctx_handle_line (map slot_of subscriptions) (pos 2) line
    ∷ ctx_handle_line (map slot_of subscriptions) (pos 3) line
    ∷ [])

-- With each subscription's type and key, the state and the value make a plain message.
abbrev pub ArePlain : Option (List ℕ) → List ℕ → Type 0
ArePlain state value =
    All
      (λ sub. IsPlain bridge_sub_hmi_topic (hmi_message state sub.filter_type sub.filter_key value))
      subscriptions

-- The same calls as `received` tells them.
abbrev calls_told : Message → List (Call Handler)
calls_told m =
    calls_of (map (λ sub. received (slot_of sub) sub.handler bridge_sub_hmi_topic m) subscriptions)

module _ (m : Message) (plain : IsPlain bridge_sub_hmi_topic m) where
  told :
      (sub : Subscription) (s : ℕ)
      → get_elem? (map slot_of subscriptions) s ≡ some (slot_of sub)
      → ctx_handle_line
          (map slot_of subscriptions)
          (pos s)
          (line_of bridge_sub_hmi_topic m ++ (newline ∷ []))
        ≡ received (slot_of sub) sub.handler bridge_sub_hmi_topic m
  told sub s at =
      ctx_handle_line-message bridge_sub_hmi_topic m plain (slot_of sub) sub.handler
        (map slot_of subscriptions) s at refl refl refl (omega arith) (ground arith)

  calls_for-told : calls_for (line_of bridge_sub_hmi_topic m ++ (newline ∷ [])) ≡ calls_told m
  calls_for-told = rw (told _ 0 refl, told _ 1 refl, told _ 2 refl, told _ 3 refl) refl

run_calls-told :
    (strtoul : List ℕ → ℕ) (units : List UnitQueue) (state : Option (List ℕ)) (value : List ℕ)
    → (run_calls strtoul
          (calls_told (hmi_message state (codes "ctrl") (codes "main_pump") value))
          units
        ≡ (on_write units 1 0x2001 (strtoul value % 2 ^ 16)).0)
      × (run_calls strtoul
            (calls_told
              (hmi_message state (codes "command") (codes "inv_operation_commands") value))
            units
          ≡ units)
      × (run_calls strtoul
            (calls_told
              (hmi_message state (codes "command") (codes "inv_frequency_write_commands") value))
            units
          ≡ units)
      × (run_calls strtoul
            (calls_told
              (hmi_message state (codes "command") (codes "inv_fault_Control_commands") value))
            units
          ≡ units)
unfolding run_calls run_handler is_refused same_text on_main_pump_duty_cmd
run_calls-told strtoul units state value = (
  refl,
  (command_handlers_refused strtoul units value).0,
  (command_handlers_refused strtoul units value).1,
  (command_handlers_refused strtoul units value).2,
)

-- For well-formed queues, and a state and a value that have no blank, line end or NUL and make lines
-- of at most 511 bytes: the line of a message with type `ctrl` and key `main_pump` puts a request to
-- write the value, cut to 16 bits, to register 0x2001 behind those that wait for the first unit with
-- uid 1, unless 16 wait there; all else that waits at the units stays as it is, and the queues stay
-- well formed. The line of a message with type `command` and the key of any of the three commands of
-- the HMI changes no queue.
pub run_calls_lem :
    (strtoul : List ℕ → ℕ) (units : List UnitQueue) (state : Option (List ℕ)) (value : List ℕ)
    → ArePlain state value
    → AreWellFormed units
    → AreWellFormed (
        run_calls strtoul
          (calls_for (hmi_line state (codes "ctrl") (codes "main_pump") value))
          units)
      × (waiting_requests (
            run_calls strtoul
              (calls_for (hmi_line state (codes "ctrl") (codes "main_pump") value))
              units)
          ≡ put_on_first 1 (one_register 0x2001 (strtoul value % 2 ^ 16)) (waiting_requests units))
      × (run_calls strtoul
            (calls_for (hmi_line state (codes "command") (codes "inv_operation_commands") value))
            units
          ≡ units)
      × (run_calls strtoul
            (calls_for
              (hmi_line state (codes "command") (codes "inv_frequency_write_commands") value))
            units
          ≡ units)
      × (run_calls strtoul
            (calls_for
              (hmi_line state (codes "command") (codes "inv_fault_Control_commands") value))
            units
          ≡ units)
run_calls_lem strtoul units state value plain wf =
    let run : List (Call Handler) → List UnitQueue = λ made. run_calls strtoul made units in
    let (pumped, by_operation, by_frequency, by_fault) = run_calls-told strtoul units state value in
    let ctrl = ap run (calls_for-told _ plain.1.1.1.0) ∙ pumped in
    let (well_formed, put) = on_write-IsPut units (strtoul value % 2 ^ 16) wf in
    (
      subst AreWellFormed (sym ctrl) well_formed,
      ap waiting_requests ctrl ∙ put,
      ap run (calls_for-told _ plain.0) ∙ by_operation,
      ap run (calls_for-told _ plain.1.0) ∙ by_frequency,
      ap run (calls_for-told _ plain.1.1.0) ∙ by_fault,
    )

-- The texts of a subscription fit the arrays of a slot.
abbrev FitsSlot : Subscription → Type 0
FitsSlot sub = (length sub.filter_type < filter_size) × (length sub.filter_key < filter_size)

filled-slot_of :
    (sub : Subscription)
    → FitsSlot sub
    → filled_slot bridge_sub_hmi_topic none
        (some sub.filter_type)
        (some sub.filter_key)
        (some sub.handler)
      ≡ slot_of sub
filled-slot_of sub h =
    rw
      (
        take_all (filter_size - 1) sub.filter_type (omega arith),
        take_all (filter_size - 1) sub.filter_key (omega arith),
      )
      refl

subscribe_all-append :
    {W : Type 0} (calls : SubCalls W) (subs : List Subscription) (w : W) (ctx : SubCtx Handler)
    → All FitsSlot subs
    → length ctx.sub_slots + length subs ≤ cm_max_sub_slots
    → (subscribe_all calls w ctx subs).1.sub_slots ≡ ctx.sub_slots ++ map slot_of subs
unfolding subscribe_all
subscribe_all-append calls [] w ctx f h = sym (append-nil ctx.sub_slots)
subscribe_all-append calls (sub ∷ subs) w ctx f h =
    let (w', ctx', _) =
      cmos_sub_add calls w ctx bridge_sub_hmi_topic none (some sub.filter_type)
        (some sub.filter_key) (some sub.handler) in
    let added : ctx'.sub_slots ≡ ctx.sub_slots ++ (slot_of sub ∷ []) =
      cmos_sub_add-sub_slots calls w ctx bridge_sub_hmi_topic none (some sub.filter_type)
        (some sub.filter_key) (some sub.handler) (omega arith)
      ∙ ap (λ x. ctx.sub_slots ++ (x ∷ [])) (filled-slot_of sub f.0) in
    subscribe_all-append calls subs w' ctx' f.1
      (omega (arith, ap length added, length-append ctx.sub_slots (slot_of sub ∷ [])))
    ∙ ap (λ l. l ++ map slot_of subs) added
    ∙ append_assoc ctx.sub_slots (slot_of sub ∷ []) (map slot_of subs)

-- A context without slots has the four of the bridge after the calls of `cmos_sub_add`, with no text
-- cut off, whatever the master answers.
pub subscribe_all-sub_slots :
    {W : Type 0} (calls : SubCalls W) (w : W) (ctx : SubCtx Handler)
    → ctx.sub_slots ≡ []
    → (subscribe_all calls w ctx subscriptions).1.sub_slots ≡ map slot_of subscriptions
subscribe_all-sub_slots calls w ctx fresh =
    subscribe_all-append calls subscriptions w ctx (ground arith) (omega (arith, ap length fresh))
    ∙ ap (λ l. l ++ map slot_of subscriptions) fresh
