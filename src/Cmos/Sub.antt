-- ===== src/Cmos/Sub.antt =====
-- How lib/cmos/cmos_sub.c takes the lines out of the bytes of a publisher, and which callback a line
-- reaches. A callback is a value of the type `C`; a text is a list of bytes.
pub mod Framing
pub mod Messages
use loop_charger_inverter.Prelude.{
  ℕ, zero, suc, ◌-◌, Bool, true, false, not, ◌&&◌, ◌||◌, Option, none, some, List, [], ◌∷◌, ◌++◌,
  map, length, get_elem?, take, leb, ◌==◌, if◌then◌else◌,
}
use loop_charger_inverter.Prelude.Int.{ℤ, pos, negsuc}
use loop_charger_inverter.Cmos.Text.{
  codes, newline, c_string, same_text, after_prefix, blank_or_end, line_end, blank, strtok,
}

abbrev pub cm_rx_buf : ℕ
cm_rx_buf = 2048

-- `sizeof(line)`, and `sizeof(tmp)` of `ctx_handle_line`.
abbrev pub line_size : ℕ
line_size = 512

-- `cm_sub_slot_t`.
pub record SubSlot (C : Type 0) : Type 0 where
  pub topic : List ℕ
  pub filter_state : List ℕ
  pub filter_type : List ℕ
  pub filter_key : List ℕ
  pub cb : Option C
  pub used : Bool

-- `cm_pub_conn_t`; `rxbuf` is the first `rxlen` bytes.
pub record PubConn : Type 0 where
  pub sock : ℤ
  pub node_name : List ℕ
  pub rxbuf : List ℕ
  pub active : Bool
  pub sub_slot : ℤ

-- A call of a callback, with its two arguments.
pub record Call (C : Type 0) : Type 0 where
  pub cb : C
  pub topic : List ℕ
  pub payload : List ℕ

-- `p_state`, `p_type`, `p_key` and `p_value`.
pub record Fields : Type 0 where
  pub state_field : Option (List ℕ)
  pub type_field : Option (List ℕ)
  pub key_field : Option (List ℕ)
  pub value_field : Option (List ℕ)

abbrev pub no_fields : Fields
no_fields = record { state_field = none; type_field = none; key_field = none; value_field = none }

-- The chain of `strncmp` on one token.
unfoldable pub set_field : List ℕ → Fields → Fields
set_field t f = elim (after_prefix (codes "state=") t) [
  | some v ↦ record f { state_field = some v }
  | none ↦ elim (after_prefix (codes "type=") t) [
    | some v ↦ record f { type_field = some v }
    | none ↦ elim (after_prefix (codes "key=") t) [
      | some v ↦ record f { key_field = some v }
      | none ↦ elim (after_prefix (codes "value=") t) [
        | some v ↦ record f { value_field = some v }
        | none ↦ f
      ]
    ]
  ]
]

-- The loop over the tokens, with a bound on its rounds.
unfoldable pub field_loop : ℕ → List ℕ → Fields → Fields
field_loop zero text f = f
field_loop (suc rounds) text f = elim (strtok blank text) [
  | none ↦ f
  | some (t, rest) ↦ field_loop rounds rest (set_field t f)
]

-- `filter[0] && (!p || strcmp(p, filter) != 0)`.
unfoldable pub is_refused : List ℕ → Option (List ℕ) → Bool
is_refused [] p = false
is_refused (b ∷ bs) none = true
is_refused (b ∷ bs) (some t) = not (same_text t (b ∷ bs))

abbrev pub is_empty : List ℕ → Bool
is_empty [] = true
is_empty (b ∷ bs) = false

abbrev pub value_or_empty : Option (List ℕ) → List ℕ
value_or_empty none = []
value_or_empty (some v) = v

module _ {C : Type 0} where
  -- `ctx_handle_line` past the test of the topic, for a slot with a callback.
  unfoldable pub filter_data : SubSlot C → C → List ℕ → List ℕ → Option (Call C)
  filter_data slot cb topic payload =
      let text = take (line_size - 1) payload in
      let f = field_loop (suc (length text)) text no_fields in
      if is_empty slot.filter_state && is_empty slot.filter_type && is_empty slot.filter_key
      then some (record { cb = cb; topic = topic; payload = payload })
      else if is_refused slot.filter_state f.state_field
          || is_refused slot.filter_type f.type_field
          || is_refused slot.filter_key f.key_field
      then none
      else some (record {
        cb = cb;
        topic = topic;
        payload = if is_empty slot.filter_key then payload else value_or_empty f.value_field;
      })

  -- `ctx_handle_line` from the test of the slot on. A slot at or above `sub_slot_count` is none.
  unfoldable pub dispatch : List (SubSlot C) → ℤ → List ℕ → List ℕ → Option (Call C)
  dispatch slots (negsuc n) topic payload = none
  dispatch slots (pos s) topic payload = elim (get_elem? slots s) [
    | none ↦ none
    | some slot ↦ elim slot.cb [
      | none ↦ none
      | some cb ↦
          if not slot.used || not (same_text topic slot.topic)
          then none
          else filter_data slot cb topic payload
    ]
  ]

  -- `ctx_handle_line`: the call that it makes, if any.
  unfoldable pub ctx_handle_line : List (SubSlot C) → ℤ → List ℕ → Option (Call C)
  ctx_handle_line slots sub_slot line = elim (strtok blank_or_end (c_string line)) [
    | none ↦ none
    | some (cmd, after_cmd) ↦ elim (strtok blank_or_end after_cmd) [
      | none ↦ none
      | some (topic, after_topic) ↦ elim (strtok line_end after_topic) [
        | none ↦ none
        | some (payload, _) ↦
            if not (same_text cmd (codes "MSG"))
            then none
            else dispatch slots sub_slot topic payload
      ]
    ]
  ]

-- The loop over a receive buffer: the lines that it passes on, cut to fit `line`, and the bytes
-- behind the last of them. `start` holds the bytes from `start` on that were passed already.
unfoldable pub cut_lines : List ℕ → List ℕ → List (List ℕ) × List ℕ
cut_lines start [] = ([], start)
cut_lines start (b ∷ bs) = elim (b == newline) [
  | true ↦
      let (lines, rest) = cut_lines [] bs in
      (take (line_size - 1) (start ++ (b ∷ [])) ∷ lines, rest)
  | false ↦ cut_lines (start ++ (b ∷ [])) bs
]

abbrev pub calls_of : {C : Type 0} → List (Option (Call C)) → List (Call C)
calls_of [] = []
calls_of (none ∷ rest) = calls_of rest
calls_of (some call ∷ rest) = call ∷ calls_of rest

-- The bytes that stay in the buffer: none, if it is full without a newline.
abbrev pub keep_rest : List ℕ → List ℕ
keep_rest rest = if leb (cm_rx_buf - 1) (length rest) then [] else rest

module _ {C : Type 0} where
  -- The body of the event loop of `cmos_sub_spin_ctx` when `recv` has brought bytes: the connection
  -- afterwards, and the calls of callbacks in order.
  unfoldable pub conn_receive : List (SubSlot C) → PubConn → List ℕ → PubConn × List (Call C)
  conn_receive slots c bytes =
      let (lines, rest) = cut_lines [] (c.rxbuf ++ bytes) in
      (record c { rxbuf = keep_rest rest }, calls_of (map (ctx_handle_line slots c.sub_slot) lines))
