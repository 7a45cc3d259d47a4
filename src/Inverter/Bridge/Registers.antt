-- ===== src/Inverter/Bridge/Registers.antt =====
-- The messages that the bridge publishes of the registers in the pool.
use loop_charger_inverter.Prelude.{
  ℕ, ◌^◌, ◌≤◌, ◌<◌, ◌≡◌, refl, leb, none, some, List, [], ◌∷◌, ◌++◌, All, All-map, arith, length,
  length-append, Bool-cases, inl, inr,
}
use loop_charger_inverter.Cmos.Text.{codes, space}
use loop_charger_inverter.Cmos.Text.Decimal.{decimal, decimal-IsDigit, length-decimal}
use loop_charger_inverter.Cmos.Pub.{Publisher, PubCalls, cmos_publish, cmos_pub_poll}
use loop_charger_inverter.Cmos.Pub.Message.{compose_data-fields}
use loop_charger_inverter.Cmos.Sub.Messages.{IsClean}
use loop_charger_inverter.Cmos.Link.{Message, IsPlain, data_short}
use loop_charger_inverter.DeviceMap.{RegisterPool, internal_pool_size, pool_read_register}
use loop_charger_inverter.Inverter.Thread.{ConnectionState, disconnected, connected, unknown}
use loop_charger_inverter.Inverter.Bridge.{
  bridge_pub_topic, published_registers, state_text, publish_pool_register, publish_registers,
  publish_units, pub_poll_turn,
}

-- What is published of a register.
abbrev pub register_message : ConnectionState → List ℕ → ℕ → Message
register_message state key val = record {
  state = some (state_text state);
  type = none;
  key = key;
  value = some (decimal val);
}

decimal-IsClean : (n : ℕ) → IsClean (decimal n)
decimal-IsClean n = All-map (decimal n) (λ b d. ground arith) (decimal-IsDigit n)

-- A key that the bridge may publish with.
abbrev pub IsKey : List ℕ → Type 0
IsKey key = IsClean key × (length key ≤ 100)

state_text-IsClean :
    (state : ConnectionState) → IsClean (state_text state) × (length (state_text state) ≤ 10)
state_text-IsClean connected = (ground arith, omega arith)
state_text-IsClean disconnected = (ground arith, omega arith)
state_text-IsClean unknown = (ground arith, omega arith)

-- For every state, every clean key of at most 100 bytes and every 16-bit value, the message of a
-- register is one that a subscriber receives whole.
pub register_message-IsPlain :
    (state : ConnectionState) (key : List ℕ) (val : ℕ)
    → IsKey key
    → val < 2 ^ 16
    → IsPlain bridge_pub_topic (register_message state key val)
register_message-IsPlain state key val h small = record {
  state_clean = (state_text-IsClean state).0;
  type_clean = tt;
  key_clean = h.0;
  value_clean = decimal-IsClean val;
  fits = omega (
    arith,
    h.1,
    (state_text-IsClean state).1,
    length-append (codes "state=" ++ state_text state)
        (space ∷ ((codes "key=" ++ key) ++ (space ∷ (codes "value=" ++ decimal val)))),
    length-append (state_text state)
        (space ∷ ((codes "key=" ++ key) ++ (space ∷ (codes "value=" ++ decimal val)))),
    length-append key (space ∷ (codes "value=" ++ decimal val)),
    length-decimal val small,
  );
}

module _ {W : Type 0} (calls : PubCalls W) (pool : RegisterPool)
    (words : (a : ℕ) → pool a < 2 ^ 16) where
  publish_pool_register-some :
      (w : W) (p : Publisher) (state : ConnectionState) (key : List ℕ) (pool_address : ℕ)
      → IsKey key
      → (w' : W) × (p' : Publisher) × (publish_pool_register calls w p pool state none key
            pool_address
          ≡ some (w', p'))
  unfolding publish_pool_register pool_read_register cmos_publish
  publish_pool_register-some w p state key pool_address h =
      elim (Bool-cases (leb internal_pool_size pool_address)) [
        | inl outside ↦ rw (publish_pool_register, pool_read_register, outside) (w, p, refl)
        | inr inside ↦
            let plain =
              register_message-IsPlain state key (pool pool_address) h (words pool_address) in
            let composes =
              compose_data-fields (some (state_text state)) none key
                (some (decimal (pool pool_address)))
                (omega (
                  arith,
                  data_short bridge_pub_topic (register_message state key (pool pool_address))
                      plain,
                )) in
            rw (publish_pool_register, pool_read_register, inside)
              (rw (cmos_publish, composes) (_, _, refl))
      ]

  publish_registers-some :
      (registers : List (List ℕ × ℕ)) (w : W) (p : Publisher) (state : ConnectionState)
      → All (λ r. IsKey r.0) registers
      → (w' : W) × (p' : Publisher) × (publish_registers calls w p pool state registers
          ≡ some (w', p'))
  unfolding publish_registers
  publish_registers-some [] w p state h = (w, p, refl)
  publish_registers-some (r ∷ registers) w p state h =
      let (w1, p1, e) = publish_pool_register-some w p state r.0 r.1 h.0 in
      rw (publish_registers, e) (publish_registers-some registers w1 p1 state h.1)

  publish_units-some :
      (states : List ConnectionState) (w : W) (p : Publisher)
      → (w' : W) × (p' : Publisher) × (publish_units calls w p pool states ≡ some (w', p'))
  unfolding publish_units
  publish_units-some [] w p = (w, p, refl)
  publish_units-some (state ∷ states) w p =
      let (w1, p1, e) = publish_registers-some published_registers w p state (ground arith) in
      rw (publish_units, e) (publish_units-some states w1 p1)

  -- When the pool holds 16-bit values, every turn of the publisher's loop is defined: no message that
  -- it composes runs out of its buffer, for any number of units in any states.
  pub pub_poll_turn-some :
      (w : W) (p : Publisher) (states : List ConnectionState)
      → (w' : W) × (p' : Publisher) × (pub_poll_turn calls w p pool states ≡ some (w', p'))
  unfolding pub_poll_turn
  pub_poll_turn-some w p states =
      publish_units-some states (cmos_pub_poll calls w p).0 (cmos_pub_poll calls w p).1
