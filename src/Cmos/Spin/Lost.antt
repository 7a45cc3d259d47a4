-- ===== src/Cmos/Spin/Lost.antt =====
-- The rounds of a subscriber that has lost its master.
use loop_charger_inverter.Prelude.{
  ℕ, zero, suc, ◌+◌, ◌≡◌, ◌≢◌, refl, Bool, true, false, not, ◌&&◌, ◌||◌, List, [], ◌∷◌, arith,
  length, get_or, set, leb, ◌==◌, Bool-cases, inl, inr,
}
use loop_charger_inverter.Prelude.Int.{ℤ, pos, is_neg}
use loop_charger_inverter.Cmos.Pub.{not_positive}
use loop_charger_inverter.Cmos.Sub.{SubSlot, PubConn, conn_receive}
use loop_charger_inverter.Cmos.Conns.{
  cm_max_pub_conn, no_conn, same_int, SubCtx, SubCalls, active_count, has_conn, ctx_close_conn,
}
use loop_charger_inverter.Cmos.Spin.{
  ask_master, ctx_lookup_slot, lookup_missing, take_event, take_events, spin_round,
}

-- The master is not connected, and the slot `s` has no connection.
abbrev pub IsLost : {C : Type 0} → ℕ → SubCtx C → Type 0
IsLost s ctx = (is_neg ctx.master_sock ≡ true) × (has_conn ctx.pub_conns s ≡ false)

has_conn-get_or :
    (conns : List PubConn) (s i : ℕ)
    → has_conn conns s ≡ false
    → ((get_or conns i no_conn).active && same_int (get_or conns i no_conn).sub_slot (pos s))
      ≡ false
unfolding has_conn
has_conn-get_or [] s i h = refl
has_conn-get_or (c ∷ conns) s zero h = ground arith
has_conn-get_or (c ∷ conns) s (suc i) h = has_conn-get_or conns s i (ground arith)

has_conn-set :
    (conns : List PubConn) (s i : ℕ) (c : PubConn)
    → has_conn conns s ≡ false
    → (c.active && same_int c.sub_slot (pos s)) ≡ false
    → has_conn (set conns i c) s ≡ false
unfolding has_conn
has_conn-set [] s i c h e = refl
has_conn-set (d ∷ conns) s zero c h e = ground arith
has_conn-set (d ∷ conns) s (suc i) c h e = ground (arith, has_conn-set conns s i c)

-- `send` on a descriptor that is not open fails.
abbrev pub RefusesClosed : {W : Type 0} → SubCalls W → Type 0
RefusesClosed {W} calls =
    (w : W) (fd : ℤ) (line : List ℕ)
    → is_neg fd ≡ true
    → not_positive (calls.send w fd line).1 ≡ true

module _ {C W : Type 0} (calls : SubCalls W) (refuses : RefusesClosed calls) (s : ℕ) where
  ctx_lookup_slot-IsLost :
      (w : W) (ctx : SubCtx C) (t : ℕ) (topic : List ℕ)
      → IsLost s ctx
      → IsLost s (ctx_lookup_slot calls w ctx t topic).1
  unfolding ctx_lookup_slot ask_master
  ctx_lookup_slot-IsLost w ctx t topic h = rw (refuses w ctx.master_sock _ h.0) (refl, h.1)

  lookup_missing-IsLost :
      (w : W) (ctx : SubCtx C) (slots : List (SubSlot C)) (t : ℕ)
      → IsLost s ctx
      → IsLost s (lookup_missing calls w ctx slots t).1
  unfolding lookup_missing
  lookup_missing-IsLost w ctx [] t h = h
  lookup_missing-IsLost w ctx (slot ∷ slots) t h =
      elim (Bool-cases (slot.used && not (has_conn ctx.pub_conns t))) [
        | inl e ↦
            let (w', ctx', _) = ctx_lookup_slot calls w ctx t slot.topic in
            rw (lookup_missing, e)
              (lookup_missing-IsLost w' ctx' slots (t + 1)
                (ctx_lookup_slot-IsLost w ctx t slot.topic h))
        | inr e ↦ rw (lookup_missing, e) (lookup_missing-IsLost w ctx slots (t + 1) h)
      ]

  take_event-IsLost :
      (w : W) (ctx : SubCtx C) (i : ℕ) (bytes : List ℕ)
      → IsLost s ctx
      → IsLost s (take_event calls w ctx i bytes).1
  unfolding take_event ctx_close_conn conn_receive
  take_event-IsLost w ctx i bytes h =
      let c = get_or ctx.pub_conns i no_conn in
      elim (Bool-cases (leb cm_max_pub_conn i || not c.active || is_neg c.sock)) [
        | inl skipped ↦ rw skipped h
        | inr real ↦ elim (Bool-cases (length bytes == 0)) [
          | inl gone ↦
              let inside : leb cm_max_pub_conn i ≡ false = ground arith in
              rw real (rw gone (rw inside (h.0, has_conn-set ctx.pub_conns s i no_conn h.1 refl)))
          | inr some_bytes ↦ rw real (
              rw some_bytes
                (h.0, has_conn-set ctx.pub_conns s i _ h.1 (has_conn-get_or ctx.pub_conns s i h.1)))
        ]
      ]

  take_events-IsLost :
      (w : W) (ctx : SubCtx C) (events : List (ℕ × List ℕ))
      → IsLost s ctx
      → IsLost s (take_events calls w ctx events).1
  unfolding take_events
  take_events-IsLost w ctx [] h = h
  take_events-IsLost w ctx (e ∷ events) h =
      let (w', ctx', _) = take_event calls w ctx e.0 e.1 in
      take_events-IsLost w' ctx' events (take_event-IsLost w ctx e.0 e.1 h)

  -- Where `send` on a closed descriptor fails: while some publisher is connected and the master is
  -- not, a round of `cmos_sub_spin_ctx` leaves the master unconnected, and a slot without a
  -- connection still has none after it.
  pub spin_round-IsLost :
      (w : W) (ctx : SubCtx C) (due : Bool) (events : List (ℕ × List ℕ))
      → active_count ctx.pub_conns ≢ 0
      → IsLost s ctx
      → IsLost s (spin_round calls w ctx due events).1
  unfolding spin_round
  spin_round-IsLost w ctx due events up h =
      let busy : (active_count ctx.pub_conns == 0) ≡ false = ground arith in
      elim (Bool-cases due) [
        | inl now ↦ rw busy (
            rw now (
              rw busy
                (take_events-IsLost _ _ events (lookup_missing-IsLost w ctx ctx.sub_slots 0 h))))
        | inr later ↦ rw busy (rw later (rw busy (take_events-IsLost w ctx events h)))
      ]
