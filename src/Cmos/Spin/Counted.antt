-- ===== src/Cmos/Spin/Counted.antt =====
-- The table of connections over the rounds of `cmos_sub_spin_ctx`.
use loop_charger_inverter.Prelude.{
  ℕ, ◌≤◌, ◌≡◌, refl, Bool, not, ◌||◌, Option, none, some, List, [], ◌∷◌, ◌++◌, arith, length,
  get_or, leb, ◌==◌, if◌then◌else◌, Bool-cases, inl, inr, if-both, subst,
}
use loop_charger_inverter.Prelude.Int.{ℤ, is_neg}
use loop_charger_inverter.Cmos.Text.{codes, newline}
use loop_charger_inverter.Cmos.Sub.{Call, conn_receive}
use loop_charger_inverter.Cmos.Conns.{
  cm_max_pub_conn, cm_max_sub_slots, no_conn, SubCtx, SubCalls, active_count, ctx_close_conn,
  ctx_add_pub,
}
use loop_charger_inverter.Cmos.Conns.Table.{
  init_conns-IsTable, actives-le, IsTable, active_count-actives, closed-IsTable, received-IsTable,
  ctx_add_pub-IsTable,
}
use loop_charger_inverter.Cmos.Spin.{
  ask_master, ctx_reconnect_all_pubs, take_event, take_events, spin_round, cmos_sub_add,
  cmos_sub_create, new_ctx, SubStep, subscribe, round, sub_run,
}
use loop_charger_inverter.Cmos.Spin.Keeps.{
  ctx_lookup_slot-Keeps, ctx_reconnect_all_pubs-Keeps, lookup_missing-Keeps,
}

abbrev IsCounted : {C : Type 0} → SubCtx C → Type 0
IsCounted ctx = IsTable ctx.pub_conns ctx.pub_count

abbrev IfMade : {C : Type 0} → Option (SubCtx C) → Type 0
IfMade none = Unit
IfMade (some ctx) = IsCounted ctx

made_counted :
    (C : Type 0) {W : Type 0} (calls : SubCalls W) (w : W) (ip : List ℕ) (port : ℕ)
    (node_name : List ℕ)
    → IfMade (cmos_sub_create {C = C} calls w ip port node_name).1
unfolding cmos_sub_create
made_counted C {W} calls w ip port node_name =
    let (w1, epfd) = calls.epoll_create w in
    let (w2, master) = calls.connect_tcp w1 ip port in
    let (w3, refused) =
      ask_master calls w2 (new_ctx {C = C} ip port node_name master epfd)
        (codes "NODE " ++ (node_name ++ (newline ∷ []))) in
    let P : W × Option (SubCtx C) → Type 0 = λ r. IfMade r.1 in
    if-both P (is_neg epfd) tt (
      if-both P (is_neg master) tt (
        if-both P refused {x = (calls.close w3 master, none)}
          {y = (w3, some (new_ctx ip port node_name master epfd))} tt init_conns-IsTable))

module _ {C W : Type 0} (calls : SubCalls W) where
  adds :
      (w : W) (ctx : SubCtx C) (s : ℕ) (node ip : List ℕ) (port : ℕ)
      → IsCounted ctx
      → IsCounted (ctx_add_pub calls w ctx s node ip port).1
  adds w ctx s node ip port t = ctx_add_pub-IsTable calls w ctx s node ip port t

  ctx_close_conn-IsCounted :
      (w : W) (ctx : SubCtx C) (i : ℕ) → IsCounted ctx → IsCounted (ctx_close_conn calls w ctx i).1
  unfolding ctx_close_conn
  ctx_close_conn-IsCounted w ctx i t = elim (Bool-cases (leb cm_max_pub_conn i)) [
    | inl outside ↦ rw outside t
    | inr inside ↦ rw inside (closed-IsTable ctx.pub_conns ctx.pub_count i (ground arith) t)
  ]

  take_event-IsCounted :
      (w : W) (ctx : SubCtx C) (i : ℕ) (bytes : List ℕ)
      → IsCounted ctx
      → IsCounted (take_event calls w ctx i bytes).1
  unfolding take_event conn_receive
  take_event-IsCounted w ctx i bytes t =
      let c = get_or ctx.pub_conns i no_conn in
      elim (Bool-cases (leb cm_max_pub_conn i || not c.active || is_neg c.sock)) [
        | inl skipped ↦ rw skipped t
        | inr real ↦ elim (Bool-cases (length bytes == 0)) [
          | inl gone ↦ rw real (rw gone (ctx_close_conn-IsCounted w ctx i t))
          | inr some_bytes ↦ rw real (
              rw some_bytes (
                received-IsTable ctx.pub_conns ctx.pub_count i _ (ground arith) t refl
                  (ground arith)))
        ]
      ]

  take_events-IsCounted :
      (w : W) (ctx : SubCtx C) (events : List (ℕ × List ℕ))
      → IsCounted ctx
      → IsCounted (take_events calls w ctx events).1
  unfolding take_events
  take_events-IsCounted w ctx [] t = t
  take_events-IsCounted w ctx (e ∷ events) t =
      let (w', ctx', _) = take_event calls w ctx e.0 e.1 in
      take_events-IsCounted w' ctx' events (take_event-IsCounted w ctx e.0 e.1 t)

  spin_round-IsCounted :
      (w : W) (ctx : SubCtx C) (due : Bool) (events : List (ℕ × List ℕ))
      → IsCounted ctx
      → IsCounted (spin_round calls w ctx due events).1
  unfolding spin_round
  spin_round-IsCounted w ctx due events t =
      let none_up = active_count ctx.pub_conns == 0 in
      let ctx1 = (if none_up then ctx_reconnect_all_pubs calls w ctx else (w, ctx)).1 in
      let w1 = (if none_up then ctx_reconnect_all_pubs calls w ctx else (w, ctx)).0 in
      let t1 =
        if-both (λ (r : W × SubCtx C). IsCounted r.1) none_up
          (ctx_reconnect_all_pubs-Keeps calls IsCounted adds (λ ctx sock t. t) w ctx t) t in
      let t3 =
        if-both (λ (r : W × SubCtx C). IsCounted r.1) due
          (lookup_missing-Keeps calls IsCounted adds (λ ctx sock t. t) w1 ctx1 ctx1.sub_slots 0 t1)
          t1 in
      if-both (λ (r : W × SubCtx C × List (Call C)). IsCounted r.1)
        (active_count ctx1.pub_conns == 0)
        (ctx_reconnect_all_pubs-Keeps calls IsCounted adds (λ ctx sock t. t) w1 ctx1 t1)
        (take_events-IsCounted _ _ events t3)

  cmos_sub_add-IsCounted :
      (w : W) (ctx : SubCtx C) (topic : List ℕ) (state type key : Option (List ℕ)) (cb : Option C)
      → IsCounted ctx
      → IsCounted (cmos_sub_add calls w ctx topic state type key cb).1
  unfolding cmos_sub_add
  cmos_sub_add-IsCounted w ctx topic state type key cb t =
      if-both (λ (r : W × SubCtx C × ℤ). IsCounted r.1)
        (leb cm_max_sub_slots (length ctx.sub_slots)) t
        (ctx_lookup_slot-Keeps calls IsCounted adds (λ ctx sock t. t) _ _ _ _ t)

  sub_run-IsCounted :
      (w : W) (ctx : SubCtx C) (steps : List (SubStep C))
      → IsCounted ctx
      → IsCounted (sub_run calls w ctx steps).1
  unfolding sub_run
  sub_run-IsCounted w ctx [] t = t
  sub_run-IsCounted w ctx (subscribe topic state type key cb ∷ steps) t =
      let (w', ctx', _) = cmos_sub_add calls w ctx topic state type key cb in
      sub_run-IsCounted w' ctx' steps (cmos_sub_add-IsCounted w ctx topic state type key cb t)
  sub_run-IsCounted w ctx (round due events ∷ steps) t =
      let (w', ctx', _) = spin_round calls w ctx due events in
      sub_run-IsCounted w' ctx' steps (spin_round-IsCounted w ctx due events t)

  create-IsCounted :
      (w w' : W) (ip : List ℕ) (port : ℕ) (node_name : List ℕ) (ctx : SubCtx C)
      → cmos_sub_create calls w ip port node_name ≡ (w', some ctx)
      → IsCounted ctx
  create-IsCounted w w' ip port node_name ctx e =
      subst (λ (r : W × Option (SubCtx C)). IfMade r.1) e (made_counted C calls w ip port node_name)

  -- A subscriber that `cmos_sub_create` has made keeps its books right through all subscriptions and
  -- rounds, whatever its peers send and whichever calls of the system fail: `pub_count` is the
  -- number of connections that `ctx_active_count` counts, and at most 512.
  pub sub_run-counted :
      (w w' : W) (ip : List ℕ) (port : ℕ) (node_name : List ℕ) (ctx : SubCtx C)
      (steps : List (SubStep C))
      → cmos_sub_create calls w ip port node_name ≡ (w', some ctx)
      → let (_, ctx', _) = sub_run calls w' ctx steps in
        (ctx'.pub_count ≡ active_count ctx'.pub_conns) × (ctx'.pub_count ≤ cm_max_pub_conn)
  sub_run-counted w w' ip port node_name ctx steps e =
      let t = sub_run-IsCounted w' ctx steps (create-IsCounted w w' ip port node_name ctx e) in
      let conns = (sub_run calls w' ctx steps).1.pub_conns in
      (
        omega (arith, t.counted, active_count-actives conns t.sockets),
        omega (arith, t.counted, t.capacity, actives-le conns),
      )
