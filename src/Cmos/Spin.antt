-- ===== src/Cmos/Spin.antt =====
-- The calls of lib/cmos/cmos_sub.c that talk to the master, and the rounds of `cmos_sub_spin_ctx`.
-- What a round is given is whether the two seconds are over, and the events of `epoll_wait`: the
-- index of a connection with the bytes that `recv` then brings, none if it fails.
pub mod Keeps
pub mod Counted
pub mod Lost
use loop_charger_inverter.Prelude.{
  ℕ, zero, suc, ◌+◌, ◌-◌, Bool, true, false, not, ◌&&◌, ◌||◌, Option, none, some, List, [], ◌∷◌,
  ◌++◌, length, get_elem?, get_or, set, take, ltb, leb, ◌==◌, if◌then◌else◌,
}
use loop_charger_inverter.Prelude.Int.{ℤ, pos, negsuc, is_neg}
use loop_charger_inverter.Cmos.Text.{codes, newline}
use loop_charger_inverter.Cmos.Pub.{request_size, not_positive}
use loop_charger_inverter.Cmos.Sub.{
  SubSlot, PubConn, Call, cut_lines, keep_rest, conn_receive, value_or_empty,
}
use loop_charger_inverter.Cmos.Conns.{
  cm_max_pub_conn, cm_max_sub_slots, name_size, filter_size, no_conn, init_conns, SubCtx, SubCalls,
  active_count, has_conn, ctx_close_conn, lookup_lines,
}

-- A slot as `cmos_sub_add` fills it.
abbrev pub filled_slot :
    {C : Type 0}
    → List ℕ
    → Option (List ℕ)
    → Option (List ℕ)
    → Option (List ℕ)
    → Option C
    → SubSlot C
filled_slot topic state type key cb = record {
  topic = take (name_size - 1) topic;
  filter_state = take (filter_size - 1) (value_or_empty state);
  filter_type = take (filter_size - 1) (value_or_empty type);
  filter_key = take (filter_size - 1) (value_or_empty key);
  cb = cb;
  used = true;
}

-- A context once the master is connected.
abbrev pub new_ctx : {C : Type 0} → List ℕ → ℕ → List ℕ → ℤ → ℤ → SubCtx C
new_ctx ip port node_name master epfd = record {
  master_sock = master;
  master_ip = take (name_size - 1) ip;
  master_port = port;
  node_name = take (name_size - 1) node_name;
  sub_slots = [];
  pub_conns = init_conns;
  pub_count = 0;
  epfd = epfd;
}

module _ {C W : Type 0} (calls : SubCalls W) where
  -- `close(ctx->master_sock); ctx->master_sock = -1; return -1;`
  abbrev pub drop_master : W → SubCtx C → W × SubCtx C × ℤ
  drop_master w ctx =
      (calls.close w ctx.master_sock, record ctx { master_sock = negsuc 0 }, negsuc 0)

  -- `send_line(ctx->master_sock, line) <= 0` for a line that was cut to fit `buf`.
  unfoldable pub ask_master : W → SubCtx C → List ℕ → W × Bool
  ask_master w ctx line =
      let (w', n) = calls.send w ctx.master_sock (take (request_size - 1) line) in
      (w', not_positive n)

  -- The receive loop of `ctx_lookup_slot`, with the bytes that its buffer holds.
  unfoldable pub lookup_loop : W → SubCtx C → ℕ → Bool → List ℕ → List (List ℕ) → W × SubCtx C × ℤ
  lookup_loop w ctx s found rx [] = drop_master w ctx
  lookup_loop w ctx s found rx ([] ∷ pieces) = drop_master w ctx
  lookup_loop w ctx s found rx ((b ∷ bs) ∷ pieces) =
      let (lines, rest) = cut_lines [] (rx ++ (b ∷ bs)) in
      let (w', ctx', found', ended) = lookup_lines calls w ctx s found lines in
      elim ended [
        | some code ↦ (w', ctx', code)
        | none ↦ lookup_loop w' ctx' s found' (keep_rest rest) pieces
      ]

  -- `ctx_lookup_slot` for the slot `s` with this topic.
  unfoldable pub ctx_lookup_slot : W → SubCtx C → ℕ → List ℕ → W × SubCtx C × ℤ
  unfolding ask_master
  ctx_lookup_slot w ctx s topic =
      let (asked, refused) =
        ask_master w ctx (codes "LOOKUP_TOPIC " ++ (topic ++ (newline ∷ []))) in
      let (answered, pieces) = calls.answer asked ctx.master_sock in
      if refused then drop_master asked ctx else lookup_loop answered ctx s false [] pieces

  -- The loop that registers the topics again: whether a `send` failed.
  unfoldable pub register_topics : W → SubCtx C → List (SubSlot C) → W × Bool
  unfolding ask_master
  register_topics w ctx [] = (w, false)
  register_topics w ctx (slot ∷ slots) =
      let (asked, refused) =
        ask_master w ctx (codes "REGISTER_SUB " ++ (slot.topic ++ (newline ∷ []))) in
      let skipped = register_topics w ctx slots in
      let rest = register_topics asked ctx slots in
      if not slot.used then skipped else if refused then (asked, true) else rest

  unfoldable pub ctx_reconnect_master : W → SubCtx C → W × SubCtx C × ℤ
  unfolding ask_master register_topics
  ctx_reconnect_master w ctx =
      let closed = if is_neg ctx.master_sock then w else calls.close w ctx.master_sock in
      let (w1, master) = calls.connect_tcp closed ctx.master_ip ctx.master_port in
      let ctx1 : SubCtx C = record ctx { master_sock = master } in
      let (w2, refused) = ask_master w1 ctx1 (codes "NODE " ++ (ctx.node_name ++ (newline ∷ []))) in
      let (w3, failed) = register_topics w2 ctx1 ctx.sub_slots in
      if is_neg master
      then (w1, ctx1, negsuc 0)
      else if refused
      then drop_master w2 ctx1
      else if failed
      then drop_master w3 ctx1
      else (w3, ctx1, pos 0)

  -- The loop of `ctx_reconnect_all_pubs` over the slots from `s` on.
  unfoldable pub lookup_all : W → SubCtx C → List (SubSlot C) → ℕ → W × SubCtx C
  lookup_all w ctx [] s = (w, ctx)
  lookup_all w ctx (slot ∷ slots) s =
      let (w', ctx', _) = ctx_lookup_slot w ctx s slot.topic in
      elim slot.used [
        | true ↦ lookup_all w' ctx' slots (s + 1)
        | false ↦ lookup_all w ctx slots (s + 1)
      ]

  unfoldable pub ctx_reconnect_all_pubs : W → SubCtx C → W × SubCtx C
  ctx_reconnect_all_pubs w ctx =
      let (w', ctx', code) = ctx_reconnect_master w ctx in
      if not (is_neg ctx.master_sock)
      then lookup_all w ctx ctx.sub_slots 0
      else if is_neg code
      then (w', ctx')
      else lookup_all w' ctx' ctx'.sub_slots 0

  -- The loop of `cmos_sub_spin_ctx` that looks up the slots without a connection.
  unfoldable pub lookup_missing : W → SubCtx C → List (SubSlot C) → ℕ → W × SubCtx C
  lookup_missing w ctx [] s = (w, ctx)
  lookup_missing w ctx (slot ∷ slots) s =
      let (w', ctx', _) = ctx_lookup_slot w ctx s slot.topic in
      elim (slot.used && not (has_conn ctx.pub_conns s)) [
        | true ↦ lookup_missing w' ctx' slots (s + 1)
        | false ↦ lookup_missing w ctx slots (s + 1)
      ]

  -- One event.
  unfoldable pub take_event : W → SubCtx C → ℕ → List ℕ → W × SubCtx C × List (Call C)
  take_event w ctx i bytes =
      let c = get_or ctx.pub_conns i no_conn in
      let (closed, without) = ctx_close_conn calls w ctx i in
      let (c', made) = conn_receive ctx.sub_slots c bytes in
      if leb cm_max_pub_conn i || not c.active || is_neg c.sock
      then (w, ctx, [])
      else if length bytes == 0
      then (closed, without, [])
      else (w, record ctx { pub_conns = set ctx.pub_conns i c' }, made)

  unfoldable pub take_events : W → SubCtx C → List (ℕ × List ℕ) → W × SubCtx C × List (Call C)
  take_events w ctx [] = (w, ctx, [])
  take_events w ctx (e ∷ events) =
      let (w1, ctx1, made) = take_event w ctx e.0 e.1 in
      let (w2, ctx2, more) = take_events w1 ctx1 events in (w2, ctx2, made ++ more)

  -- One round of `cmos_sub_spin_ctx`.
  unfoldable pub spin_round : W → SubCtx C → Bool → List (ℕ × List ℕ) → W × SubCtx C × List (Call C)
  spin_round w ctx due events =
      let (w1, ctx1) =
        if active_count ctx.pub_conns == 0 then ctx_reconnect_all_pubs w ctx else (w, ctx) in
      let (w2, ctx2) = ctx_reconnect_all_pubs w1 ctx1 in
      let (w3, ctx3) = if due then lookup_missing w1 ctx1 ctx1.sub_slots 0 else (w1, ctx1) in
      let taken = take_events w3 ctx3 events in
      if active_count ctx1.pub_conns == 0 then (w2, ctx2, []) else taken

  -- `cmos_sub_create`: `none` for NULL; what was opened before stays as it is in `W`.
  unfoldable pub cmos_sub_create : W → List ℕ → ℕ → List ℕ → W × Option (SubCtx C)
  unfolding ask_master
  cmos_sub_create w ip port node_name =
      let (w1, epfd) = calls.epoll_create w in
      let (w2, master) = calls.connect_tcp w1 ip port in
      let ctx : SubCtx C = new_ctx ip port node_name master epfd in
      let (w3, refused) = ask_master w2 ctx (codes "NODE " ++ (node_name ++ (newline ∷ []))) in
      if is_neg epfd
      then (w1, none)
      else if is_neg master
      then (w2, none)
      else if refused
      then (calls.close w3 master, none)
      else (w3, some ctx)

  -- `cmos_sub_add`; a null pointer is `none`, and the result is 0 or -1.
  unfoldable pub cmos_sub_add :
      W
      → SubCtx C
      → List ℕ
      → Option (List ℕ)
      → Option (List ℕ)
      → Option (List ℕ)
      → Option C
      → W × SubCtx C × ℤ
  unfolding ask_master
  cmos_sub_add w ctx topic state type key cb =
      let slot : SubSlot C = filled_slot topic state type key cb in
      let added : SubCtx C = record ctx { sub_slots = ctx.sub_slots ++ (slot ∷ []) } in
      let (asked, _) = ask_master w added (codes "REGISTER_SUB " ++ (topic ++ (newline ∷ []))) in
      let (w', ctx', _) = ctx_lookup_slot asked added (length ctx.sub_slots) slot.topic in
      if leb cm_max_sub_slots (length ctx.sub_slots) then (w, ctx, negsuc 0) else (w', ctx', pos 0)

  -- `ctx_close_all_conns`, with the entries left.
  unfoldable pub close_conns : ℕ → ℕ → W → SubCtx C → W × SubCtx C
  close_conns zero i w ctx = (w, ctx)
  close_conns (suc left) i w ctx =
      let (w', ctx') = ctx_close_conn calls w ctx i in close_conns left (i + 1) w' ctx'

  -- `cmos_sub_destroy`; a null pointer is `none`.
  unfoldable pub cmos_sub_destroy : W → Option (SubCtx C) → W
  cmos_sub_destroy w none = w
  cmos_sub_destroy w (some ctx) =
      let (w1, ctx1) = close_conns cm_max_pub_conn 0 w ctx in
      let w2 = if is_neg ctx1.master_sock then w1 else calls.close w1 ctx1.master_sock in
      if is_neg ctx1.epfd then w2 else calls.close w2 ctx1.epfd

-- What a subscriber does after `cmos_sub_create`: it adds a subscription, or makes a round.
pub data SubStep (C : Type 0) : Type 0 where
  subscribe : (topic : List ℕ) (state type key : Option (List ℕ)) (cb : Option C) → SubStep C
  round : (due : Bool) (events : List (ℕ × List ℕ)) → SubStep C

module _ {C W : Type 0} (calls : SubCalls W) where
  -- The steps in order, with the calls of callbacks that they make.
  unfoldable pub sub_run : W → SubCtx C → List (SubStep C) → W × SubCtx C × List (Call C)
  sub_run w ctx [] = (w, ctx, [])
  sub_run w ctx (subscribe topic state type key cb ∷ steps) =
      let (w', ctx', _) = cmos_sub_add calls w ctx topic state type key cb in sub_run w' ctx' steps
  sub_run w ctx (round due events ∷ steps) =
      let (w1, ctx1, made) = spin_round calls w ctx due events in
      let (w2, ctx2, more) = sub_run w1 ctx1 steps in (w2, ctx2, made ++ more)
