-- ===== src/Cmos/Conns.antt =====
-- The connections of lib/cmos/cmos_sub.c: the table of publishers, the lookup of a topic at the
-- master, and the loop that keeps the connections up. The system is a parameter, on a state of type
-- `W`. What the master answers to one lookup is the list of the pieces that `recv` brings; after the
-- last of them `recv` fails, as it does after 3 seconds of silence.
pub mod Table
use loop_charger_inverter.Prelude.{
  ℕ, zero, suc, ◌+◌, ◌-◌, Bool, true, false, not, ◌&&◌, ◌||◌, Option, none, some, List, [], ◌∷◌,
  ◌++◌, length, get_elem?, get_or, set, take, replicate, ltb, leb, ◌==◌, if◌then◌else◌,
}
use loop_charger_inverter.Prelude.Int.{ℤ, pos, negsuc, is_neg}
use loop_charger_inverter.Cmos.Text.{
  codes, newline, same_text, after_prefix, blank_or_end, strtok, c_string,
}
use loop_charger_inverter.Cmos.Pub.{not_positive}
use loop_charger_inverter.Cmos.Sub.{
  cm_rx_buf, line_size, SubSlot, PubConn, Call, cut_lines, keep_rest, conn_receive,
}

abbrev pub cm_max_pub_conn : ℕ
cm_max_pub_conn = 512

abbrev pub cm_max_sub_slots : ℕ
cm_max_sub_slots = 512

-- `sizeof` of the names and of the filters of a slot.
abbrev pub name_size : ℕ
name_size = 64

abbrev pub filter_size : ℕ
filter_size = 32

-- `struct cmos_sub_ctx`; `sub_slots` is the first `sub_slot_count` slots.
pub record SubCtx (C : Type 0) : Type 0 where
  pub master_sock : ℤ
  pub master_ip : List ℕ
  pub master_port : ℕ
  pub node_name : List ℕ
  pub sub_slots : List (SubSlot C)
  pub pub_conns : List PubConn
  pub pub_count : ℕ
  pub epfd : ℤ

-- `connect_tcp`, `send`, `close`, `epoll_create1`, `atoi`, and what the master's `recv` brings after
-- a request.
pub record SubCalls (W : Type 0) : Type 0 where
  pub connect_tcp : W → List ℕ → ℕ → W × ℤ
  pub send : W → ℤ → List ℕ → W × ℤ
  pub close : W → ℤ → W
  pub epoll_create : W → W × ℤ
  pub answer : W → ℤ → W × List (List ℕ)
  pub atoi : List ℕ → ℕ

-- An entry after `ctx_init_conns`.
abbrev pub no_conn : PubConn
no_conn = record {
  sock = negsuc 0;
  node_name = [];
  rxbuf = [];
  active = false;
  sub_slot = negsuc 0;
}

abbrev pub init_conns : List PubConn
init_conns = replicate cm_max_pub_conn no_conn

abbrev pub same_int : ℤ → ℤ → Bool
same_int (pos m) (pos n) = m == n
same_int (negsuc m) (negsuc n) = m == n
same_int _ _ = false

-- The loop of `ctx_find_conn`: the index, or `none` for -1.
unfoldable pub find_conn : List PubConn → List ℕ → ℕ → ℕ → Option ℕ
find_conn [] node slot i = none
find_conn (c ∷ conns) node slot i =
    let rest = find_conn conns node slot (i + 1) in
    if c.active && same_int c.sub_slot (pos slot) && same_text c.node_name node
    then some i
    else rest

-- The first entry that is not active.
unfoldable pub free_conn : List PubConn → ℕ → Option ℕ
free_conn [] i = none
free_conn (c ∷ conns) i =
    let rest = free_conn conns (i + 1) in if not c.active then some i else rest

-- The loop of `ctx_active_count`.
unfoldable pub active_count : List PubConn → ℕ
active_count [] = 0
active_count (c ∷ conns) =
    let n = active_count conns in if c.active && not (is_neg c.sock) then suc n else n

-- Whether a slot has an active connection.
unfoldable pub has_conn : List PubConn → ℕ → Bool
has_conn [] s = false
has_conn (c ∷ conns) s =
    let rest = has_conn conns s in if c.active && same_int c.sub_slot (pos s) then true else rest

-- `PUBINFO topic ip port node`: the last three words, if they are there.
unfoldable pub pub_info : List ℕ → Option (List ℕ × List ℕ × List ℕ)
pub_info line = elim (strtok blank_or_end line) [
  | none ↦ none
  | some (_, after_cmd) ↦ elim (strtok blank_or_end after_cmd) [
    | none ↦ none
    | some (_, after_topic) ↦ elim (strtok blank_or_end after_topic) [
      | none ↦ none
      | some (ip, after_ip) ↦ elim (strtok blank_or_end after_ip) [
        | none ↦ none
        | some (port, after_port) ↦ elim (strtok blank_or_end after_port) [
          | none ↦ none
          | some (node, _) ↦ some (ip, port, node)
        ]
      ]
    ]
  ]
]

module _ {C W : Type 0} (calls : SubCalls W) where
  -- `ctx_close_conn` for an index that is not negative; its `epoll_ctl` is left out, as `close` takes
  -- a descriptor out of an epoll set.
  unfoldable pub ctx_close_conn : W → SubCtx C → ℕ → W × SubCtx C
  ctx_close_conn w ctx idx =
      let c = get_or ctx.pub_conns idx no_conn in
      if leb cm_max_pub_conn idx then (w, ctx) else (
        if is_neg c.sock then w else calls.close w c.sock,
        record ctx {
          pub_conns = set ctx.pub_conns idx no_conn;
          pub_count = if c.active then ctx.pub_count - 1 else ctx.pub_count;
        },
      )

  -- `ctx_add_pub`, with pointers that are not null.
  unfoldable pub ctx_add_pub : W → SubCtx C → ℕ → List ℕ → List ℕ → ℕ → W × SubCtx C × ℤ
  ctx_add_pub w ctx sub_slot node ip port = elim (find_conn ctx.pub_conns node sub_slot 0) [
    | some i ↦ (w, ctx, pos 0)
    | none ↦ elim (free_conn ctx.pub_conns 0) [
      | none ↦ (w, ctx, negsuc 0)
      | some slot ↦
          let (w', sock) = calls.connect_tcp w ip port in
          let added : PubConn = record {
            sock = sock;
            node_name = take (name_size - 1) node;
            rxbuf = [];
            active = true;
            sub_slot = pos sub_slot;
          } in
          if is_neg sock then (w', ctx, negsuc 0) else (
            w',
            record ctx { pub_conns = set ctx.pub_conns slot added; pub_count = ctx.pub_count + 1 },
            pos 0,
          )
    ]
  ]

  -- One line of the answer that is not the end: the new `found`.
  unfoldable pub lookup_line : W → SubCtx C → ℕ → Bool → List ℕ → W × SubCtx C × Bool
  lookup_line w ctx s found line = elim (after_prefix (codes "PUBINFO ") line) [
    | none ↦ (w, ctx, found)
    | some _ ↦ elim (pub_info line) [
      | none ↦ (w, ctx, found)
      | some (ip, port, node) ↦
          let (w', ctx', code) = ctx_add_pub w ctx s node ip (calls.atoi port) in
          (w', ctx', found || not (is_neg code))
    ]
  ]

  -- The lines of one piece up to `END`: the result of the lookup, or `none` to go on.
  unfoldable pub lookup_lines :
      W → SubCtx C → ℕ → Bool → List (List ℕ) → W × SubCtx C × Bool × Option ℤ
  lookup_lines w ctx s found [] = (w, ctx, found, none)
  lookup_lines w ctx s found (line ∷ lines) =
      let (w', ctx', found') = lookup_line w ctx s found (c_string line) in
      elim (same_text (c_string line) (codes "END" ++ (newline ∷ []))) [
        | true ↦ (w, ctx, found, some (if found then pos 0 else negsuc 0))
        | false ↦ lookup_lines w' ctx' s found' lines
      ]
