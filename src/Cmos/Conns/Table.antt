-- ===== src/Cmos/Conns/Table.antt =====
-- The table of connections: how many are active, and when one is found again.
use loop_charger_inverter.Prelude.{
  ℕ, zero, suc, ◌+◌, ◌-◌, ◌≤◌, ◌<◌, ◌≡◌, refl, ◌∙◌, true, false, ◌&&◌, some, List, [], ◌∷◌, All,
  arith, length, length-set, get_or, set, take, take_all, ==_refl, if◌then◌else◌, Bool-cases,
  Option-cases, inl, inr, replicate,
}
use loop_charger_inverter.Prelude.Int.{pos, is_neg}
use loop_charger_inverter.Cmos.Text.{same_text}
use loop_charger_inverter.Cmos.Text.Tokens.{same_text_refl}
use loop_charger_inverter.Cmos.Sub.{PubConn}
use loop_charger_inverter.Cmos.Conns.{
  cm_max_pub_conn, name_size, no_conn, init_conns, same_int, SubCtx, SubCalls, find_conn, free_conn,
  active_count, ctx_add_pub,
}

abbrev pub active_number : PubConn → ℕ
active_number c = if c.active then 1 else 0

-- The entries that are marked active.
abbrev pub actives : List PubConn → ℕ
actives [] = 0
actives (c ∷ conns) = active_number c + actives conns

-- An active entry has a socket.
abbrev pub HasSocket : PubConn → Type 0
HasSocket c = (c.active && is_neg c.sock) ≡ false

pub record IsTable (conns : List PubConn) (count : ℕ) : Type 0 where
  pub capacity : length conns ≡ cm_max_pub_conn
  pub counted : count ≡ actives conns
  pub sockets : All HasSocket conns

pub actives-le : (conns : List PubConn) → actives conns ≤ length conns
actives-le [] = omega arith
actives-le (c ∷ conns) = ground (arith, actives-le conns)

-- Where every active entry has a socket, `ctx_active_count` counts the active ones.
pub active_count-actives :
    (conns : List PubConn) → All HasSocket conns → active_count conns ≡ actives conns
unfolding active_count
active_count-actives [] h = refl
active_count-actives (c ∷ conns) h = ground (arith, h.0, active_count-actives conns h.1)

actives-set :
    (conns : List PubConn) (i : ℕ) (c : PubConn)
    → i < length conns
    → actives (set conns i c) + active_number (get_or conns i no_conn)
      ≡ actives conns + active_number c
actives-set [] i c h = elim h [ ]
actives-set (d ∷ conns) zero c h = omega arith
actives-set (d ∷ conns) (suc i) c h = omega (arith, actives-set conns i c (omega arith))

sockets-set :
    (conns : List PubConn) (i : ℕ) (c : PubConn)
    → HasSocket c
    → All HasSocket conns
    → All HasSocket (set conns i c)
sockets-set [] i c h all = tt
sockets-set (d ∷ conns) zero c h all = (h, all.1)
sockets-set (d ∷ conns) (suc i) c h all = (all.0, sockets-set conns i c h all.1)

-- The free entry is in the table and not active.
free_conn-some :
    (conns : List PubConn) (i slot : ℕ)
    → free_conn conns i ≡ some slot
    → (k : ℕ) × (slot ≡ i + k) × (k < length conns) × ((get_or conns k no_conn).active ≡ false)
unfolding free_conn
free_conn-some [] i slot e = ground arith
free_conn-some (c ∷ conns) i slot e = elim (Bool-cases c.active) [
  | inr free ↦ (0, ground arith, omega arith, free)
  | inl taken ↦
      let (k, at, lt, free) = free_conn-some conns (i + 1) slot (ground arith) in
      (suc k, omega (arith, at), omega arith, free)
]

pub added-IsTable :
    (conns : List PubConn) (count slot : ℕ) (c : PubConn)
    → IsTable conns count
    → free_conn conns 0 ≡ some slot
    → c.active ≡ true
    → is_neg c.sock ≡ false
    → IsTable (set conns slot c) (count + 1)
added-IsTable conns count slot c t e active socket =
    let (k, at, lt, free) = free_conn-some conns 0 slot e in
    let same : slot ≡ k = omega arith in
    record {
      capacity = length-set conns slot c ∙ t.capacity;
      counted = ground (arith, t.counted, same, actives-set conns k c lt);
      sockets = sockets-set conns slot c (ground arith) t.sockets;
    }

pub closed-IsTable :
    (conns : List PubConn) (count i : ℕ)
    → i < cm_max_pub_conn
    → IsTable conns count
    → IsTable (set conns i no_conn) (if (get_or conns i no_conn).active then count - 1 else count)
closed-IsTable conns count i h t = record {
  capacity = length-set conns i no_conn ∙ t.capacity;
  counted = ground (arith, t.counted, actives-set conns i no_conn (omega (arith, t.capacity)));
  sockets = sockets-set conns i no_conn refl t.sockets;
}

-- A change of an entry that leaves its mark and its socket.
pub received-IsTable :
    (conns : List PubConn) (count i : ℕ) (c : PubConn)
    → i < cm_max_pub_conn
    → IsTable conns count
    → c.active ≡ (get_or conns i no_conn).active
    → (c.active && is_neg c.sock) ≡ false
    → IsTable (set conns i c) count
received-IsTable conns count i c h t same socket = record {
  capacity = length-set conns i c ∙ t.capacity;
  counted = ground (arith, t.counted, same, actives-set conns i c (omega (arith, t.capacity)));
  sockets = sockets-set conns i c socket t.sockets;
}

pub init_conns-IsTable : IsTable init_conns 0
init_conns-IsTable = record { capacity = refl; counted = refl; sockets = all_empty cm_max_pub_conn }
  where
    all_empty : (n : ℕ) → All HasSocket (replicate n no_conn)
    all_empty zero = tt
    all_empty (suc n) = (refl, all_empty n)

-- An active entry for the node and the slot is found.
find_conn-set :
    (conns : List PubConn) (k i : ℕ) (c : PubConn) (node : List ℕ) (s : ℕ)
    → k < length conns
    → (c.active && (same_int c.sub_slot (pos s) && same_text c.node_name node)) ≡ true
    → (j : ℕ) × (find_conn (set conns k c) node s i ≡ some j)
unfolding find_conn
find_conn-set [] k i c node s h e = elim h [ ]
find_conn-set (d ∷ conns) zero i c node s h e = (i, ground arith)
find_conn-set (d ∷ conns) (suc k) i c node s h e =
    let (j, f) = find_conn-set conns k (i + 1) c node s (omega arith) e in
    elim (Bool-cases (d.active && (same_int d.sub_slot (pos s) && same_text d.node_name node))) [
      | inl here ↦ (i, ground arith)
      | inr other ↦ (j, ground arith)
    ]

module _ {C W : Type 0} (calls : SubCalls W) where
  pub ctx_add_pub-IsTable :
      (w : W) (ctx : SubCtx C) (s : ℕ) (node ip : List ℕ) (port : ℕ)
      → IsTable ctx.pub_conns ctx.pub_count
      → let (w', ctx', code) = ctx_add_pub calls w ctx s node ip port in
        IsTable ctx'.pub_conns ctx'.pub_count
  unfolding ctx_add_pub
  ctx_add_pub-IsTable w ctx s node ip port t =
      elim (Option-cases (find_conn ctx.pub_conns node s 0)) [
        | inr (i, f) ↦ rw (ctx_add_pub, f) t
        | inl f ↦ elim (Option-cases (free_conn ctx.pub_conns 0)) [
          | inl g ↦ rw (ctx_add_pub, f, g) t
          | inr (slot, g) ↦ elim (Bool-cases (is_neg (calls.connect_tcp w ip port).1)) [
            | inl refused ↦ rw (ctx_add_pub, f, g, refused) t
            | inr connected ↦
                rw (ctx_add_pub, f, g, connected)
                  (added-IsTable ctx.pub_conns ctx.pub_count slot _ t g refl connected)
          ]
        ]
      ]

  already :
      (w : W) (ctx : SubCtx C) (s : ℕ) (node ip : List ℕ) (port j : ℕ)
      → find_conn ctx.pub_conns node s 0 ≡ some j
      → ctx_add_pub calls w ctx s node ip port ≡ (w, ctx, pos 0)
  unfolding ctx_add_pub
  already w ctx s node ip port j f = rw (ctx_add_pub, f) refl

  ctx_add_pub-found :
      (w : W) (ctx : SubCtx C) (s : ℕ) (node ip : List ℕ) (port : ℕ)
      → length node < name_size
      → (ctx_add_pub calls w ctx s node ip port).2 ≡ pos 0
      → (j : ℕ) × (find_conn (ctx_add_pub calls w ctx s node ip port).1.pub_conns node s 0 ≡ some j)
  unfolding ctx_add_pub
  ctx_add_pub-found w ctx s node ip port short done =
      elim (Option-cases (find_conn ctx.pub_conns node s 0)) [
        | inr (i, f) ↦ rw (ctx_add_pub, f) (i, f)
        | inl f ↦ elim (Option-cases (free_conn ctx.pub_conns 0)) [
          | inl g ↦ ground arith
          | inr (slot, g) ↦ elim (Bool-cases (is_neg (calls.connect_tcp w ip port).1)) [
            | inl refused ↦ ground arith
            | inr connected ↦
                let (k, at, lt, free) = free_conn-some ctx.pub_conns 0 slot g in
                rw (ctx_add_pub, f, g, connected)
                  (find_conn-set ctx.pub_conns slot 0 _ node s (omega arith) matches)
          ]
        ]
      ]
    where
      matches : (same_int (pos s) (pos s) && same_text (take (name_size - 1) node) node) ≡ true
      matches =
          rw (==_refl s, take_all (name_size - 1) node (omega arith), same_text_refl node) refl

  -- For a node whose name has at most 63 bytes: when the connection to its publisher for a slot is
  -- there, because `ctx_add_pub` returned 0, a second call for the same node and slot returns 0 and
  -- changes nothing, whatever its address: no second connection is made.
  pub ctx_add_pub_again :
      (w w2 : W) (ctx : SubCtx C) (s : ℕ) (node ip ip2 : List ℕ) (port port2 : ℕ)
      → length node < name_size
      → (ctx_add_pub calls w ctx s node ip port).2 ≡ pos 0
      → let ctx' = (ctx_add_pub calls w ctx s node ip port).1 in
        ctx_add_pub calls w2 ctx' s node ip2 port2 ≡ (w2, ctx', pos 0)
  ctx_add_pub_again w w2 ctx s node ip ip2 port port2 short done =
      let (j, f) = ctx_add_pub-found w ctx s node ip port short done in
      already w2 (ctx_add_pub calls w ctx s node ip port).1 s node ip2 port2 j f
