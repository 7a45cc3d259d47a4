-- ===== src/Cmos/Pub.antt =====
-- lib/cmos/cmos_pub.c. The calls of the system are a parameter, on a state of type `W`. A socket is
-- its descriptor, a null pointer is `none`, and the file's variables are one record.
pub mod Closing
pub mod Message
pub mod Bounds
pub mod Clients
use loop_charger_inverter.Prelude.{
  ℕ, zero, suc, ◌+◌, ◌-◌, Bool, true, false, not, ◌&&◌, ◌||◌, Option, none, some, List, [], ◌∷◌,
  ◌++◌, length, take, ltb, leb, ◌==◌, if◌then◌else◌,
}
use loop_charger_inverter.Prelude.Int.{ℤ, pos, negsuc, is_neg}
use loop_charger_inverter.Cmos.Text.{codes, space, newline}
use loop_charger_inverter.Cmos.Text.Decimal.{decimal}

abbrev pub cm_max_sub_client : ℕ
cm_max_sub_client = 512

-- `sizeof(data)` and `sizeof(buf)` of `cmos_publish`, and `sizeof(buf)` of `cmos_pub_init`.
abbrev pub data_size : ℕ
data_size = 896

abbrev pub message_size : ℕ
message_size = 1024

abbrev pub request_size : ℕ
request_size = 256

abbrev pub topic_size : ℕ
topic_size = 64

-- The variables of the file; `sub_socks` is the first `sub_count` sockets.
pub record Publisher : Type 0 where
  pub master_sock : ℤ
  pub listen_sock : ℤ
  pub sub_socks : List ℤ
  pub pub_topic : List ℕ
  pub pub_epfd : ℤ

-- The system as the file calls it: `connect_tcp`, and the calls named like these fields. `send`
-- gives the count or -1, the others a descriptor, 0 or -1; `epoll_wait` gives its count.
pub record PubCalls (W : Type 0) : Type 0 where
  pub connect_tcp : W → List ℕ → ℕ → W × ℤ
  pub socket : W → W × ℤ
  pub bind : W → ℤ → ℕ → W × ℤ
  pub listen : W → ℤ → W × ℤ
  pub epoll_create : W → ℤ → W × ℤ
  pub epoll_wait : W → ℤ → W × ℤ
  pub accept : W → ℤ → W × ℤ
  pub send : W → ℤ → List ℕ → W × ℤ
  pub close : W → ℤ → W

-- `n <= 0`.
abbrev pub not_positive : ℤ → Bool
not_positive (pos n) = n == 0
not_positive (negsuc n) = true

-- What `data` holds and `pos`; or behaviour that C leaves undefined: a write that starts behind the
-- end of `data`, or the use of `data` when nothing was written to it.
pub data Composed : Type 0 where
  composed : ℕ → List ℕ → Composed
  undefined : Composed

-- `pos += snprintf(data + pos, sizeof(data) - pos, ...)` of this text. The size is unsigned, so a
-- `pos` above it makes it huge.
unfoldable pub print_piece : Composed → List ℕ → Composed
print_piece undefined piece = undefined
print_piece (composed at text) piece =
    if ltb data_size at
    then undefined
    else composed (at + length piece) (take (data_size - 1) (text ++ piece))

-- `pos ? " " : ""`.
abbrev pub separator : Composed → List ℕ
separator (composed at text) = if at == 0 then [] else space ∷ []
separator undefined = []

-- A field that may be missing, with its name.
unfoldable pub print_field : Composed → List ℕ → Option (List ℕ) → Composed
print_field c name none = c
print_field c name (some text) = print_piece c (separator c ++ (name ++ text))

-- The value: bare where nothing stands before it.
unfoldable pub print_value : Composed → Option (List ℕ) → Composed
print_value c none = c
print_value undefined (some text) = undefined
print_value (composed at before) (some text) =
    print_piece (composed at before) (if at == 0 then text else space ∷ (codes "value=" ++ text))

abbrev pub nothing_given : {A : Type 0} → Option A → Option A → Option A → Option A → Bool
nothing_given none none none none = true
nothing_given _ _ _ _ = false

-- The part of `cmos_publish` that fills `data`.
unfoldable pub compose_data :
    Option (List ℕ) → Option (List ℕ) → Option (List ℕ) → Option (List ℕ) → Composed
compose_data state type key value =
    let with_state = print_field (composed 0 []) (codes "state=") state in
    let with_type = print_field with_state (codes "type=") type in
    let with_key = print_field with_type (codes "key=") key in
    if nothing_given state type key value then undefined else print_value with_key value

-- `snprintf(buf, sizeof(buf), "MSG %s %s\n", pub_topic, data)`.
unfoldable pub message_line : List ℕ → List ℕ → List ℕ
message_line topic payload =
    take (message_size - 1) (codes "MSG " ++ (topic ++ (space ∷ (payload ++ (newline ∷ [])))))

abbrev pub closed_publisher : Publisher → Publisher
closed_publisher p = record p {
  sub_socks = [];
  master_sock = negsuc 0;
  listen_sock = negsuc 0;
  pub_epfd = negsuc 0;
}

module _ {W : Type 0} (calls : PubCalls W) where
  -- The loop over the subscribers: one that `send` fails for is closed and taken out.
  unfoldable pub send_all : W → List ℤ → List ℕ → W × List ℤ
  send_all w [] line = (w, [])
  send_all w (sock ∷ socks) line =
      let (sent, n) = calls.send w sock line in
      elim (not_positive n) [
        | true ↦ send_all (calls.close sent sock) socks line
        | false ↦ let (w', kept) = send_all sent socks line in (w', sock ∷ kept)
      ]

  -- `cmos_publish`, which returns 0; `none` where its behaviour is undefined.
  unfoldable pub cmos_publish :
      W
      → Publisher
      → Option (List ℕ)
      → Option (List ℕ)
      → Option (List ℕ)
      → Option (List ℕ)
      → Option (W × Publisher)
  cmos_publish w p state type key value = elim (compose_data state type key value) [
    | undefined ↦ none
    | composed at payload ↦
        let (w', socks) = send_all w p.sub_socks (message_line p.pub_topic payload) in
        some (w', record p { sub_socks = socks })
  ]

  -- `cmos_pub_poll`.
  unfoldable pub cmos_pub_poll : W → Publisher → W × Publisher
  cmos_pub_poll w p =
      let (waited, ready) = calls.epoll_wait w p.pub_epfd in
      let (w', c) = calls.accept waited p.listen_sock in
      if is_neg p.listen_sock || is_neg p.pub_epfd
      then (w, p)
      else if not_positive ready
      then (waited, p)
      else if is_neg c
      then (w', p)
      else if ltb (length p.sub_socks) cm_max_sub_client
      then (w', record p { sub_socks = p.sub_socks ++ (c ∷ []) })
      else (calls.close w' c, p)

  -- `if (fd >= 0) close(fd)`.
  unfoldable pub close_open : W → ℤ → W
  close_open w fd = if is_neg fd then w else calls.close w fd

  unfoldable pub close_each : W → List ℤ → W
  unfolding close_open
  close_each w [] = w
  close_each w (sock ∷ socks) = close_each (close_open w sock) socks

  -- `cmos_pub_close`.
  unfoldable pub cmos_pub_close : W → Publisher → W × Publisher
  unfolding close_open close_each
  cmos_pub_close w p = (
    close_open (close_open (close_open (close_each w p.sub_socks) p.pub_epfd) p.listen_sock)
        p.master_sock,
    closed_publisher p,
  )

  -- `send_line(master_sock, line) <= 0` for a line that was cut to fit `buf`.
  unfoldable pub send_request : W → ℤ → List ℕ → W × Bool
  send_request w sock line =
      let (w', n) = calls.send w sock (take (request_size - 1) line) in (w', not_positive n)

  -- `cmos_pub_init`: each failure returns -1 and leaves what was opened before it open.
  unfoldable pub cmos_pub_init :
      W → Publisher → List ℕ → ℕ → List ℕ → List ℕ → ℕ → W × Publisher × ℤ
  unfolding send_request
  cmos_pub_init w p master_ip master_port node_name topic listen_port =
      let (w1, master) = calls.connect_tcp w master_ip master_port in
      let p1 : Publisher = record p {
        pub_topic = take (topic_size - 1) topic;
        sub_socks = [];
        master_sock = master;
      } in
      let (w2, refused) = send_request w1 master (codes "NODE " ++ (node_name ++ (newline ∷ []))) in
      let (w3, listener) = calls.socket w2 in
      let p3 : Publisher = record p1 { listen_sock = listener } in
      let (w4, bound) = calls.bind w3 listener listen_port in
      let (w5, listening) = calls.listen w4 listener in
      let (w6, epfd) = calls.epoll_create w5 listener in
      let p6 : Publisher = record p3 { pub_epfd = epfd } in
      let (w7, unregistered) = send_request w6 master (
        codes "REGISTER_PUB "
        ++ (topic ++ (codes " 127.0.0.1 " ++ (decimal listen_port ++ (newline ∷ []))))) in
      if is_neg master
      then (w1, p1, negsuc 0)
      else if refused
      then (w2, p1, negsuc 0)
      else if is_neg listener
      then (w3, p3, negsuc 0)
      else if is_neg bound
      then (w4, p3, negsuc 0)
      else if is_neg listening
      then (w5, p3, negsuc 0)
      else if is_neg epfd
      then (w6, p6, negsuc 0)
      else if unregistered
      then (w7, p6, negsuc 0)
      else (w7, p6, pos 0)
