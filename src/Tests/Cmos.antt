-- ===== src/Tests/Cmos.antt =====
-- Examples for the CMOS messages: a publisher of the topic `inverter` and a subscriber to it.
use loop_charger_inverter.Prelude.{
  ℕ, suc, ◌+◌, ◌≤◌, ◌≡◌, refl, true, none, some, List, [], ◌∷◌, ◌++◌, map, arith, length, replicate,
  take, drop, if◌then◌else◌, ◌==◌,
}
use loop_charger_inverter.Prelude.Int.{ℤ, pos, negsuc, is_neg}
use loop_charger_inverter.Cmos.Text.{codes, space, newline, same_text}
use loop_charger_inverter.Cmos.Pub.{
  Publisher, PubCalls, undefined, compose_data, print_field, print_piece, print_value, message_line,
  not_positive,
}
use loop_charger_inverter.Cmos.Pub.Bounds.{message_line-whole, compose_data_overruns}
use loop_charger_inverter.Cmos.Util.{Msg, cmos_publish_batch}
use loop_charger_inverter.Cmos.Util.Batch.{
  Composing, no_message, next_message, ReachesEach, cmos_publish_batch-ReachesEach,
}
use loop_charger_inverter.Cmos.Sub.{SubSlot, PubConn, ctx_handle_line, calls_of, is_refused}
use loop_charger_inverter.Cmos.Sub.Framing.{concat, conn_receives, conn_receives-stream}
use loop_charger_inverter.Cmos.Link.{Message, IsPlain}
use loop_charger_inverter.Cmos.Stream.{sent_line, conn_receives-published}
use loop_charger_inverter.Cmos.Conns.{
  SubCtx, SubCalls, cm_max_pub_conn, no_conn, active_count, has_conn,
}
use loop_charger_inverter.Cmos.Spin.{
  cmos_sub_create, ask_master, new_ctx, SubStep, subscribe, round, sub_run, spin_round,
}
use loop_charger_inverter.Cmos.Spin.Counted.{sub_run-counted}
use loop_charger_inverter.Cmos.Spin.Lost.{IsLost, spin_round-IsLost}

-- A slot for the output current, of callback 7.
abbrev slot : SubSlot ℕ
slot = record {
  topic = codes "inverter";
  filter_state = [];
  filter_type = [];
  filter_key = codes "output_current";
  cb = some 7;
  used = true;
}

abbrev conn : PubConn
conn = record {
  sock = pos 5;
  node_name = codes "inverter_node";
  rxbuf = [];
  active = true;
  sub_slot = pos 0;
}

abbrev messages : List Message
messages =
    record {
      state = some (codes "Alive");
      type = none;
      key = codes "output_current";
      value = some (codes "25");
    }
    ∷ record {
      state = some (codes "Alive");
      type = none;
      key = codes "dc_bus_voltage";
      value = some (codes "310");
    }
    ∷ []

abbrev all_sent : List ℕ
all_sent = concat (map (sent_line (codes "inverter")) messages)

-- The bytes cut after the first seven, in the middle of a word.
conn_receives-published_example :
    conn_receives (slot ∷ []) conn (take 7 all_sent ∷ drop 7 all_sent ∷ [])
    ≡ (conn, record { cb = 7; topic = codes "inverter"; payload = codes "25" } ∷ [])
unfolding compose_data print_field print_piece print_value message_line is_refused same_text
conn_receives-published_example =
    conn_receives-published (slot ∷ []) 0 slot 7 conn (codes "inverter") messages
      (take 7 all_sent ∷ drop 7 all_sent ∷ []) refl refl refl refl refl refl
      (omega arith, omega arith, ground arith) (plain, (plain2, tt)) refl
  where
    plain : IsPlain (codes "inverter") (record {
      state = some (codes "Alive");
      type = none;
      key = codes "output_current";
      value = some (codes "25");
    })
    plain = record {
      state_clean = ground arith;
      type_clean = tt;
      key_clean = ground arith;
      value_clean = ground arith;
      fits = omega arith;
    }

    plain2 : IsPlain (codes "inverter") (record {
      state = some (codes "Alive");
      type = none;
      key = codes "dc_bus_voltage";
      value = some (codes "310");
    })
    plain2 = record {
      state_clean = ground arith;
      type_clean = tt;
      key_clean = ground arith;
      value_clean = ground arith;
      fits = omega arith;
    }

-- A line in three pieces and the start of a second one.
conn_receives-stream_example :
    conn_receives (slot ∷ []) conn (codes "MS" ∷ codes "G" ∷ (newline ∷ b'M' ∷ []) ∷ []) ≡ (
      record conn { rxbuf = codes "M" },
      calls_of (map (ctx_handle_line (slot ∷ []) (pos 0)) ((codes "MSG" ++ (newline ∷ [])) ∷ [])),
    )
conn_receives-stream_example =
    conn_receives-stream (slot ∷ []) conn (codes "MS" ∷ codes "G" ∷ (newline ∷ b'M' ∷ []) ∷ [])
      (codes "MSG" ∷ []) (codes "M") refl refl ((ground arith, omega arith), tt) (ground arith)
      (omega arith)

message_line-whole_example :
    (message_line (codes "inverter") (codes "key=a value=1")
      ≡ (codes "MSG " ++ (codes "inverter" ++ (space ∷ codes "key=a value=1"))) ++ (newline ∷ []))
    × (length (message_line (codes "inverter") (codes "key=a value=1")) ≤ 964)
unfolding compose_data print_field print_piece print_value
message_line-whole_example =
    message_line-whole none none (some (codes "a")) (some (codes "1")) 13 (codes "inverter")
      (codes "key=a value=1") refl (omega arith)

abbrev long_text : List ℕ
long_text = replicate 892 b'a'

compose_data_overruns_example :
    (compose_data (some long_text) (some (codes "t")) none none ≡ undefined)
    × (compose_data none (some long_text) (some (codes "t")) none ≡ undefined)
compose_data_overruns_example = compose_data_overruns long_text (codes "t") none none (omega arith)

-- A system on which the third socket has gone.
abbrev pub pub_calls : PubCalls ℕ
pub_calls = record {
  connect_tcp = λ w ip port. (w, pos 3);
  socket = λ w. (w, pos 4);
  bind = λ w fd port. (w, pos 0);
  listen = λ w fd. (w, pos 0);
  epoll_create = λ w fd. (w, pos 5);
  epoll_wait = λ w fd. (w, pos 1);
  accept = λ w fd. (suc w, pos (10 + w));
  send = λ w fd line. (
    w,
    elim fd [ pos n ↦ if n == 12 then negsuc 0 else pos (length line) | negsuc n ↦ negsuc 0 ],
  );
  close = λ w fd. w;
}

abbrev pub publisher : Publisher
publisher = record {
  master_sock = pos 3;
  listen_sock = pos 4;
  sub_socks = pos 11 ∷ pos 12 ∷ pos 13 ∷ [];
  pub_topic = codes "inverter";
  pub_epfd = pos 5;
}

abbrev batch : List Msg
batch =
    record { state = none; type = none; key = some (codes "a"); value = none }
    ∷ record { state = none; type = none; key = some (codes "b"); value = some (codes "2") }
    ∷ []

batch-Composing : Composing batch (codes "key=a" ∷ codes "key=b value=2" ∷ [])
unfolding compose_data print_field print_piece print_value
batch-Composing =
    next_message _ 5 (codes "key=a") refl
      (next_message _ 13 (codes "key=b value=2") refl no_message)

cmos_publish_batch-ReachesEach_example :
    (w' : ℕ) × (left : List ℤ) × (cmos_publish_batch pub_calls 0 publisher batch
      ≡ some (w', record publisher { sub_socks = left }))
    × ReachesEach pub_calls
        (message_line (codes "inverter") (codes "key=a")
          ∷ message_line (codes "inverter") (codes "key=b value=2")
          ∷ [])
        0
        (pos 11 ∷ pos 12 ∷ pos 13 ∷ [])
        w'
        left
cmos_publish_batch-ReachesEach_example =
    cmos_publish_batch-ReachesEach pub_calls batch (codes "key=a" ∷ codes "key=b value=2" ∷ []) 0
      publisher batch-Composing

-- A system on which the master has no publisher to tell of, and on which nothing is sent on a closed
-- descriptor.
abbrev pub sub_calls : SubCalls ℕ
sub_calls = record {
  connect_tcp = λ w ip port. (w, pos 3);
  send = λ w fd line. (w, elim fd [ pos n ↦ pos 1 | negsuc n ↦ negsuc 0 ]);
  close = λ w fd. w;
  epoll_create = λ w. (w, pos 4);
  answer = λ w fd. (w, (codes "END" ++ (newline ∷ [])) ∷ []);
  atoi = λ text. 13000;
}

abbrev fresh : SubCtx ℕ
fresh = new_ctx (codes "127.0.0.1") 10000 (codes "inverter_sub") (pos 3) (pos 4)

abbrev sub_steps : List (SubStep ℕ)
sub_steps =
    subscribe (codes "control_output") none (some (codes "ctrl")) none (some 7) ∷ round true [] ∷ []

sub_run-counted_example :
    let (_, ctx', _) = sub_run sub_calls 0 fresh sub_steps in
    (ctx'.pub_count ≡ active_count ctx'.pub_conns) × (ctx'.pub_count ≤ cm_max_pub_conn)
unfolding cmos_sub_create ask_master
sub_run-counted_example =
    sub_run-counted sub_calls 0 0 (codes "127.0.0.1") 10000 (codes "inverter_sub") fresh sub_steps
      refl

-- The master has gone, slot 0 has its publisher and slot 1 has none.
abbrev half_up : SubCtx ℕ
half_up = record fresh {
  master_sock = negsuc 0;
  sub_slots = slot ∷ slot ∷ [];
  pub_conns = conn ∷ no_conn ∷ [];
  pub_count = 1;
}

spin_round-IsLost_example : IsLost 1 (spin_round sub_calls 0 half_up true []).1
unfolding active_count has_conn
spin_round-IsLost_example =
    spin_round-IsLost sub_calls refuses 1 0 half_up true [] (λ e. absurd (omega arith)) (refl, refl)
  where
    refuses :
        (w : ℕ) (fd : ℤ) (line : List ℕ)
        → is_neg fd ≡ true
        → not_positive (sub_calls.send w fd line).1 ≡ true
    refuses w (pos n) line e = ground arith
    refuses w (negsuc n) line e = refl
