-- ===== src/Program/Threads.antt =====
-- The threads that src/main.c has made and joined when it ends.
use loop_charger_inverter.Prelude.{
  ℕ, ◌+◌, ◌≡◌, refl, sym, ◌∙◌, subst, Bool, true, false, List, [], ◌∷◌, ◌++◌, arith, map,
  if◌then◌else◌, if-both, Bool-cases, Option-cases, inl, inr,
}
use loop_charger_inverter.Prelude.Int.{ℤ, negsuc, eq_pos, is_neg}
use loop_charger_inverter.Cmos.Text.{codes, newline}
use loop_charger_inverter.Cmos.Text.Decimal.{decimal}
use loop_charger_inverter.Cmos.Pub.{
  PubCalls, Publisher, close_open, close_each, cmos_pub_close, send_request, cmos_pub_init,
}
use loop_charger_inverter.Config.{UnitConfig}
use loop_charger_inverter.Inverter.Bridge.{bridge_pub_topic}
use loop_charger_inverter.Inverter.Map.{inverter_find_profile_by_uid}
use loop_charger_inverter.Inverter.AlarmManager.{SqlCalls}
use loop_charger_inverter.Inverter.Start.{
  RunningUnit, CmosBridge, ThreadCalls, to_uint8, new_unit, bridge_master_ip, bridge_master_port,
  bridge_node_name, bridge_pub_port, start_loop, inverter_cmos_bridge_start,
}
use loop_charger_inverter.Program.{MonitorCalls}

-- The threads of the program: the bridge's two, that of a unit, known by its configuration, and the
-- alarm monitor.
pub data ThreadId : Type 0 where
  publisher_thread subscriber_thread monitor_thread : ThreadId
  unit_thread : UnitConfig → ThreadId

-- The threads created, and those named by the calls that join one; the latest is first.
pub record Threads : Type 0 where
  pub created : List ThreadId
  pub joined : List ThreadId

abbrev pub one_more : ThreadId → Threads → Threads
one_more id t = record t { created = id ∷ t.created }

abbrev pub one_joined : ThreadId → Threads → Threads
one_joined id t = record t { joined = id ∷ t.joined }

-- What a list of threads weighs, when each has a weight. Lists that weigh the same for all weights
-- have each thread equally often.
abbrev pub total : (ThreadId → ℕ) → List ThreadId → ℕ
total weigh [] = 0
total weigh (id ∷ ids) = weigh id + total weigh ids

abbrev pub units_threads : List RunningUnit → List ThreadId
units_threads units = map (λ u. unit_thread u.cfg) units

-- Threads of this weight were created and not joined.
abbrev pub Running : (ThreadId → ℕ) → ℕ → Threads → Type 0
Running weigh n t = total weigh t.created ≡ total weigh t.joined + n

-- `pthread_create` makes its thread exactly where it returns 0; `pthread_join` joins the thread that it
-- names; the calls of sockets, of the clock and of SQLite, and `pthread_cancel`, do neither.
pub record IsThreading {W : Type 0} (sockets : PubCalls W) (threads : ThreadCalls W)
    (monitor : MonitorCalls W) (sql : SqlCalls W) (counts : W → Threads) : Type 0 where
  pub connect_keeps :
      (w : W) (ip : List ℕ) (port : ℕ) → counts (sockets.connect_tcp w ip port).0 ≡ counts w
  pub socket_keeps : (w : W) → counts (sockets.socket w).0 ≡ counts w
  pub bind_keeps : (w : W) (fd : ℤ) (port : ℕ) → counts (sockets.bind w fd port).0 ≡ counts w
  pub listen_keeps : (w : W) (fd : ℤ) → counts (sockets.listen w fd).0 ≡ counts w
  pub epoll_keeps : (w : W) (fd : ℤ) → counts (sockets.epoll_create w fd).0 ≡ counts w
  pub send_keeps : (w : W) (fd : ℤ) (line : List ℕ) → counts (sockets.send w fd line).0 ≡ counts w
  pub close_keeps : (w : W) (fd : ℤ) → counts (sockets.close w fd) ≡ counts w
  pub publisher_made :
      (w : W)
      → counts (threads.create_publisher w).0 ≡ (
          if eq_pos (threads.create_publisher w).1 0
          then one_more publisher_thread (counts w)
          else counts w)
  pub subscriber_made :
      (w : W)
      → counts (threads.create_subscriber w).0 ≡ (
          if eq_pos (threads.create_subscriber w).1 0
          then one_more subscriber_thread (counts w)
          else counts w)
  pub unit_made :
      (w : W) (u : RunningUnit)
      → counts (threads.create_unit w u).0 ≡ (
          if eq_pos (threads.create_unit w u).1 0
          then one_more (unit_thread u.cfg) (counts w)
          else counts w)
  pub monitor_made :
      (w : W)
      → counts (monitor.create_monitor w).0
        ≡ (if (monitor.create_monitor w).1 then one_more monitor_thread (counts w) else counts w)
  pub cancel_keeps : (w : W) → counts (threads.cancel_subscriber w) ≡ counts w
  pub subscriber_joined :
      (w : W) → counts (threads.join_subscriber w) ≡ one_joined subscriber_thread (counts w)
  pub publisher_joined :
      (w : W) (p : Publisher)
      → counts (threads.join_publisher w p).0 ≡ one_joined publisher_thread (counts w)
  pub unit_joined :
      (w : W) (u : RunningUnit)
      → counts (threads.join_unit w u) ≡ one_joined (unit_thread u.cfg) (counts w)
  pub monitor_joined :
      (w : W) → counts (monitor.join_monitor w) ≡ one_joined monitor_thread (counts w)
  pub clock_keeps : (w : W) → counts (monitor.get_monotonic_ms w).0 ≡ counts w
  pub sql_close_keeps : (w : W) → counts (sql.close_log w) ≡ counts w

total-units :
    (weigh : ThreadId → ℕ) (units : List RunningUnit) (u : RunningUnit)
    → total weigh (units_threads units) + weigh (unit_thread u.cfg)
      ≡ total weigh (units_threads (units ++ (u ∷ [])))
total-units weigh [] u = omega arith
total-units weigh (v ∷ units) u = omega (arith, total-units weigh units u)

module _ (weigh : ThreadId → ℕ) where
  pub made :
      (n : ℕ) (id : ThreadId) (before after : Threads) (ok : Bool)
      → after ≡ (if ok then one_more id before else before)
      → Running weigh n before
      → ok ≡ true
      → Running weigh (n + weigh id) after
  made n id before after true e h t = rw e (omega (arith, h))
  made n id before after false e h t = ground arith

  pub not_made :
      (n : ℕ) (id : ThreadId) (before after : Threads) (ok : Bool)
      → after ≡ (if ok then one_more id before else before)
      → Running weigh n before
      → ok ≡ false
      → Running weigh n after
  not_made n id before after true e h t = ground arith
  not_made n id before after false e h t = rw e h

  one_ended :
      (n : ℕ) (id : ThreadId) (t : Threads)
      → Running weigh (n + weigh id) t
      → Running weigh n (one_joined id t)
  one_ended n id t h = omega (arith, h)

  pub as_many : (n k : ℕ) (t : Threads) → n ≡ k → Running weigh n t → Running weigh k t
  as_many n k t e h = subst (λ m. Running weigh m t) e h

module _ {W : Type 0} (sockets : PubCalls W) (threads : ThreadCalls W) (monitor : MonitorCalls W)
    (sql : SqlCalls W) (counts : W → Threads)
    (threading : IsThreading sockets threads monitor sql counts) where
  close_open-keeps : (w : W) (fd : ℤ) → counts (close_open sockets w fd) ≡ counts w
  unfolding close_open
  close_open-keeps w fd =
      if-both (λ x. counts x ≡ counts w) (is_neg fd) refl (threading.close_keeps w fd)

  close_each-keeps : (socks : List ℤ) (w : W) → counts (close_each sockets w socks) ≡ counts w
  unfolding close_each
  close_each-keeps [] w = refl
  close_each-keeps (s ∷ socks) w =
      close_each-keeps socks (close_open sockets w s) ∙ close_open-keeps w s

  pub cmos_pub_close-keeps :
      (w : W) (p : Publisher) → counts (cmos_pub_close sockets w p).0 ≡ counts w
  unfolding cmos_pub_close
  cmos_pub_close-keeps w p =
      close_open-keeps _ p.master_sock
      ∙ close_open-keeps _ p.listen_sock
      ∙ close_open-keeps _ p.pub_epfd
      ∙ close_each-keeps p.sub_socks w

  send_request-keeps :
      (w : W) (sock : ℤ) (line : List ℕ) → counts (send_request sockets w sock line).0 ≡ counts w
  unfolding send_request
  send_request-keeps w sock line = threading.send_keeps w sock _

  cmos_pub_init-keeps :
      (w : W) (p : Publisher) (ip : List ℕ) (port : ℕ) (node topic : List ℕ) (own : ℕ)
      → counts (cmos_pub_init sockets w p ip port node topic own).0 ≡ counts w
  unfolding cmos_pub_init
  cmos_pub_init-keeps w p ip port node topic own =
      let Same : W × Publisher × ℤ → Type 0 = λ x. counts x.0 ≡ counts w in
      let hello = codes "NODE " ++ (node ++ (newline ∷ [])) in
      let register =
        codes "REGISTER_PUB "
        ++ (topic ++ (codes " 127.0.0.1 " ++ (decimal own ++ (newline ∷ [])))) in
      let (w1, master) = sockets.connect_tcp w ip port in
      let (w2, refused) = send_request sockets w1 master hello in
      let (w3, listener) = sockets.socket w2 in
      let (w4, bound) = sockets.bind w3 listener own in
      let (w5, listening) = sockets.listen w4 listener in
      let (w6, epfd) = sockets.epoll_create w5 listener in
      let (w7, unregistered) = send_request sockets w6 master register in
      let k1 : counts w1 ≡ counts w = threading.connect_keeps w ip port in
      let k2 : counts w2 ≡ counts w = send_request-keeps w1 master hello ∙ k1 in
      let k3 : counts w3 ≡ counts w = threading.socket_keeps w2 ∙ k2 in
      let k4 : counts w4 ≡ counts w = threading.bind_keeps w3 listener own ∙ k3 in
      let k5 : counts w5 ≡ counts w = threading.listen_keeps w4 listener ∙ k4 in
      let k6 : counts w6 ≡ counts w = threading.epoll_keeps w5 listener ∙ k5 in
      let k7 : counts w7 ≡ counts w = send_request-keeps w6 master register ∙ k6 in
      if-both Same (is_neg master) k1 (
        if-both Same refused k2 (
          if-both Same (is_neg listener) k3 (
            if-both Same (is_neg bound) k4 (
              if-both Same (is_neg listening) k5
                (if-both Same (is_neg epfd) k6 (if-both Same unregistered k7 k7))))))

  pub start_loop-Running :
      (weigh : ThreadId → ℕ) (inverters : List UnitConfig) (w : W) (units : List RunningUnit)
      (status : ℤ)
      → Running weigh (total weigh (units_threads units)) (counts w)
      → Running weigh
          (total weigh (units_threads (start_loop threads w units status inverters).1))
          (counts (start_loop threads w units status inverters).0)
  unfolding start_loop
  start_loop-Running weigh [] w units status h = h
  start_loop-Running weigh (cfg ∷ inverters) w units status h = elim (Bool-cases cfg.enabled) [
    | inr off ↦ rw (start_loop, off) (start_loop-Running weigh inverters w units status h)
    | inl on ↦ elim (Option-cases (inverter_find_profile_by_uid (to_uint8 cfg.modbus_uid))) [
      | inl missing ↦
          rw (start_loop, on, missing) (start_loop-Running weigh inverters w units (negsuc 0) h)
      | inr (profile, found) ↦
          let u = new_unit cfg profile in
          let (w', created) = threads.create_unit w u in
          elim (Bool-cases (eq_pos created 0)) [
            | inl ok ↦
                rw (start_loop, on, found, ok)
                  (start_loop-Running weigh inverters w' (units ++ (u ∷ [])) status (
                    as_many weigh (total weigh (units_threads units) + weigh (unit_thread cfg)) _
                      (counts w') (total-units weigh units u)
                      (made weigh (total weigh (units_threads units)) (unit_thread cfg) (counts w)
                        (counts w') (eq_pos created 0) (threading.unit_made w u) h ok)))
            | inr failed ↦
                rw (start_loop, on, found, failed)
                  (start_loop-Running weigh inverters w' units (negsuc 0) (
                    not_made weigh (total weigh (units_threads units)) (unit_thread cfg) (counts w)
                      (counts w') (eq_pos created 0) (threading.unit_made w u) h failed))
          ]
    ]
  ]

  pub inverter_cmos_bridge_start-Running :
      (weigh : ThreadId → ℕ) (n : ℕ) (w : W) (b : CmosBridge)
      → b.bridge_running ≡ false
      → Running weigh n (counts w)
      → Running weigh
          (n
            + (if (inverter_cmos_bridge_start sockets threads w b).1.bridge_running
                then weigh publisher_thread + weigh subscriber_thread
                else 0))
          (counts (inverter_cmos_bridge_start sockets threads w b).0)
  unfolding inverter_cmos_bridge_start
  inverter_cmos_bridge_start-Running weigh n w b idle h =
      let (w1, p, opened) =
        cmos_pub_init sockets w b.publisher bridge_master_ip bridge_master_port bridge_node_name
          bridge_pub_topic bridge_pub_port in
      let (w2, polling) = threads.create_publisher w1 in
      let (w3, subscribing) = threads.create_subscriber w2 in
      let joined = (threads.join_publisher w3 p).0 in
      let p' = (threads.join_publisher w3 p).1 in
      let kept : counts w1 ≡ counts w = cmos_pub_init-keeps w b.publisher _ _ _ _ _ in
      let h1 : Running weigh n (counts w1) = subst (Running weigh n) (sym kept) h in
      elim (Bool-cases (eq_pos opened 0)) [
        | inr e ↦
            rw (inverter_cmos_bridge_start, e, idle)
              (as_many weigh n _ (counts w1) (omega arith) h1)
        | inl e ↦ elim (Bool-cases (eq_pos polling 0)) [
          | inr e1 ↦
              rw (inverter_cmos_bridge_start, e, e1)
                (as_many weigh n _ _ (omega arith) (
                  subst (Running weigh n) (sym (cmos_pub_close-keeps w2 p)) (
                    not_made weigh n publisher_thread (counts w1) (counts w2) (eq_pos polling 0)
                      (threading.publisher_made w1) h1 e1)))
          | inl e1 ↦
              let h2 =
                made weigh n publisher_thread (counts w1) (counts w2) (eq_pos polling 0)
                  (threading.publisher_made w1) h1 e1 in
              elim (Bool-cases (eq_pos (threads.create_subscriber w2).1 0)) [
                | inr e2 ↦
                    rw (inverter_cmos_bridge_start, e, e1, e2)
                      (as_many weigh n _ _ (omega arith) (
                        subst (Running weigh n)
                          (sym (cmos_pub_close-keeps joined p' ∙ threading.publisher_joined w3 p))
                          (one_ended weigh n publisher_thread (counts w3) (
                            not_made weigh (n + weigh publisher_thread) subscriber_thread
                              (counts w2) (counts w3) (eq_pos subscribing 0)
                              (threading.subscriber_made w2) h2 e2))))
                | inl e2 ↦
                    rw (inverter_cmos_bridge_start, e, e1, e2)
                      (as_many weigh (n + weigh publisher_thread + weigh subscriber_thread) _ _
                        (omega arith)
                        (made weigh (n + weigh publisher_thread) subscriber_thread (counts w2)
                          (counts w3) (eq_pos subscribing 0) (threading.subscriber_made w2) h2 e2))
              ]
        ]
      ]
