-- ===== src/Inverter/Unit/Drain.antt =====
-- The drain against the abstract queue, with pushes before its pops.
use loop_charger_inverter.Prelude.{
  ℕ, zero, suc, ◌+◌, ◌%◌, ◌<◌, ◌≡◌, refl, sym, ap, ◌∙◌, Bool, true, false, List, [], ◌∷◌, ◌++◌, All,
  arith, length, take, if◌then◌else◌, inl, inr,
}
use loop_charger_inverter.Modbus.Transaction.{Ctx, Exchange}
use loop_charger_inverter.Inverter.Queue.{
  cmd_queue_capacity, WriteCmd, CmdQueue, queue_push, queue_pop,
}
use loop_charger_inverter.Inverter.Queue.Slots.{Request, request, slots}
use loop_charger_inverter.Inverter.Queue.Fifo.{
  IsWellFormed, contents, queue_push-contents, queue_pop-contents,
}
use loop_charger_inverter.Inverter.Unit.{write_registers_to_device, drain_queue}
use loop_charger_inverter.Inverter.Unit.Arrivals.{
  Push, HasValues, push_each, has_room, push_request, push_requests, to_write, drain_arrivals,
  write_each, Drained,
}

length-contents : (q : CmdQueue) → length (contents q) ≡ q.count
length-contents q = counted q.entries q.head q.count
  where
    counted : (entries : List WriteCmd) (head n : ℕ) → length (slots entries head n) ≡ n
    counted entries head zero = refl
    counted entries head (suc n) =
        omega (arith, counted entries ((head + 1) % cmd_queue_capacity) n)

push_request-takes :
    (l : List Request) (p : Push) (b : Bool)
    → has_room (length l) p.count ≡ b
    → push_request l p ≡ (
        if b
        then l ++ (record { addr = p.addr; values = take p.count p.values; mode = p.mode } ∷ [])
        else l)
push_request-takes l p b e =
    ap
      (λ t.
        if t
        then l ++ (record { addr = p.addr; values = take p.count p.values; mode = p.mode } ∷ [])
        else l)
      e

pub push-request :
    (q : CmdQueue) (p : Push)
    → IsWellFormed q
    → HasValues p
    → IsWellFormed (queue_push q p.addr p.values p.count p.mode).0
      × (contents (queue_push q p.addr p.values p.count p.mode).0 ≡ push_request (contents q) p)
push-request q p wf h =
    let (wf', cases) = queue_push-contents q p.addr p.values p.count p.mode wf h in
    let same_test = ap (λ n. has_room n p.count) (length-contents q) in
    elim cases [
      | inl (fits, _, more) ↦
          (wf', more ∙ sym (push_request-takes (contents q) p true (same_test ∙ fits)))
      | inr (refused, _, same) ↦ (
        wf',
        ap contents same ∙ sym (push_request-takes (contents q) p false (same_test ∙ refused)),
      )
    ]

pub push_each-requests :
    (ps : List Push) (q : CmdQueue)
    → IsWellFormed q
    → All HasValues ps
    → IsWellFormed (push_each q ps) × (contents (push_each q ps) ≡ push_requests (contents q) ps)
unfolding push_each
push_each-requests [] q wf h = (wf, refl)
push_each-requests (p ∷ ps) q wf h =
    let (wf', one) = push-request q p wf h.0 in
    let (well, rest) =
      push_each-requests ps (queue_push q p.addr p.values p.count p.mode).0 wf' h.1 in
    (well, rest ∙ ap (λ l. push_requests l ps) one)

to_write-cases :
    (new : List Push) (later : List (List Push)) (l m : List Request)
    → push_requests l new ≡ m
    → to_write (new ∷ later) l ≡ (elim m [ [] ↦ [] | r ∷ rest ↦ r ∷ to_write later rest ])
to_write-cases new later l m e = ap (λ x. elim x [ [] ↦ [] | r ∷ rest ↦ r ∷ to_write later rest ]) e

empty_count : (q : CmdQueue) → contents q ≡ [] → q.count ≡ 0
empty_count q e = omega (arith, length-contents q, ap length e)

module _ {W : Type 0} (bus : W → ℕ → List ℕ → W × Exchange) where
  -- A pop that finds nothing ends the drain.
  Drained-none :
      (w : W) (ctx : Ctx) (q : CmdQueue)
      → IsWellFormed q
      → contents q ≡ []
      → Drained bus w ctx [] (w, q)
  unfolding write_each
  Drained-none w ctx q wf e = record {
    cmds = [];
    written = refl;
    as_requested = refl;
    emptied = empty_count q e;
    well_formed = wf;
  }

  Drained-some :
      (w : W) (ctx : Ctx) (c : WriteCmd) (requests : List Request) (result : W × CmdQueue)
      → Drained bus
          (write_registers_to_device bus w ctx c.addr c.values c.count c.mode).0
          ctx
          requests
          result
      → Drained bus w ctx (request c ∷ requests) result
  unfolding write_each
  Drained-some w ctx c requests result d = record {
    cmds = c ∷ d.cmds;
    written = d.written;
    as_requested = ap (λ l. request c ∷ l) d.as_requested;
    emptied = d.emptied;
    well_formed = d.well_formed;
  }

  drain_queue-Drained :
      (rounds : ℕ) (w : W) (ctx : Ctx) (q : CmdQueue)
      → IsWellFormed q
      → q.count < rounds
      → Drained bus w ctx (contents q) (drain_queue bus rounds w ctx q)
  unfolding drain_queue
  drain_queue-Drained zero w ctx q wf h = absurd (omega arith)
  drain_queue-Drained (suc rounds) w ctx q wf h =
      let (wf', cases) = queue_pop-contents q wf in
      let q' = (queue_pop q).0 in
      elim cases [
        | inl (nothing, popped, same) ↦
            rw (drain_queue, popped, nothing, same) (Drained-none w ctx q wf nothing)
        | inr (c, popped, first) ↦
            rw (drain_queue, popped, first)
              (Drained-some w ctx c (contents q') _ (
                drain_queue-Drained rounds _ ctx q' wf'
                  (omega (arith, ap length first, length-contents q, length-contents q'))))
      ]

  -- On a well-formed queue, with pushes before each pop whose arrays hold the values they count:
  -- the drain ends with the queue empty and well formed, and has called `write_registers_to_device`
  -- for commands whose requests are, in order, those that a queue of at most 16 requests gives out:
  -- what was in it, then each request that came while there was room, until the first pop that
  -- finds nothing.
  pub drain_arrivals-Drained :
      (arrivals : List (List Push)) (w : W) (ctx : Ctx) (q : CmdQueue)
      → IsWellFormed q
      → All (All HasValues) arrivals
      → Drained bus w ctx (to_write arrivals (contents q)) (drain_arrivals bus arrivals w ctx q)
  unfolding drain_arrivals
  drain_arrivals-Drained [] w ctx q wf h =
      drain_queue-Drained (suc q.count) w ctx q wf (omega arith)
  drain_arrivals-Drained (new ∷ later) w ctx q wf h =
      let (well, pushed) = push_each-requests new q wf h.0 in
      let q1 = push_each q new in
      let q' = (queue_pop q1).0 in
      let (wf', cases) = queue_pop-contents q1 well in
      elim cases [
        | inl (nothing, popped, same) ↦
            rw
              (
                drain_arrivals,
                popped,
                to_write-cases new later (contents q) [] (sym pushed ∙ nothing),
                same,
              )
              (Drained-none w ctx q1 well nothing)
        | inr (c, popped, first) ↦
            rw
              (
                drain_arrivals,
                popped,
                to_write-cases new later (contents q) (request c ∷ contents q')
                    (sym pushed ∙ first),
              )
              (Drained-some w ctx c (to_write later (contents q')) _
                (drain_arrivals-Drained later _ ctx q' wf' h.1))
      ]
