-- ===== src/Inverter/Queue/Runs.antt =====
-- The command queue under pushes and pops in any order, as the bridge's threads and the poll thread
-- make them under the queue's mutex.
use mathlib.Core.List.{append_assoc, append-nil}
use loop_charger_inverter.Prelude.{
  ℕ, ◌≤◌, ◌≡◌, inl, inr, sym, ap, ◌∙◌, none, some, List, [], ◌∷◌, ◌++◌, All, length, take,
  if◌then◌else◌,
}
use loop_charger_inverter.Prelude.Int.{eq_pos}
use loop_charger_inverter.Inverter.Queue.{WriteMode, CmdQueue, queue_push, queue_pop}
use loop_charger_inverter.Inverter.Queue.Slots.{Request, request}
use loop_charger_inverter.Inverter.Queue.Fifo.{
  IsWellFormed, contents, queue_push-contents, queue_pop-contents,
}

-- A call of one of the threads.
pub data QueueCall : Type 0 where
  push : (addr : ℕ) (values : List ℕ) (count : ℕ) (mode : WriteMode) → QueueCall
  pop : QueueCall

-- The caller's array holds the values that it counts.
abbrev pub HasValues : QueueCall → Type 0
HasValues (push addr values count mode) = count ≤ length values
HasValues pop = Unit

-- The calls in order: the queue after them, the requests whose push returned 0, and the requests
-- that the pops returned.
abbrev pub queue_calls : List QueueCall → CmdQueue → CmdQueue × List Request × List Request
queue_calls [] q = (q, [], [])
queue_calls (push addr values count mode ∷ calls) q =
    let (q', code) = queue_push q addr values count mode in
    let (after, accepted, popped) = queue_calls calls q' in
    (
      after,
      if eq_pos code 0
          then record { addr = addr; values = take count values; mode = mode } ∷ accepted
          else accepted,
      popped,
    )
queue_calls (pop ∷ calls) q =
    let (q', c) = queue_pop q in
    let (after, accepted, popped) = queue_calls calls q' in
    (after, accepted, elim c [ none ↦ popped | some cmd ↦ request cmd ∷ popped ])

-- For any calls of pushes and pops on a well-formed queue: the requests that came out, followed by
-- those still inside, are the requests inside at first followed by those accepted since, in order.
-- So no accepted request is lost, duplicated, changed or overtaken. The queue stays well formed.
pub queue_calls-fifo :
    (calls : List QueueCall) (q : CmdQueue)
    → IsWellFormed q
    → All HasValues calls
    → let (after, accepted, popped) = queue_calls calls q in
      IsWellFormed after × (popped ++ contents after ≡ contents q ++ accepted)
queue_calls-fifo [] q wf h = (wf, sym (append-nil (contents q)))
queue_calls-fifo (push addr values count mode ∷ calls) q wf h =
    let (wf', cases) = queue_push-contents q addr values count mode wf h.0 in
    let (well, order) = queue_calls-fifo calls (queue_push q addr values count mode).0 wf' h.1 in
    elim cases [
      | inl (_, code, more) ↦ rw code (
        well,
        order
            ∙ ap (λ l. l ++ accepted_after) more
            ∙ append_assoc (contents q) (this ∷ []) accepted_after,
      )
      | inr (_, code, same) ↦ rw code (well, order ∙ ap (λ p. contents p ++ accepted_after) same)
    ]
  where
    this : Request
    this = record { addr = addr; values = take count values; mode = mode }

    accepted_after : List Request
    accepted_after = (queue_calls calls (queue_push q addr values count mode).0).1
queue_calls-fifo (pop ∷ calls) q wf h =
    let (wf', cases) = queue_pop-contents q wf in
    let (well, order) = queue_calls-fifo calls (queue_pop q).0 wf' h.1 in
    elim cases [
      | inl (_, nothing, same) ↦
          rw (◌++◌, nothing) (well, order ∙ ap (λ p. contents p ++ accepted_after) same)
      | inr (c, one, first) ↦
          rw (◌++◌, one)
            (well, ap (λ l. request c ∷ l) order ∙ ap (λ l. l ++ accepted_after) (sym first))
    ]
  where
    accepted_after : List Request
    accepted_after = (queue_calls calls (queue_pop q).0).1
