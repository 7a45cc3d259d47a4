-- ===== src/Inverter/Queue/Fifo.antt =====
-- The command queue of src/inverter_module.c against a bounded list of requests.
use loop_charger_inverter.Prelude.{
  ℕ, zero, suc, ◌+◌, ◌-◌, ◌%◌, ◌≡◌, ◌<◌, ◌≤◌, ◌⊎◌, inl, inr, refl, ap, ◌∙◌, Bool, true, false, ◌||◌,
  none, some, List, [], ◌∷◌, ◌++◌, arith, length, get_or, set, take, not, ◌&&◌, Bool-cases, ltb,
  leb, ◌==◌, length-set, get_or-set_self,
}
use loop_charger_inverter.Prelude.Int.{pos, negsuc}
use loop_charger_inverter.Modbus.Frame.{max_write_registers}
use loop_charger_inverter.Inverter.Queue.{
  cmd_queue_capacity, WriteMode, WriteCmd, CmdQueue, blank, queue_init, copy_values, queue_push,
  queue_pop,
}
use loop_charger_inverter.Inverter.Queue.Slots.{
  Request, request, slots, slots-set, slots-suc, take-copy_values,
}

-- The abstract state.
abbrev pub contents : CmdQueue → List Request
contents q = slots q.entries q.head q.count

pub record IsWellFormed (q : CmdQueue) : Type 0 where
  pub capacity : length q.entries ≡ cmd_queue_capacity
  pub head_below : q.head < cmd_queue_capacity
  pub counted : q.count ≤ cmd_queue_capacity
  pub tail_at : q.tail ≡ (q.head + q.count) % cmd_queue_capacity

-- The empty queue.
pub queue_init-IsWellFormed : IsWellFormed queue_init
queue_init-IsWellFormed = record {
  capacity = refl;
  head_below = omega arith;
  counted = omega arith;
  tail_at = refl;
}

-- Whether `queue_push` takes a request.
abbrev pub takes : CmdQueue → ℕ → Bool
takes q count = not (count == 0) && leb count max_write_registers && ltb q.count cmd_queue_capacity

module _ (q : CmdQueue) (wf : IsWellFormed q) where
  -- The queue after `c` is stored.
  unfoldable stored : WriteCmd → CmdQueue
  stored c = record q {
    entries = set q.entries q.tail c;
    tail = (q.tail + 1) % cmd_queue_capacity;
    count = q.count + 1;
  }

  stored-IsWellFormed : (c : WriteCmd) → q.count < cmd_queue_capacity → IsWellFormed (stored c)
  unfolding stored
  stored-IsWellFormed c room = record {
    capacity = length-set q.entries q.tail c ∙ wf.capacity;
    head_below = wf.head_below;
    counted = omega (arith, wf.counted);
    tail_at = omega (arith, wf.tail_at);
  }

  stored-contents :
      (c : WriteCmd)
      → q.count < cmd_queue_capacity
      → contents (stored c) ≡ contents q ++ (request c ∷ [])
  unfolding stored
  stored-contents c room =
      ap (slots (set q.entries q.tail c) q.head) (one_more q.count)
      ∙ slots-suc (set q.entries q.tail c) q.head q.count wf.head_below
      ∙ (ap
            (λ l.
              l
              ++ (request (
                    get_or (set q.entries q.tail c) ((q.head + q.count) % cmd_queue_capacity) blank)
                  ∷ []))
            (slots-set q.entries q.head q.count q.tail c wf.head_below room wf.tail_at)
          ∙ ap (λ x. contents q ++ (request x ∷ [])) at_tail)
    where
      one_more : (n : ℕ) → n + 1 ≡ suc n
      one_more n = omega arith

      at_tail : get_or (set q.entries q.tail c) ((q.head + q.count) % cmd_queue_capacity) blank ≡ c
      at_tail =
          rw (← wf.tail_at)
            (get_or-set_self q.entries q.tail c blank (omega (arith, wf.tail_at, wf.capacity)))

-- On a well-formed queue, with at least `count` values: a push that is taken returns 0 and
-- appends the request to the contents; any other push returns -1 and leaves the queue as it is.
-- Both keep the queue well formed.
pub queue_push-contents :
    (q : CmdQueue) (addr : ℕ) (values : List ℕ) (count : ℕ) (mode : WriteMode)
    → IsWellFormed q
    → count ≤ length values
    → let (q', code) = queue_push q addr values count mode in
      IsWellFormed q'
      × (((takes q count ≡ true)
            × (code ≡ pos 0)
            × (contents q'
                ≡ contents q
                  ++ (record { addr = addr; values = take count values; mode = mode } ∷ [])))
          ⊎ ((takes q count ≡ false) × (code ≡ negsuc 0) × (q' ≡ q)))
unfolding queue_push stored
queue_push-contents q addr values count mode wf h = elim (Bool-cases (takes q count)) [
  | inl t ↦
      let range : (count == 0 || ltb max_write_registers count) ≡ false = ground arith in
      let room : leb cmd_queue_capacity q.count ≡ false = ground arith in
      let below : q.count < cmd_queue_capacity = ground arith in
      let c : WriteCmd = record {
        addr = addr;
        values = copy_values count values (get_or q.entries q.tail blank).values;
        count = count;
        mode = mode;
      } in
      rw (range, room)
        (
          stored-IsWellFormed q wf c below,
          inl (
            t,
            refl,
            stored-contents q wf c below
                ∙ ap (λ l. contents q ++ (record { addr = addr; values = l; mode = mode } ∷ []))
                    (take-copy_values count values _ h),
          ),
        )
  | inr t ↦ elim (Bool-cases (count == 0 || ltb max_write_registers count)) [
    | inl outside ↦ rw outside (wf, inr (t, refl, refl))
    | inr inside ↦
        let full : leb cmd_queue_capacity q.count ≡ true = ground arith in
        rw (inside, full) (wf, inr (t, refl, refl))
  ]
]

-- On a well-formed queue: a pop returns the first request of the contents and removes it; on the
-- empty queue, and only there, it fails and leaves the queue as it is. The queue stays well
-- formed.
pub queue_pop-contents :
    (q : CmdQueue)
    → IsWellFormed q
    → let (q', popped) = queue_pop q in
      IsWellFormed q'
      × (((contents q ≡ []) × (popped ≡ none) × (q' ≡ q))
          ⊎ ((c : WriteCmd) × (popped ≡ some c) × (contents q ≡ request c ∷ contents q')))
unfolding queue_pop
queue_pop-contents q wf = elim (Bool-cases (q.count == 0)) [
  | inl e ↦ rw e (wf, inl (nothing q.count e, refl, refl))
  | inr some_left ↦ rw some_left (
    record {
      capacity = wf.capacity;
      head_below = omega arith;
      counted = omega (arith, wf.counted);
      tail_at = moved q.head q.count q.tail wf.head_below (ground arith) wf.tail_at;
    },
    inr (get_or q.entries q.head blank, refl, first q.count (ground arith)),
  )
]
  where
    nothing : (n : ℕ) → (n == 0) ≡ true → slots q.entries q.head n ≡ []
    nothing zero e = refl
    nothing (suc n) e = ground arith

    one_less : (n : ℕ) → n ≡ suc n - 1
    one_less n = omega arith

    first :
        (n : ℕ)
        → 0 < n
        → slots q.entries q.head n
          ≡ request (get_or q.entries q.head blank)
            ∷ slots q.entries ((q.head + 1) % cmd_queue_capacity) (n - 1)
    first zero h = absurd (omega arith)
    first (suc n) h =
        ap
          (λ m.
            request (get_or q.entries q.head blank)
            ∷ slots q.entries ((q.head + 1) % cmd_queue_capacity) m)
          (one_less n)

    moved :
        (head count tail : ℕ)
        → head < cmd_queue_capacity
        → 0 < count
        → tail ≡ (head + count) % cmd_queue_capacity
        → tail ≡ ((head + 1) % cmd_queue_capacity + (count - 1)) % cmd_queue_capacity
    moved head count tail b c e = omega arith
