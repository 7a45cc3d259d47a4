-- ===== src/Inverter/Queue/Slots.antt =====
-- The requests that the slots of the ring hold, and how a write to a slot changes them.
use loop_charger_inverter.Prelude.{
  ℕ, zero, suc, ◌+◌, ◌%◌, ◌≡◌, ◌<◌, ◌≤◌, refl, ap, ◌∙◌, List, [], ◌∷◌, ◌++◌, arith, length, get_or,
  set, take, get_or-set_ne,
}
use loop_charger_inverter.Inverter.Queue.{cmd_queue_capacity, WriteMode, WriteCmd, blank}

-- What a client sees of an entry: not what the array holds behind the `count` values.
pub record Request : Type 0 where
  pub addr : ℕ
  pub values : List ℕ
  pub mode : WriteMode

abbrev pub request : WriteCmd → Request
request c = record { addr = c.addr; values = take c.count c.values; mode = c.mode }

-- The requests of `n` slots from `head` on.
abbrev pub slots : List WriteCmd → ℕ → ℕ → List Request
slots entries head zero = []
slots entries head (suc n) =
    request (get_or entries head blank) ∷ slots entries ((head + 1) % cmd_queue_capacity) n

-- A slot behind the `n` slots is written without a change to them.
pub slots-set :
    (entries : List WriteCmd) (head n t : ℕ) (c : WriteCmd)
    → head < cmd_queue_capacity
    → n < cmd_queue_capacity
    → t ≡ (head + n) % cmd_queue_capacity
    → slots (set entries t c) head n ≡ slots entries head n
slots-set entries head zero t c h b e = refl
slots-set entries head (suc n) t c h b e =
    rw
      (
        get_or-set_ne entries t head c blank (omega arith),
        slots-set entries ((head + 1) % cmd_queue_capacity) n t c (omega arith) (omega arith)
            (omega arith),
      )
      refl

pub slots-suc :
    (entries : List WriteCmd) (head n : ℕ)
    → head < cmd_queue_capacity
    → slots entries head (suc n)
      ≡ slots entries head n
        ++ (request (get_or entries ((head + n) % cmd_queue_capacity) blank) ∷ [])
slots-suc entries head zero h = ap (λ i. request (get_or entries i blank) ∷ []) (same head h)
  where
    same : (i : ℕ) → i < cmd_queue_capacity → i ≡ (i + 0) % cmd_queue_capacity
    same i below = omega arith
slots-suc entries head (suc n) h =
    ap (λ rest. request (get_or entries head blank) ∷ rest)
      (slots-suc entries ((head + 1) % cmd_queue_capacity) n (omega arith)
        ∙ ap
            (λ i.
              slots entries ((head + 1) % cmd_queue_capacity) n
              ++ (request (get_or entries i blank) ∷ []))
            (shifted head h))
  where
    shifted :
        (i : ℕ)
        → i < cmd_queue_capacity
        → ((i + 1) % cmd_queue_capacity + n) % cmd_queue_capacity ≡ (i + suc n) % cmd_queue_capacity
    shifted i below = omega arith

pub take-copy_values :
    (count : ℕ) (values rest : List ℕ)
    → count ≤ length values
    → take count (take count values ++ rest) ≡ take count values
take-copy_values zero values rest h = refl
take-copy_values (suc count) [] rest h = ground arith
take-copy_values (suc count) (v ∷ values) rest h =
    ap (λ l. v ∷ l) (take-copy_values count values rest (omega arith))
