-- ===== src/Modbus/Serial.antt =====
-- `wait_for_data` and `read_exact` of lib/modbus/modbus_rtu_client.c. What `select` and `read`
-- answer is a list of events, in order; after its last event the line is silent, and `select`
-- times out.
pub mod Delivery
use loop_charger_inverter.Prelude.{ℕ, ◌-◌, List, [], ◌∷◌, ◌++◌, length, take, ltb, if◌then◌else◌}
use loop_charger_inverter.Prelude.Int.{ℤ, pos, negsuc}

pub data Event : Type 0 where
  -- `select` returns -1 with EINTR, returns 0, or fails.
  interrupted timed_out select_error : Event
  -- `select` returns 1 and `read` then fails.
  read_error : Event
  -- `select` returns 1 and `read` finds these bytes waiting; none is the end of the file.
  bytes : List ℕ → Event

-- `read_exact fd buf n`: the count returned and the bytes stored. The clause of `interrupted` is
-- the loop of `wait_for_data`. A `read` takes at most the bytes that are still wanted.
unfoldable pub read_exact : ℕ → List ℕ → List Event → ℤ × List ℕ
read_exact n buf [] = if ltb (length buf) n then (pos 0, buf) else (pos (length buf), buf)
read_exact n buf (interrupted ∷ es) = read_exact n buf es
read_exact n buf (timed_out ∷ es) =
    if ltb (length buf) n then (pos 0, buf) else (pos (length buf), buf)
read_exact n buf (select_error ∷ es) =
    if ltb (length buf) n then (negsuc 0, buf) else (pos (length buf), buf)
read_exact n buf (read_error ∷ es) =
    if ltb (length buf) n then (negsuc 0, buf) else (pos (length buf), buf)
read_exact n buf (bytes [] ∷ es) =
    if ltb (length buf) n then (negsuc 0, buf) else (pos (length buf), buf)
read_exact n buf (bytes (b ∷ bs) ∷ es) =
    let rest = read_exact n (buf ++ take (n - length buf) (b ∷ bs)) es in
    if ltb (length buf) n then rest else (pos (length buf), buf)
