-- ===== src/Modbus/Transaction/Laws.antt =====
-- What a transaction returns: on a good answer, on a short one, and when it says that all is well.
use loop_charger_inverter.Prelude.{
  ℕ, ◌<◌, ◌≡◌, ◌⊎◌, true, List, [], ◌∷◌, arith, length, take, ==_refl, bit_and,
}
use loop_charger_inverter.Prelude.Int.{pos}
use loop_charger_inverter.Modbus.Crc.Register.{IsBytes}
use loop_charger_inverter.Modbus.Frame.{byte_at, exception_flag, append_crc, verify_response_crc}
use loop_charger_inverter.Modbus.Frame.Laws.{verify-append_crc, length-append_crc}
use loop_charger_inverter.Modbus.Serial.{Event}
use loop_charger_inverter.Modbus.Serial.Delivery.{
  Delivers, read_exact-Delivers, bytes_in, read_exact_short, read_exact_cases, line_bytes,
  read_exact-line_bytes,
}
use loop_charger_inverter.Modbus.Transaction.{
  client_ok, err_timeout, err_transport, Ctx, Exchange, timeout_of, check_response,
  receive_response, do_transaction,
}

check_response_good :
    (unit_id func : ℕ) (rest : List ℕ)
    → IsBytes (unit_id ∷ func ∷ rest)
    → bit_and func exception_flag ≡ 0
    → let frame = append_crc (unit_id ∷ func ∷ rest) in
      check_response unit_id frame (length frame) ≡ client_ok
unfolding check_response append_crc
check_response_good unit_id func rest h flag =
    rw (verify-append_crc (unit_id ∷ func ∷ rest) h) (ground (arith, ==_refl unit_id))

receive_response-Delivers :
    (unit_id func : ℕ) (rest : List ℕ) {es : List Event}
    → IsBytes (unit_id ∷ func ∷ rest)
    → bit_and func exception_flag ≡ 0
    → let frame = append_crc (unit_id ∷ func ∷ rest) in
      Delivers es frame → receive_response unit_id (length frame) es ≡ (client_ok, frame)
unfolding receive_response
receive_response-Delivers unit_id func rest h flag d =
    rw (read_exact-Delivers (length (append_crc (unit_id ∷ func ∷ rest))) [] d (omega arith)) (
      ground (
        arith,
        length-append_crc (unit_id ∷ func ∷ rest),
        check_response_good unit_id func rest h flag,
      ))

receive_response_short :
    (unit_id n : ℕ) (es : List Event)
    → bytes_in es < n
    → ((receive_response unit_id n es).0 ≡ err_timeout)
      ⊎ ((receive_response unit_id n es).0 ≡ err_transport)
unfolding receive_response
receive_response_short unit_id n es h = ground (arith, read_exact_short n [] es)

-- What is known of the bytes when the result is OK.
pub record IsAccepted (unit_id n : ℕ) (resp : List ℕ) : Type 0 where
  pub whole : length resp ≡ n
  pub crc_right : verify_response_crc resp n ≡ true
  pub from_unit : byte_at resp 0 ≡ unit_id
  pub no_exception : (bit_and (byte_at resp 1) exception_flag ≡ 0) ⊎ (byte_at resp 2 ≡ 0)

receive_response_ok :
    (unit_id n : ℕ) (es : List Event)
    → 0 < n
    → (receive_response unit_id n es).0 ≡ client_ok
    → IsAccepted unit_id n (receive_response unit_id n es).1
unfolding receive_response check_response
receive_response_ok unit_id n es h e = ground (arith, read_exact_cases n [] es (omega arith))

receive_response-line_bytes :
    (unit_id n : ℕ) (es : List Event)
    → (receive_response unit_id n es).0 ≡ client_ok
    → (receive_response unit_id n es).1 ≡ take n (line_bytes es)
unfolding receive_response check_response
receive_response-line_bytes unit_id n es e =
    ground
      (arith, read_exact_cases n [] es (omega arith), read_exact-line_bytes n [] es (omega arith))

module _ {W : Type 0} (bus : W → ℕ → List ℕ → W × Exchange) (w : W) (ctx : Ctx) (req : List ℕ) where
  -- The answer of the line to this request.
  abbrev pub answer : W × Exchange
  answer = bus w (timeout_of ctx.cfg) req

  -- `write` took the whole request.
  abbrev pub WritesAll : Type 0
  WritesAll = answer.1.written ≡ pos (length req)

  -- A frame from the right unit, closed by its CRC and with no exception flag, that comes in any
  -- pieces is the response of the transaction.
  pub do_transaction-Delivers :
      (func : ℕ) (rest : List ℕ)
      → WritesAll
      → IsBytes (ctx.cfg.unit_id ∷ func ∷ rest)
      → bit_and func exception_flag ≡ 0
      → let frame = append_crc (ctx.cfg.unit_id ∷ func ∷ rest) in
        Delivers answer.1.events frame
        → do_transaction bus w ctx req (length frame) ≡ (answer.0, client_ok, frame)
  unfolding do_transaction
  do_transaction-Delivers func rest sent h flag d =
      rw (sent, receive_response-Delivers ctx.cfg.unit_id func rest h flag d)
        (ground (arith, ==_refl (length req)))

  -- An answer with fewer bytes than expected makes the transaction fail with a negative code.
  pub do_transaction_short :
      (n : ℕ)
      → bytes_in answer.1.events < n
      → let result = (do_transaction bus w ctx req n).1 in
        (result ≡ err_timeout) ⊎ (result ≡ err_transport)
  unfolding do_transaction
  do_transaction_short n h =
      ground (arith, receive_response_short ctx.cfg.unit_id n answer.1.events h)

  -- If the transaction says OK, the response is whole, its CRC is right, it is from the unit asked,
  -- and it has no exception flag (or the exception code 0).
  pub do_transaction-IsAccepted :
      (n : ℕ)
      → 0 < n
      → (do_transaction bus w ctx req n).1 ≡ client_ok
      → IsAccepted ctx.cfg.unit_id n (do_transaction bus w ctx req n).2
  unfolding do_transaction
  do_transaction-IsAccepted n h e =
      ground (arith, receive_response_ok ctx.cfg.unit_id n answer.1.events h)

  -- If the transaction says OK, the response is the first bytes that the line brought.
  pub do_transaction-line_bytes :
      (n : ℕ)
      → (do_transaction bus w ctx req n).1 ≡ client_ok
      → (do_transaction bus w ctx req n).2 ≡ take n (line_bytes answer.1.events)
  unfolding do_transaction
  do_transaction-line_bytes n e =
      ground (arith, receive_response-line_bytes ctx.cfg.unit_id n answer.1.events)
