-- ===== src/Modbus/Transaction.antt =====
-- `do_transaction` of lib/modbus/modbus_rtu_client.c. The serial line is a parameter: a state of
-- type `W`, and a function `bus` that takes the timeout and the request that `write` is given to
-- what `write` returns and to the events of the answer. Each call starts from the events that
-- come after its `tcflush`; what an earlier call left unread is gone.
pub mod Laws
use loop_charger_inverter.Prelude.{
  ℕ, Bool, true, false, List, [], ◌∷◌, length, ltb, leb, ◌==◌, if◌then◌else◌, not, bit_and, String,
}
use loop_charger_inverter.Prelude.Int.{ℤ, pos, negsuc, eq_pos, is_neg}
use loop_charger_inverter.Modbus.Frame.{byte_at, exception_flag, rtu_crc_len, verify_response_crc}
use loop_charger_inverter.Modbus.Serial.{Event, read_exact}

-- MB_RTU_CLIENT_OK and the MB_RTU_CLIENT_ERR_* codes.
abbrev pub client_ok : ℤ
client_ok = pos 0

abbrev pub err_arg : ℤ
err_arg = negsuc 0

abbrev pub err_not_open : ℤ
err_not_open = negsuc 1

abbrev pub err_transport : ℤ
err_transport = negsuc 2

abbrev pub err_timeout : ℤ
err_timeout = negsuc 3

abbrev pub err_frame : ℤ
err_frame = negsuc 4

abbrev pub err_crc : ℤ
err_crc = negsuc 5

-- `mb_rtu_client_config_t`.
pub record Config : Type 0 where
  pub serial_path : String
  pub baud_rate : ℕ
  pub unit_id : ℕ
  pub response_timeout_ms : ℕ

-- `mb_rtu_client_ctx_t` without its mutex: a request runs from lock to unlock as one step.
pub record Ctx : Type 0 where
  pub fd : ℤ
  pub cfg : Config

abbrev pub default_timeout_ms : ℕ
default_timeout_ms = 1000

pub record Exchange : Type 0 where
  pub written : ℤ
  pub events : List Event

-- The timeout that `do_transaction` and `mb_rtu_client_connect` choose.
abbrev pub timeout_of : Config → ℕ
timeout_of cfg =
    if ltb 0 cfg.response_timeout_ms then cfg.response_timeout_ms else default_timeout_ms

-- What is done with a response that has arrived in full.
unfoldable pub check_response : ℕ → List ℕ → ℕ → ℤ
check_response unit_id resp resp_len =
    if not (verify_response_crc resp resp_len)
    then err_crc
    else if not (byte_at resp 0 == unit_id)
    then err_frame
    else if not (bit_and (byte_at resp 1) exception_flag == 0)
    then (if leb 5 resp_len then pos (byte_at resp 2) else err_frame)
    else client_ok

-- From the events on: receive, then check.
unfoldable pub receive_response : ℕ → ℕ → List Event → ℤ × List ℕ
receive_response unit_id resp_len events =
    let (received, resp) = read_exact resp_len [] events in
    if eq_pos received 0
    then (err_timeout, resp)
    else if is_neg received
    then (err_transport, resp)
    else (check_response unit_id resp resp_len, resp)

module _ {W : Type 0} (bus : W → ℕ → List ℕ → W × Exchange) where
  -- The new state of the line, the result, and the bytes of `resp`.
  unfoldable pub do_transaction : W → Ctx → List ℕ → ℕ → W × ℤ × List ℕ
  do_transaction w ctx req resp_len =
      let (w', x) = bus w (timeout_of ctx.cfg) req in
      if not (eq_pos x.written (length req))
      then (w', err_transport, [])
      else let (result, resp) = receive_response ctx.cfg.unit_id resp_len x.events in
        (w', result, resp)
