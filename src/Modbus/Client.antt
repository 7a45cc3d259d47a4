-- ===== src/Modbus/Client.antt =====
-- The register functions of lib/modbus/modbus_rtu_client.c.
pub mod Registers
pub mod Laws
use loop_charger_inverter.Prelude.{
  ℕ, zero, suc, ◌+◌, ◌*◌, ◌%◌, Bool, true, false, ◌||◌, Option, none, some, List, [], ◌∷◌, ◌++◌,
  length, get_or, set, replicate, ltb, ◌==◌, if◌then◌else◌, not, bit_or, String,
}
use loop_charger_inverter.Prelude.Int.{ℤ, pos, negsuc, eq_pos, is_neg}
use loop_charger_inverter.Modbus.Frame.{
  func_read_holding_registers, func_write_single_register, func_write_multiple_registers,
  rtu_crc_len, max_read_registers, max_write_registers, byte_at, append_uint16_be, append_crc,
}
use loop_charger_inverter.Modbus.Transaction.{
  client_ok, err_arg, err_not_open, err_frame, Config, Ctx, Exchange, do_transaction,
}

unfoldable pub read_request : ℕ → ℕ → ℕ → List ℕ
read_request unit_id addr qty =
    append_crc
      (append_uint16_be (append_uint16_be (unit_id ∷ func_read_holding_registers ∷ []) addr) qty)

unfoldable pub write_single_request : ℕ → ℕ → ℕ → List ℕ
write_single_request unit_id addr value =
    append_crc
      (append_uint16_be (append_uint16_be (unit_id ∷ func_write_single_register ∷ []) addr) value)

-- The loop that appends `data[i]` for `i` below `qty`, with the rounds left.
unfoldable pub append_registers : ℕ → ℕ → List ℕ → List ℕ → List ℕ
append_registers zero i values buf = buf
append_registers (suc left) i values buf =
    append_registers left (i + 1) values (append_uint16_be buf (get_or values i 0))

unfoldable pub write_multiple_request : ℕ → ℕ → ℕ → List ℕ → List ℕ
write_multiple_request unit_id addr qty values = append_crc (
    append_registers qty 0 values (
      append_uint16_be (append_uint16_be (unit_id ∷ func_write_multiple_registers ∷ []) addr) qty
      ++ (qty * 2 % 256 ∷ [])))

-- The loop that fills `out[i]` from the response, with the rounds left.
unfoldable pub copy_registers : ℕ → ℕ → List ℕ → List ℕ → List ℕ
copy_registers zero i resp out = out
copy_registers (suc left) i resp out =
    copy_registers left (i + 1) resp
      (set out i (bit_or (byte_at resp (3 + i * 2) * 256) (byte_at resp (3 + i * 2 + 1))))

-- `qty == 0 || qty > limit`.
abbrev pub out_of_range : ℕ → ℕ → Bool
out_of_range qty limit = qty == 0 || ltb limit qty

-- After a transaction that succeeded: the function code and the byte count, then the registers.
unfoldable pub accept_registers : ℕ → List ℕ → List ℕ → ℤ × List ℕ
accept_registers qty resp out =
    if not (byte_at resp 1 == func_read_holding_registers) || not (byte_at resp 2 == qty * 2 % 256)
    then (err_frame, out)
    else (client_ok, copy_registers qty 0 resp out)

-- After a write that succeeded: the function code alone.
unfoldable pub accept_echo : ℕ → List ℕ → ℤ
accept_echo func resp = if byte_at resp 1 == func then client_ok else err_frame

module _ {W : Type 0} (bus : W → ℕ → List ℕ → W × Exchange) where
  -- With arguments in range and the lock taken. The last part is what `out` holds afterwards.
  unfoldable pub read_locked : W → Ctx → ℕ → ℕ → List ℕ → W × ℤ × List ℕ
  read_locked w ctx addr qty out =
      if is_neg ctx.fd
      then (w, err_not_open, out)
      else let (w', result, resp) =
          do_transaction bus w ctx (read_request ctx.cfg.unit_id addr qty)
            (3 + qty * 2 + rtu_crc_len) in
        if not (eq_pos result 0)
        then (w', result, out)
        else let (code, out') = accept_registers qty resp out in (w', code, out')

  -- `mb_rtu_client_read_holding_registers`; a null pointer is `none`.
  unfoldable pub read_holding_registers :
      W → Option Ctx → ℕ → ℕ → Option (List ℕ) → W × ℤ × Option (List ℕ)
  unfolding read_locked
  read_holding_registers w none addr qty out = (w, err_arg, out)
  read_holding_registers w (some ctx) addr qty none = (w, err_arg, none)
  read_holding_registers w (some ctx) addr qty (some out) =
      if out_of_range qty max_read_registers
      then (w, err_arg, some out)
      else let (w', code, out') = read_locked w ctx addr qty out in (w', code, some out')

  -- A write: the transaction with an answer of `resp_len` bytes, then the function code.
  unfoldable pub write_locked : W → Ctx → ℕ → List ℕ → ℕ → W × ℤ
  write_locked w ctx func req resp_len =
      if is_neg ctx.fd
      then (w, err_not_open)
      else let (w', result, resp) = do_transaction bus w ctx req resp_len in
        if not (eq_pos result 0) then (w', result) else (w', accept_echo func resp)

  -- `mb_rtu_client_write_single_register`: the answer is as long as the request.
  unfoldable pub write_single_register : W → Option Ctx → ℕ → ℕ → W × ℤ
  unfolding write_locked
  write_single_register w none addr value = (w, err_arg)
  write_single_register w (some ctx) addr value =
      let req = write_single_request ctx.cfg.unit_id addr value in
      write_locked w ctx func_write_single_register req (length req)

  -- `mb_rtu_client_write_multiple_registers`; the values are `none` for a null pointer.
  unfoldable pub write_multiple_registers : W → Option Ctx → ℕ → ℕ → Option (List ℕ) → W × ℤ
  unfolding write_locked
  write_multiple_registers w none addr qty values = (w, err_arg)
  write_multiple_registers w (some ctx) addr qty none = (w, err_arg)
  write_multiple_registers w (some ctx) addr qty (some values) =
      if out_of_range qty max_write_registers
      then (w, err_arg)
      else write_locked w ctx func_write_multiple_registers
          (write_multiple_request ctx.cfg.unit_id addr qty values) (1 + 1 + 2 + 2 + rtu_crc_len)

  -- `mb_rtu_client_probe_device`: a read into a local buffer.
  unfoldable pub probe_device : W → Option Ctx → ℕ → ℕ → W × ℤ
  unfolding read_holding_registers
  probe_device w ctx addr qty =
      if out_of_range qty max_read_registers
      then (w, err_arg)
      else let (w', code, _) =
          read_holding_registers w ctx addr qty (some (replicate max_read_registers 0)) in
        (w', code)
