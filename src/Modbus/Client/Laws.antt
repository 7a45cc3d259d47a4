-- ===== src/Modbus/Client/Laws.antt =====
-- The register functions against the Modbus RTU frames: the request that is sent, the answer that
-- is understood, and the answers that are refused.
use loop_charger_inverter.Prelude.{
  ℕ, ◌+◌, ◌*◌, ◌/◌, ◌%◌, ◌^◌, ◌≤◌, ◌<◌, ◌≡◌, ◌⊎◌, refl, ap, ◌∙◌, false, Option, some, List, [], ◌∷◌,
  ◌++◌, arith, length, take, subst, drop,
}
use loop_charger_inverter.Prelude.Int.{is_neg}
use loop_charger_inverter.Modbus.Crc.{compute_crc16}
use loop_charger_inverter.Modbus.Crc.Register.{IsBytes}
use loop_charger_inverter.Modbus.Frame.{
  byte_at, append_crc, append_uint16_be, max_read_registers, max_write_registers,
}
use loop_charger_inverter.Modbus.Frame.Laws.{
  append_uint16_be_lem, append_crc_lem, length-append_crc, length-append_uint16_be,
}
use loop_charger_inverter.Modbus.Serial.Delivery.{Delivers, bytes_in, line_bytes}
use loop_charger_inverter.Modbus.Transaction.{
  client_ok, err_timeout, err_transport, Ctx, Exchange, do_transaction,
}
use loop_charger_inverter.Modbus.Transaction.Laws.{
  answer, WritesAll, do_transaction-Delivers, do_transaction_short, IsAccepted,
  do_transaction-IsAccepted, do_transaction-line_bytes,
}
use loop_charger_inverter.Modbus.Client.{
  read_request, write_single_request, write_multiple_request, accept_registers, accept_echo,
  append_registers, copy_registers, out_of_range, read_holding_registers, write_single_register,
}
use loop_charger_inverter.Modbus.Client.Registers.{
  IsWords, encode_be, length-encode_be, encode_be-IsBytes, copy_registers-encode_be,
  append_registers-encode_be,
}

-- The answer of a slave to FC03, as the Modbus protocol has it.
abbrev pub read_reply_body : ℕ → List ℕ → List ℕ
read_reply_body unit_id regs = unit_id ∷ 3 ∷ length regs * 2 ∷ encode_be regs

abbrev pub read_reply : ℕ → List ℕ → List ℕ
read_reply unit_id regs = append_crc (read_reply_body unit_id regs)

-- For arguments of 8, 16 and 16 bits the request of FC03 is: unit, function, address and quantity
-- high byte first, then the CRC low byte first.
pub read_request_lem :
    (unit_id addr qty : ℕ)
    → unit_id < 256
    → addr < 2 ^ 16
    → qty < 2 ^ 16
    → read_request unit_id addr qty ≡ append_crc (unit_id ∷ 3 ∷ encode_be (addr ∷ qty ∷ []))
unfolding read_request
read_request_lem unit_id addr qty hu ha hq = ap append_crc (
    cc (
      append_uint16_be_lem (unit_id ∷ 3 ∷ []) addr,
      append_uint16_be_lem (unit_id ∷ 3 ∷ addr / 256 % 256 ∷ addr % 256 ∷ []) qty,
      high addr ha,
      high qty hq,
    ))
  where
    high : (v : ℕ) → v < 2 ^ 16 → v / 256 % 256 ≡ v / 256
    high v h = omega arith

read_reply_body-IsBytes :
    (unit_id : ℕ) (regs : List ℕ)
    → unit_id < 256
    → IsWords regs
    → length regs ≤ max_read_registers
    → IsBytes (read_reply_body unit_id regs)
read_reply_body-IsBytes unit_id regs hu hr hn =
    (hu, (omega arith, (omega arith, encode_be-IsBytes regs hr)))

accept_registers-read_reply :
    (unit_id : ℕ) (regs out : List ℕ)
    → IsBytes (read_reply_body unit_id regs)
    → length regs ≤ length out
    → accept_registers (length regs) (read_reply unit_id regs) out
      ≡ (client_ok, regs ++ drop (length regs) out)
unfolding accept_registers
accept_registers-read_reply unit_id regs out h fits =
    rw (append_crc_lem (read_reply_body unit_id regs) h) (
      ground (
        arith,
        h,
        copy_registers-encode_be regs (unit_id ∷ 3 ∷ length regs * 2 ∷ [])
            (compute_crc16 (read_reply_body unit_id regs) % 256
              ∷ compute_crc16 (read_reply_body unit_id regs) / 256
              ∷ [])
            [] out 0 refl refl fits,
      ))

-- For an 8-bit unit, a 16-bit address and at most 123 registers of 16 bits the request of FC16
-- is: unit, function, address, quantity, the count of bytes and the registers high byte first,
-- then the CRC.
pub write_multiple_request_lem :
    (unit_id addr : ℕ) (regs : List ℕ)
    → unit_id < 256
    → addr < 2 ^ 16
    → length regs ≤ max_write_registers
    → IsWords regs
    → write_multiple_request unit_id addr (length regs) regs
      ≡ append_crc (
          unit_id
          ∷ 16
          ∷ (encode_be (addr ∷ length regs ∷ []) ++ (length regs * 2 ∷ encode_be regs)))
unfolding write_multiple_request
write_multiple_request_lem unit_id addr regs hu ha hn hr = ap append_crc (
    ap (append_registers (length regs) 0 regs) header
    ∙ append_registers-encode_be regs [] _ 0 refl hr)
  where
    high : (v : ℕ) → v < 2 ^ 16 → v / 256 % 256 ≡ v / 256
    high v h = omega arith

    count : length regs * 2 % 256 ≡ length regs * 2
    count = omega arith

    header :
        append_uint16_be (append_uint16_be (unit_id ∷ 16 ∷ []) addr) (length regs)
          ++ (length regs * 2 % 256 ∷ [])
        ≡ unit_id ∷ 16 ∷ (encode_be (addr ∷ length regs ∷ []) ++ (length regs * 2 ∷ []))
    header = cc (
      append_uint16_be_lem (unit_id ∷ 16 ∷ []) addr,
      append_uint16_be_lem (unit_id ∷ 16 ∷ addr / 256 % 256 ∷ addr % 256 ∷ []) (length regs),
      high addr ha,
      high (length regs) (omega arith),
      count,
    )

pub length-write_single_request :
    (unit_id addr value : ℕ) → length (write_single_request unit_id addr value) ≡ 8
unfolding write_single_request
length-write_single_request unit_id addr value = omega (
  arith,
  length-append_crc (append_uint16_be (append_uint16_be (unit_id ∷ 6 ∷ []) addr) value),
  length-append_uint16_be (append_uint16_be (unit_id ∷ 6 ∷ []) addr) value,
  length-append_uint16_be (unit_id ∷ 6 ∷ []) addr,
)

module _ {W : Type 0} (bus : W → ℕ → List ℕ → W × Exchange) (w : W) (ctx : Ctx) where
  -- Reading: when the port is open, the unit is a byte, 1 to 125 registers of 16 bits are asked
  -- and `out` has room for them, `write` takes the request and the line brings the slave's
  -- answer in any pieces, the function returns OK, and `out` starts with exactly the registers
  -- of the answer and is unchanged behind them.
  pub read_holding_registers_ok :
      (addr : ℕ) (regs out : List ℕ)
      → is_neg ctx.fd ≡ false
      → ctx.cfg.unit_id < 256
      → (0 < length regs) × (length regs ≤ max_read_registers)
      → IsWords regs
      → length regs ≤ length out
      → let req = read_request ctx.cfg.unit_id addr (length regs) in
        WritesAll bus w ctx req
        → Delivers (answer bus w ctx req).1.events (read_reply ctx.cfg.unit_id regs)
        → read_holding_registers bus w (some ctx) addr (length regs) (some out)
          ≡ ((answer bus w ctx req).0, client_ok, some (regs ++ drop (length regs) out))
  unfolding read_holding_registers
  read_holding_registers_ok addr regs out opened hu hn hr fits sent d =
      rw (in_range, opened, size, do_transaction-Delivers bus w ctx req 3 _ sent body refl d)
        (rw (accept_registers-read_reply ctx.cfg.unit_id regs out body fits))
    where
      in_range : out_of_range (length regs) max_read_registers ≡ false
      in_range = ground arith

      req : List ℕ
      req = read_request ctx.cfg.unit_id addr (length regs)

      body : IsBytes (read_reply_body ctx.cfg.unit_id regs)
      body = read_reply_body-IsBytes ctx.cfg.unit_id regs hu hr hn.1

      size : 3 + length regs * 2 + 2 ≡ length (read_reply ctx.cfg.unit_id regs)
      size =
          omega
            (arith, length-append_crc (read_reply_body ctx.cfg.unit_id regs), length-encode_be regs)

  -- Reading 1 to 125 registers with an open port: an answer of at most 5 bytes, such as an
  -- exception response, is never understood. The result is the timeout or the transport error,
  -- not the exception code, and `out` is unchanged.
  pub read_holding_registers_short :
      (addr qty : ℕ) (out : List ℕ)
      → is_neg ctx.fd ≡ false
      → (0 < qty) × (qty ≤ max_read_registers)
      → bytes_in (answer bus w ctx (read_request ctx.cfg.unit_id addr qty)).1.events ≤ 5
      → let (w', code, out') = read_holding_registers bus w (some ctx) addr qty (some out) in
        ((code ≡ err_timeout) ⊎ (code ≡ err_transport)) × (out' ≡ some out)
  unfolding read_holding_registers
  read_holding_registers_short addr qty out opened hq short = ground (
    arith,
    do_transaction_short bus w ctx (read_request ctx.cfg.unit_id addr qty) (3 + qty * 2 + 2),
  )

  -- Reading: when the function returns OK, the first 5 + 2 * qty bytes that the line brought are a
  -- whole frame whose CRC is right, from the unit asked, with function code 3 and byte count 2 * qty,
  -- and `out` holds the registers of that frame.
  pub read_holding_registers-IsAccepted :
      (addr qty : ℕ) (out : List ℕ) {out' : Option (List ℕ)} {w' : W}
      → read_holding_registers bus w (some ctx) addr qty (some out) ≡ (w', client_ok, out')
      → let n = 3 + qty * 2 + 2 in
        let req = read_request ctx.cfg.unit_id addr qty in
        let frame = take n (line_bytes (answer bus w ctx req).1.events) in
        IsAccepted ctx.cfg.unit_id n frame
        × (byte_at frame 1 ≡ 3)
        × (byte_at frame 2 ≡ qty * 2 % 256)
        × (out' ≡ some (copy_registers qty 0 frame out))
  unfolding read_holding_registers accept_registers
  read_holding_registers-IsAccepted addr qty out {out' = out'} e = as_the_line_brought (
    ground (arith, from_line),
    (
      ground (arith, accepted),
      ground (arith, accepted),
      ground (arith, accepted),
      ground (arith, accepted),
    ),
  )
    where
      n : ℕ
      n = 3 + qty * 2 + 2

      req : List ℕ
      req = read_request ctx.cfg.unit_id addr qty

      resp : List ℕ
      resp = (do_transaction bus w ctx req n).2

      frame : List ℕ
      frame = take n (line_bytes (answer bus w ctx req).1.events)

      accepted : (do_transaction bus w ctx req n).1 ≡ client_ok → IsAccepted ctx.cfg.unit_id n resp
      accepted = do_transaction-IsAccepted bus w ctx req n (omega arith)

      from_line : (do_transaction bus w ctx req n).1 ≡ client_ok → resp ≡ frame
      from_line = do_transaction-line_bytes bus w ctx req n

      Understood : List ℕ → Type 0
      Understood f =
          IsAccepted ctx.cfg.unit_id n f
          × (byte_at f 1 ≡ 3)
          × (byte_at f 2 ≡ qty * 2 % 256)
          × (out' ≡ some (copy_registers qty 0 f out))

      as_the_line_brought : (resp ≡ frame) × Understood resp → Understood frame
      as_the_line_brought (same, understood) = subst Understood same understood

  -- Writing one register with an open port: when `write` takes the request and the line brings
  -- any frame of eight bytes from the unit with function code 6 and a right CRC, the function
  -- returns OK; the address and the value that it echoes are not compared.
  pub write_single_register_ok :
      (addr value b c d e : ℕ)
      → is_neg ctx.fd ≡ false
      → IsBytes (ctx.cfg.unit_id ∷ b ∷ c ∷ d ∷ e ∷ [])
      → let req = write_single_request ctx.cfg.unit_id addr value in
        WritesAll bus w ctx req
        → Delivers
            (answer bus w ctx req).1.events
            (append_crc (ctx.cfg.unit_id ∷ 6 ∷ b ∷ c ∷ d ∷ e ∷ []))
        → write_single_register bus w (some ctx) addr value ≡ ((answer bus w ctx req).0, client_ok)
  unfolding write_single_register accept_echo
  write_single_register_ok addr value b c d e opened h sent del = rw (size) (
      rw (opened, do_transaction-Delivers bus w ctx req 6 _ sent body refl del)
        (rw (append_crc_lem (ctx.cfg.unit_id ∷ 6 ∷ b ∷ c ∷ d ∷ e ∷ []) body)))
    where
      req : List ℕ
      req = write_single_request ctx.cfg.unit_id addr value

      body : IsBytes (ctx.cfg.unit_id ∷ 6 ∷ b ∷ c ∷ d ∷ e ∷ [])
      body = (h.0, (omega arith, h.1))

      size : length req ≡ length (append_crc (ctx.cfg.unit_id ∷ 6 ∷ b ∷ c ∷ d ∷ e ∷ []))
      size = omega (
        arith,
        length-write_single_request ctx.cfg.unit_id addr value,
        length-append_crc (ctx.cfg.unit_id ∷ 6 ∷ b ∷ c ∷ d ∷ e ∷ []),
      )
