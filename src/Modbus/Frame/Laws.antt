-- ===== src/Modbus/Frame/Laws.antt =====
-- What the frame helpers build and accept, as arithmetic on bytes.
use loop_charger_inverter.Prelude.{
  ℕ, ◌+◌, ◌-◌, ◌*◌, ◌/◌, ◌%◌, ◌<◌, ◌≡◌, ap, ◌∙◌, true, List, [], ◌∷◌, ◌++◌, arith, get_or, length,
  length-append, take_append, get_or_append, le→ltb, ==_iff, ◌==◌, bit_and,
}
use loop_charger_inverter.Prelude.Bits.{bit_and_byte, bit_or_bytes}
use loop_charger_inverter.Modbus.Crc.{compute_crc16}
use loop_charger_inverter.Modbus.Crc.Register.{IsBytes, compute_crc16-lt}
use loop_charger_inverter.Modbus.Frame.{append_uint16_be, append_crc, verify_response_crc}

-- The two bytes that `append_uint16_be` writes.
pub append_uint16_be_lem :
    (buf : List ℕ) (v : ℕ) → append_uint16_be buf v ≡ buf ++ (v / 256 % 256 ∷ v % 256 ∷ [])
unfolding append_uint16_be
append_uint16_be_lem buf v =
    ap (λ b. buf ++ (v / 256 % 256 ∷ b ∷ [])) (omega (arith, bit_and_byte v))

-- The CRC bytes that `append_crc` writes to bytes: low, then high.
pub append_crc_lem :
    (buf : List ℕ)
    → IsBytes buf
    → append_crc buf ≡ buf ++ (compute_crc16 buf % 256 ∷ compute_crc16 buf / 256 ∷ [])
unfolding append_crc
append_crc_lem buf h = cc (low, high)
  where
    low : bit_and (compute_crc16 buf) 0xFF % 256 ≡ compute_crc16 buf % 256
    low = omega (arith, bit_and_byte (compute_crc16 buf))

    high : compute_crc16 buf / 256 % 256 ≡ compute_crc16 buf / 256
    high = omega (arith, compute_crc16-lt buf h)

-- The test of `verify_response_crc` on a body followed by two bytes.
pub verify_response_crc_lem :
    (body : List ℕ) (lo hi : ℕ)
    → lo < 256
    → verify_response_crc (body ++ (lo ∷ hi ∷ [])) (length body + 2)
      ≡ (compute_crc16 body == hi * 256 + lo)
unfolding verify_response_crc
verify_response_crc_lem body lo hi h =
    rw (le→ltb (length body + 2) 2 (omega arith))
      (rw (end, last, take_append body _, at_lo, at_hi, bit_or_bytes lo hi h))
  where
    end : length body + 2 - 2 ≡ length body
    end = omega arith

    last : length body + 2 - 1 ≡ length body + 1
    last = omega arith

    at_lo : get_or (body ++ (lo ∷ hi ∷ [])) (length body) 0 ≡ lo
    at_lo = ap (λ k. get_or (body ++ (lo ∷ hi ∷ [])) k 0) (omega arith) ∙ get_or_append body _ 0 0

    at_hi : get_or (body ++ (lo ∷ hi ∷ [])) (length body + 1) 0 ≡ hi
    at_hi = get_or_append body _ 1 0

-- Every frame of bytes that `append_crc` closes passes `verify_response_crc`.
pub verify-append_crc :
    (body : List ℕ)
    → IsBytes body
    → verify_response_crc (append_crc body) (length (append_crc body)) ≡ true
verify-append_crc body h =
    rw (append_crc_lem body h, length-append body _)
      (verify_response_crc_lem body (compute_crc16 body % 256) (compute_crc16 body / 256)
          (omega arith)
        ∙ (==_iff (compute_crc16 body) _).1 (omega arith))

pub length-append_crc : (buf : List ℕ) → length (append_crc buf) ≡ length buf + 2
unfolding append_crc
length-append_crc buf = length-append buf _

pub length-append_uint16_be :
    (buf : List ℕ) (v : ℕ) → length (append_uint16_be buf v) ≡ length buf + 2
unfolding append_uint16_be
length-append_uint16_be buf v = length-append buf _
