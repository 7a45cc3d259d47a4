-- ===== src/Modbus/Crc/Register.antt =====
-- The 16-bit shift register of the CRC: its range, and how its steps are undone.
use loop_charger_inverter.Prelude.{
  ℕ, ◌+◌, ◌*◌, ◌/◌, ◌^◌, ◌≤◌, ◌<◌, ◌≡◌, refl, sym, ap, ◌∙◌, List, [], ◌∷◌, ◌++◌, All, arith, ltb,
  if◌then◌else◌, bit_xor,
}
use loop_charger_inverter.Prelude.Bits.{
  bit_and-one, bit_xor-lt-pow, bit_xor_cancel, bit_xor_fields, zero-bit_xor, bit_xor_comm,
}
use loop_charger_inverter.Modbus.Crc.{
  crc_polynomial, crc_init, crc_bit, crc_eight, crc_byte, crc_from, compute_crc16,
}

-- Every element is one byte.
abbrev pub IsBytes : List ℕ → Type 0
IsBytes bytes = All (λ b. b < 256) bytes

crc_bit-lt : (c : ℕ) → c < 2 ^ 16 → crc_bit c < 2 ^ 16
unfolding crc_bit
crc_bit-lt c h = ground (arith, bit_xor-lt-pow 16 (c / 2) crc_polynomial)

crc_eight-lt : (c : ℕ) → c < 2 ^ 16 → crc_eight c < 2 ^ 16
unfolding crc_eight
crc_eight-lt c h = twice (λ x. crc_bit (crc_bit (crc_bit (crc_bit x)))) four c h
  where
    twice :
        (f : ℕ → ℕ)
        → ((x : ℕ) → x < 2 ^ 16 → f x < 2 ^ 16)
        → (x : ℕ) → x < 2 ^ 16
        → f (f x) < 2 ^ 16
    twice f keeps x p = keeps (f x) (keeps x p)

    four : (x : ℕ) → x < 2 ^ 16 → crc_bit (crc_bit (crc_bit (crc_bit x))) < 2 ^ 16
    four = twice (λ x. crc_bit (crc_bit x)) (twice crc_bit crc_bit-lt)

pub crc_byte-lt : (c b : ℕ) → c < 2 ^ 16 → b < 256 → crc_byte c b < 2 ^ 16
unfolding crc_byte
crc_byte-lt c b p q = crc_eight-lt (bit_xor c b) (bit_xor-lt-pow 16 c b p (omega arith))

pub crc_from-lt : (c : ℕ) (bytes : List ℕ) → c < 2 ^ 16 → IsBytes bytes → crc_from c bytes < 2 ^ 16
unfolding crc_from
crc_from-lt c [] h bs = h
crc_from-lt c (b ∷ bytes) h bs = crc_from-lt (crc_byte c b) bytes (crc_byte-lt c b h bs.0) bs.1

-- The CRC of bytes is a 16-bit number.
pub compute_crc16-lt : (bytes : List ℕ) → IsBytes bytes → compute_crc16 bytes < 2 ^ 16
unfolding compute_crc16
compute_crc16-lt bytes h = crc_from-lt crc_init bytes (omega arith) h

pub crc_from-append : (c : ℕ) (xs ys : List ℕ) → crc_from c (xs ++ ys) ≡ crc_from (crc_from c xs) ys
unfolding crc_from
crc_from-append c [] ys = refl
crc_from-append c (x ∷ xs) ys = crc_from-append (crc_byte c x) xs ys

-- The top bit of a stepped register tells which branch was taken.
undo_bit : ℕ → ℕ
undo_bit r = if ltb r 0x8000 then r * 2 else bit_xor r crc_polynomial * 2 + 1

xor_top : (h : ℕ) → h < 0x8000 → 0x8000 ≤ bit_xor h crc_polynomial
xor_top h p = ground (arith, bit_xor_fields 15 0 h 1 0x2001 p (omega arith), zero-bit_xor 1)

undo_bit-crc_bit : (c : ℕ) → c < 2 ^ 16 → undo_bit (crc_bit c) ≡ c
unfolding undo_bit crc_bit
undo_bit-crc_bit c h =
    ground (arith, bit_and-one c, bit_xor_cancel (c / 2) crc_polynomial, xor_top (c / 2))

-- The register before a step is determined by the register after it.
pub crc_bit_injective : (c d : ℕ) → c < 2 ^ 16 → d < 2 ^ 16 → crc_bit c ≡ crc_bit d → c ≡ d
crc_bit_injective c d p q e = sym (undo_bit-crc_bit c p) ∙ ap undo_bit e ∙ undo_bit-crc_bit d q

abbrev pub InjectsWords : (ℕ → ℕ) → Type 0
InjectsWords f =
    ((c : ℕ) → c < 2 ^ 16 → f c < 2 ^ 16)
    × ((c d : ℕ) → c < 2 ^ 16 → d < 2 ^ 16 → f c ≡ f d → c ≡ d)

InjectsWords-twice : (f : ℕ → ℕ) → InjectsWords f → InjectsWords (λ c. f (f c))
InjectsWords-twice f h =
    (λ c p. h.0 (f c) (h.0 c p), λ c d p q e. h.1 c d p q (h.1 (f c) (f d) (h.0 c p) (h.0 d q) e))

crc_bit-InjectsWords : InjectsWords crc_bit
crc_bit-InjectsWords = (crc_bit-lt, crc_bit_injective)

pub crc_eight-InjectsWords : InjectsWords crc_eight
unfolding crc_eight
crc_eight-InjectsWords =
    InjectsWords-twice (λ c. crc_bit (crc_bit (crc_bit (crc_bit c))))
      (InjectsWords-twice (λ c. crc_bit (crc_bit c))
        (InjectsWords-twice crc_bit crc_bit-InjectsWords))

-- One byte step determines the register before it, and, for one register, the byte.
pub crc_byte_injective :
    (c d b : ℕ) → c < 2 ^ 16 → d < 2 ^ 16 → b < 256 → crc_byte c b ≡ crc_byte d b → c ≡ d
unfolding crc_byte
crc_byte_injective c d b p q r e =
    sym (bit_xor_cancel c b p (omega arith))
    ∙ ap (λ t. bit_xor t b) same
    ∙ bit_xor_cancel d b q (omega arith)
  where
    same : bit_xor c b ≡ bit_xor d b
    same =
        crc_eight-InjectsWords.1 (bit_xor c b) (bit_xor d b) (bit_xor-lt-pow 16 c b p (omega arith))
          (bit_xor-lt-pow 16 d b q (omega arith)) e

pub crc_byte_injective_byte :
    (c a b : ℕ) → c < 2 ^ 16 → a < 256 → b < 256 → crc_byte c a ≡ crc_byte c b → a ≡ b
unfolding crc_byte
crc_byte_injective_byte c a b p q r e =
    sym (bit_xor_cancel a c (omega arith) p)
    ∙ ap (λ t. bit_xor t c) (bit_xor_comm a c ∙ same ∙ bit_xor_comm c b)
    ∙ bit_xor_cancel b c (omega arith) p
  where
    same : bit_xor c a ≡ bit_xor c b
    same =
        crc_eight-InjectsWords.1 (bit_xor c a) (bit_xor c b) (bit_xor-lt-pow 16 c a p (omega arith))
          (bit_xor-lt-pow 16 c b p (omega arith)) e
