-- ===== src/Modbus/Crc/Detect.antt =====
-- The CRC of messages that differ in two neighbouring bytes.
use loop_charger_inverter.Prelude.{
  ℕ, ◌*◌, ◌/◌, ◌^◌, ◌<◌, ◌≡◌, ◌∙◌, sym, ap, List, [], ◌∷◌, ◌++◌, arith, bit_xor,
}
use loop_charger_inverter.Prelude.Bits.{
  bit_and-one, bit_xor_parity, bit_xor_assoc, bit_xor_comm, bit_xor_bytes, bit_xor_cancel,
  bit_xor-lt-pow,
}
use loop_charger_inverter.Modbus.Crc.{
  crc_init, crc_polynomial, crc_bit, crc_eight, crc_byte, crc_from, compute_crc16,
}
use loop_charger_inverter.Modbus.Crc.Register.{
  IsBytes, crc_from-append, crc_from-lt, crc_byte-lt, crc_byte_injective, crc_eight-InjectsWords,
}

-- A bit above the lowest one only moves down.
crc_bit_xor : (x y : ℕ) → crc_bit (bit_xor x (y * 2)) ≡ bit_xor (crc_bit x) y
unfolding crc_bit
crc_bit_xor x y = ground (
  arith,
  bit_and-one x,
  bit_and-one (bit_xor x (y * 2)),
  bit_xor_parity x (y * 2),
  bit_xor_assoc (x / 2) y crc_polynomial,
  bit_xor_comm y crc_polynomial,
  bit_xor_assoc (x / 2) crc_polynomial y,
)

-- `f` moves a field that starts at `m` down to the lowest bit.
abbrev Shifts : ℕ → (ℕ → ℕ) → Type 0
Shifts m f = (x y : ℕ) → f (bit_xor x (y * m)) ≡ bit_xor (f x) y

Shifts-twice : (m : ℕ) (f : ℕ → ℕ) → Shifts m f → Shifts (m * m) (λ x. f (f x))
Shifts-twice m f h x y = ap (λ t. f (f (bit_xor x t))) (regroup) ∙ ap f (h x (y * m)) ∙ h (f x) y
  where
    regroup : y * (m * m) ≡ y * m * m
    regroup = omega arith

crc_eight_xor : (x y : ℕ) → crc_eight (bit_xor x (y * 256)) ≡ bit_xor (crc_eight x) y
unfolding crc_eight
crc_eight_xor =
    Shifts-twice 16 (λ c. crc_bit (crc_bit (crc_bit (crc_bit c))))
      (Shifts-twice 4 (λ c. crc_bit (crc_bit c)) (Shifts-twice 2 crc_bit crc_bit_xor))

-- Two bytes enter the register as one 16-bit word.
crc_two_bytes :
    (c a b : ℕ)
    → crc_byte (crc_byte c a) b ≡ crc_eight (crc_eight (bit_xor c (bit_xor a (b * 256))))
unfolding crc_byte
crc_two_bytes c a b =
    ap crc_eight (sym (crc_eight_xor (bit_xor c a) b) ∙ ap crc_eight (bit_xor_assoc c a (b * 256)))

crc_two_bytes_injective :
    (c a b a' b' : ℕ)
    → c < 2 ^ 16
    → a < 256
    → b < 256
    → a' < 256
    → b' < 256
    → crc_byte (crc_byte c a) b ≡ crc_byte (crc_byte c a') b'
    → (a ≡ a') × (b ≡ b')
crc_two_bytes_injective c a b a' b' hc ha hb ha' hb' e =
    omega (arith, bit_xor_bytes a b, bit_xor_bytes a' b', words)
  where
    word-lt : (lo hi : ℕ) → lo < 256 → hi < 256 → bit_xor lo (hi * 256) < 2 ^ 16
    word-lt lo hi p q = omega (arith, bit_xor_bytes lo hi)

    range : (lo hi : ℕ) → lo < 256 → hi < 256 → bit_xor c (bit_xor lo (hi * 256)) < 2 ^ 16
    range lo hi p q = bit_xor-lt-pow 16 c (bit_xor lo (hi * 256)) hc (word-lt lo hi p q)

    once :
        crc_eight (bit_xor c (bit_xor a (b * 256))) ≡ crc_eight (bit_xor c (bit_xor a' (b' * 256)))
    once =
        crc_eight-InjectsWords.1 _ _ (crc_eight-InjectsWords.0 _ (range a b ha hb))
          (crc_eight-InjectsWords.0 _ (range a' b' ha' hb'))
          (sym (crc_two_bytes c a b) ∙ e ∙ crc_two_bytes c a' b')

    mixed : bit_xor c (bit_xor a (b * 256)) ≡ bit_xor c (bit_xor a' (b' * 256))
    mixed = crc_eight-InjectsWords.1 _ _ (range a b ha hb) (range a' b' ha' hb') once

    recover : (w : ℕ) → w < 2 ^ 16 → bit_xor (bit_xor c w) c ≡ w
    recover w p = ap (λ t. bit_xor t c) (bit_xor_comm c w) ∙ bit_xor_cancel w c p hc

    words : bit_xor a (b * 256) ≡ bit_xor a' (b' * 256)
    words =
        sym (recover _ (word-lt a b ha hb))
        ∙ ap (λ t. bit_xor t c) mixed
        ∙ recover _ (word-lt a' b' ha' hb')

crc_from_injective :
    (c d : ℕ) (bytes : List ℕ)
    → c < 2 ^ 16
    → d < 2 ^ 16
    → IsBytes bytes
    → crc_from c bytes ≡ crc_from d bytes
    → c ≡ d
unfolding crc_from
crc_from_injective c d [] p q h e = e
crc_from_injective c d (b ∷ bytes) p q h e = crc_byte_injective c d b p q h.0 (
    crc_from_injective (crc_byte c b) (crc_byte d b) bytes (crc_byte-lt c b p h.0)
      (crc_byte-lt d b q h.0) h.1 e)

-- Two messages of bytes that differ in two neighbouring bytes at most, and have the same CRC, are
-- equal: an error burst inside two bytes changes the CRC.
pub compute_crc16_burst :
    (before after : List ℕ) (a b a' b' : ℕ)
    → IsBytes before
    → IsBytes after
    → (a < 256) × (b < 256) × (a' < 256) × (b' < 256)
    → compute_crc16 (before ++ (a ∷ b ∷ after)) ≡ compute_crc16 (before ++ (a' ∷ b' ∷ after))
    → (a ≡ a') × (b ≡ b')
unfolding compute_crc16 crc_from
compute_crc16_burst before after a b a' b' hb ha h e =
    crc_two_bytes_injective c a b a' b' reg h.0 h.1 h.2 h.3 (
      crc_from_injective _ _ after (pair-lt a b h.0 h.1) (pair-lt a' b' h.2 h.3) ha
        (sym (crc_from-append crc_init before _) ∙ e ∙ crc_from-append crc_init before _))
  where
    c : ℕ
    c = crc_from crc_init before

    reg : c < 2 ^ 16
    reg = crc_from-lt crc_init before (omega arith) hb

    pair-lt : (x y : ℕ) → x < 256 → y < 256 → crc_byte (crc_byte c x) y < 2 ^ 16
    pair-lt x y p q = crc_byte-lt (crc_byte c x) y (crc_byte-lt c x reg p) q
