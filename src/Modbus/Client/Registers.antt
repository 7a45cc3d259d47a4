-- ===== src/Modbus/Client/Registers.antt =====
-- Registers on the wire: two bytes each, high first.
use mathlib.Core.List.{append_assoc, append-nil}
use loop_charger_inverter.Prelude.{
  ℕ, ◌+◌, ◌*◌, ◌/◌, ◌%◌, ◌^◌, ◌≤◌, ◌<◌, ◌≡◌, refl, sym, ap, ◌∙◌, List, [], ◌∷◌, ◌++◌, All, arith,
  length, length-append, get_or, set, drop, get_or_append, set_append, bit_or,
}
use loop_charger_inverter.Prelude.Bits.{bit_or_word}
use loop_charger_inverter.Modbus.Crc.Register.{IsBytes}
use loop_charger_inverter.Modbus.Frame.{byte_at, append_uint16_be}
use loop_charger_inverter.Modbus.Frame.Laws.{append_uint16_be_lem}
use loop_charger_inverter.Modbus.Client.{append_registers, copy_registers}

-- Every element is a 16-bit register value.
abbrev pub IsWords : List ℕ → Type 0
IsWords regs = All (λ r. r < 2 ^ 16) regs

abbrev pub encode_be : List ℕ → List ℕ
encode_be [] = []
encode_be (r ∷ regs) = r / 256 ∷ r % 256 ∷ encode_be regs

pub length-encode_be : (regs : List ℕ) → length (encode_be regs) ≡ length regs * 2
length-encode_be [] = refl
length-encode_be (r ∷ regs) = omega (arith, length-encode_be regs)

pub encode_be-IsBytes : (regs : List ℕ) → IsWords regs → IsBytes (encode_be regs)
encode_be-IsBytes [] h = h
encode_be-IsBytes (r ∷ regs) h = (omega arith, (omega arith, encode_be-IsBytes regs h.1))

-- What one round of the copy reads.
read_word :
    (before after : List ℕ) (r k : ℕ)
    → length before ≡ k
    → bit_or
        (byte_at (before ++ (r / 256 ∷ r % 256 ∷ after)) k * 256)
        (byte_at (before ++ (r / 256 ∷ r % 256 ∷ after)) (k + 1))
      ≡ r
read_word before after r k e =
    rw (hi, lo, bit_or_word (r / 256) (r % 256) (omega arith)) (omega arith)
  where
    hi : byte_at (before ++ (r / 256 ∷ r % 256 ∷ after)) k ≡ r / 256
    hi =
        ap (λ n. byte_at (before ++ (r / 256 ∷ r % 256 ∷ after)) n) (omega arith)
        ∙ get_or_append before _ 0 0

    lo : byte_at (before ++ (r / 256 ∷ r % 256 ∷ after)) (k + 1) ≡ r % 256
    lo =
        ap (λ n. byte_at (before ++ (r / 256 ∷ r % 256 ∷ after)) n) (omega arith)
        ∙ get_or_append before _ 1 0

-- The copy of encoded registers puts them into `out` in order and leaves what lies behind them.
pub copy_registers-encode_be :
    (regs before after filled free : List ℕ) (i : ℕ)
    → length before ≡ 3 + i * 2
    → length filled ≡ i
    → length regs ≤ length free
    → copy_registers (length regs) i (before ++ (encode_be regs ++ after)) (filled ++ free)
      ≡ filled ++ (regs ++ drop (length regs) free)
unfolding copy_registers
copy_registers-encode_be [] before after filled free i p q h = refl
copy_registers-encode_be (r ∷ regs) before after filled [] i p q h = absurd (omega arith)
copy_registers-encode_be (r ∷ regs) before after filled (x ∷ free) i p q h =
    ap (λ v. copy_registers (length regs) (i + 1) resp (set (filled ++ (x ∷ free)) i v))
      (read_word before (encode_be regs ++ after) r (3 + i * 2) p)
    ∙ ap (λ (l : List ℕ). copy_registers (length regs) (i + 1) resp l) placed
    ∙ ap (λ (l : List ℕ). copy_registers (length regs) (i + 1) l ((filled ++ (r ∷ [])) ++ free))
        (sym (append_assoc before word (encode_be regs ++ after)))
    ∙ copy_registers-encode_be regs (before ++ word) after (filled ++ (r ∷ [])) free (i + 1)
        (omega (arith, length-append before word)) (omega (arith, length-append filled (r ∷ [])))
        (omega arith)
    ∙ append_assoc filled (r ∷ []) (regs ++ drop (length regs) free)
  where
    word : List ℕ
    word = r / 256 ∷ r % 256 ∷ []

    resp : List ℕ
    resp = before ++ (r / 256 ∷ r % 256 ∷ (encode_be regs ++ after))

    placed : set (filled ++ (x ∷ free)) i r ≡ (filled ++ (r ∷ [])) ++ free
    placed =
        ap (λ k. set (filled ++ (x ∷ free)) k r) (sym q)
        ∙ set_append filled free x r
        ∙ sym (append_assoc filled (r ∷ []) free)

-- The loop that appends registers appends their encoding.
pub append_registers-encode_be :
    (regs passed buf : List ℕ) (i : ℕ)
    → length passed ≡ i
    → IsWords regs
    → append_registers (length regs) i (passed ++ regs) buf ≡ buf ++ encode_be regs
unfolding append_registers
append_registers-encode_be [] passed buf i p h = sym (append-nil buf)
append_registers-encode_be (r ∷ regs) passed buf i p h =
    ap (λ v. append_registers (length regs) (i + 1) (passed ++ (r ∷ regs)) (append_uint16_be buf v))
      this
    ∙ ap (λ (l : List ℕ). append_registers (length regs) (i + 1) l (append_uint16_be buf r))
        (sym (append_assoc passed (r ∷ []) regs))
    ∙ append_registers-encode_be regs (passed ++ (r ∷ [])) (append_uint16_be buf r) (i + 1)
        (omega (arith, length-append passed (r ∷ []))) h.1
    ∙ ap (λ l. l ++ encode_be regs) (append_uint16_be_lem buf r)
    ∙ append_assoc buf (r / 256 % 256 ∷ r % 256 ∷ []) (encode_be regs)
    ∙ ap (λ b. buf ++ (b ∷ r % 256 ∷ encode_be regs)) (omega arith)
  where
    this : get_or (passed ++ (r ∷ regs)) i 0 ≡ r
    this = ap (λ k. get_or (passed ++ (r ∷ regs)) k 0) (omega arith) ∙ get_or_append passed _ 0 0
