-- ===== src/Cmos/Text/Decimal.antt =====
-- `%d` and `%u` of printf, at numbers that are not negative.
use loop_charger_inverter.Prelude.{
  ℕ, zero, suc, ◌∙◌, ap, ◌-◌, ◌*◌, ◌^◌, ◌+◌, ◌/◌, ◌%◌, ◌<◌, ◌≤◌, ◌≡◌, List, [], ◌∷◌, All, arith,
  length, ltb, if◌then◌else◌, Bool-cases, inl, inr, lt→ltb,
}
use native.Mathlib.Nat.{pow-suc}

-- The digits of a number in front of those printed already, with a bound on their count.
unfoldable pub decimal_loop : ℕ → ℕ → List ℕ → List ℕ
decimal_loop zero n digits = digits
decimal_loop (suc rounds) n digits =
    let more = decimal_loop rounds (n / 10) ((b'0' + n % 10) ∷ digits) in
    if ltb n 10 then (b'0' + n) ∷ digits else more

-- No number has more digits than the rounds given.
unfoldable pub decimal : ℕ → List ℕ
unfolding decimal_loop
decimal n = decimal_loop (suc n) n []

-- The number that digits stand for, behind digits that stand for `v`.
abbrev horner : ℕ → List ℕ → ℕ
horner v [] = v
horner v (d ∷ ds) = horner (v * 10 + (d - b'0')) ds

decimal_loop-horner :
    (rounds n : ℕ) (digits : List ℕ)
    → n < rounds
    → horner 0 (decimal_loop rounds n digits) ≡ horner n digits
unfolding decimal_loop
decimal_loop-horner zero n digits h = absurd (omega arith)
decimal_loop-horner (suc rounds) n digits h = elim (Bool-cases (ltb n 10)) [
  | inl small ↦ rw (decimal_loop, small) (ap (λ v. horner v digits) (omega arith))
  | inr large ↦
      rw (decimal_loop, large)
        (decimal_loop-horner rounds (n / 10) ((b'0' + n % 10) ∷ digits) (ground arith)
          ∙ ap (λ v. horner v digits) (omega arith))
]

-- The rounds are enough: the digits of a number stand for it.
pub decimal-horner : (n : ℕ) → horner 0 (decimal n) ≡ n
unfolding decimal
decimal-horner n = decimal_loop-horner (suc n) n [] (omega arith)

abbrev pub IsDigit : ℕ → Type 0
IsDigit b = (b'0' ≤ b) × (b ≤ b'9')

decimal_loop-IsDigit :
    (rounds n : ℕ) (digits : List ℕ)
    → All IsDigit digits
    → All IsDigit (decimal_loop rounds n digits)
unfolding decimal_loop
decimal_loop-IsDigit zero n digits h = h
decimal_loop-IsDigit (suc rounds) n digits h = elim (Bool-cases (ltb n 10)) [
  | inl small ↦ rw (decimal_loop, small) (ground arith)
  | inr large ↦
      rw (decimal_loop, large)
        (decimal_loop-IsDigit rounds (n / 10) ((b'0' + n % 10) ∷ digits) (ground arith))
]

pub decimal-IsDigit : (n : ℕ) → All IsDigit (decimal n)
unfolding decimal
decimal-IsDigit n = decimal_loop-IsDigit (suc n) n [] tt

length-decimal_loop :
    (rounds n k : ℕ) (digits : List ℕ)
    → n < 10 ^ suc k
    → length (decimal_loop rounds n digits) ≤ suc k + length digits
unfolding decimal_loop
length-decimal_loop zero n k digits h = omega arith
length-decimal_loop (suc rounds) n zero digits h =
    rw (decimal_loop, lt→ltb n 10 (omega arith)) (omega arith)
length-decimal_loop (suc rounds) n (suc k) digits h = elim (Bool-cases (ltb n 10)) [
  | inl small ↦ rw (decimal_loop, small) (omega arith)
  | inr large ↦
      rw (decimal_loop, large)
        (omega (
          arith,
          length-decimal_loop rounds (n / 10) k ((b'0' + n % 10) ∷ digits)
              (omega (arith, pow-suc 10 (suc k))),
        ))
]

-- A register value has at most five digits.
pub length-decimal : (n : ℕ) → n < 2 ^ 16 → length (decimal n) ≤ 5
unfolding decimal
length-decimal n h = omega (arith, length-decimal_loop (suc n) n 4 [] (omega arith))
