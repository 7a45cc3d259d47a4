-- ===== src/Prelude/Bits/Digits.antt =====
-- The native bit operations stand for a recursion over the digits of their first argument, with
-- that argument as its count of rounds. Rounds past the last digit change nothing.
use Prim.Native.Nat.{
  ℕ, zero, suc, ◌+◌, ◌-◌, ◌*◌, ◌/◌, ◌%◌, ◌≤◌, min, max, digits, differ, bit_and, bit_or, bit_xor,
  bit_and-bitwise, bit_or-bitwise, bit_xor-bitwise,
}
use mathlib.Core.Path.{◌≡◌, refl, ◌∙◌, ap}
use native.Mathlib.Nat.{suc-add}
use Prim.Native.Nat.add
use native.Mathlib.Omega.{arith}

module _ (rest : ℕ → ℕ) (op : ℕ → ℕ → ℕ) where
  abbrev rounds : ℕ → ℕ → ℕ → ℕ
  rounds = digits rest op

  one_more : (n a b : ℕ) → a ≤ n → rounds (suc n) a b ≡ rounds n a b
  one_more zero zero b h = refl
  one_more (suc n) zero b h = refl
  one_more zero (suc a) b h = elim h [ ]
  one_more (suc n) (suc a) b h =
      ap (λ t. t * 2 + op (suc a % 2) (b % 2)) (one_more n (suc a / 2) (b / 2) (omega arith))

  many_more : (k n a b : ℕ) → a ≤ n → rounds (k + n) a b ≡ rounds n a b
  many_more zero n a b h = rw (add.zero n)
  many_more (suc k) n a b h = rw suc-add (one_more (k + n) a b (omega arith) ∙ many_more k n a b h)

  first_digit :
      (a b : ℕ)
      → rounds (suc a) (suc a) b
        ≡ rounds (suc a / 2) (suc a / 2) (b / 2) * 2 + op (suc a % 2) (b % 2)
  first_digit a b =
      ap (λ t. t * 2 + op (suc a % 2) (b % 2))
        (ap (λ n. rounds n (suc a / 2) (b / 2)) (split)
          ∙ many_more (a - suc a / 2) (suc a / 2) (suc a / 2) (b / 2) (omega arith))
    where
      split : a ≡ a - suc a / 2 + suc a / 2
      split = omega arith

pub bit_and_digit : (a b : ℕ) → bit_and a b ≡ bit_and (a / 2) (b / 2) * 2 + min (a % 2) (b % 2)
bit_and_digit zero b = simp bit_and-bitwise (omega arith)
bit_and_digit (suc a) b = simp bit_and-bitwise (first_digit (λ _. 0) min a b)

pub bit_or_digit : (a b : ℕ) → bit_or a b ≡ bit_or (a / 2) (b / 2) * 2 + max (a % 2) (b % 2)
bit_or_digit zero b = simp bit_or-bitwise (omega arith)
bit_or_digit (suc a) b = simp bit_or-bitwise (first_digit (λ y. y) max a b)

pub bit_xor_digit : (a b : ℕ) → bit_xor a b ≡ bit_xor (a / 2) (b / 2) * 2 + differ (a % 2) (b % 2)
bit_xor_digit zero b = simp bit_xor-bitwise (omega arith)
bit_xor_digit (suc a) b = simp bit_xor-bitwise (first_digit (λ y. y) differ a b)
