-- ===== src/Prelude/Bits.antt =====
-- `&`, `|` and `^` at variables: the law of the lowest digit, and what follows from it for masks,
-- bit fields and cancellation. The native operations compute at numerals alone.
mod Digits
pub use Digits.{bit_and_digit, bit_or_digit, bit_xor_digit}
use Prim.Native.Nat.{ℕ, zero, suc, ◌+◌, ◌-◌, ◌*◌, ◌/◌, ◌%◌, ◌^◌, ◌≤◌, ◌<◌}
use Prim.Native.Nat.{
  bit_and, bit_or, bit_xor, differ, bit_xor-bitwise, bit_and-bitwise, bit_or-bitwise,
}
use mathlib.Core.Path.{◌≡◌, refl, sym, ap}
use native.Mathlib.Nat.{pow-suc, one-le-pow}
use native.Mathlib.Omega.{arith}

pub zero-bit_xor : (b : ℕ) → bit_xor 0 b ≡ b
zero-bit_xor b = bit_xor-bitwise 0 b

zero-bit_and : (b : ℕ) → bit_and 0 b ≡ 0
zero-bit_and b = bit_and-bitwise 0 b

zero-bit_or : (b : ℕ) → bit_or 0 b ≡ b
zero-bit_or b = bit_or-bitwise 0 b

differ-bit : (a b : ℕ) → a < 2 → b < 2 → differ a b ≡ (a + b) % 2
differ-bit zero b p q = omega arith
differ-bit (suc zero) zero p q = refl
differ-bit (suc zero) (suc zero) p q = refl
differ-bit (suc zero) (suc (suc b)) p q = absurd (omega arith)
differ-bit (suc (suc a)) b p q = absurd (omega arith)

-- The exclusive or, a digit at a time, in terms that `omega` reads.
pub bit_xor_parity : (a b : ℕ) → bit_xor a b ≡ bit_xor (a / 2) (b / 2) * 2 + (a % 2 + b % 2) % 2
bit_xor_parity a b = omega (arith, bit_xor_digit a b, differ-bit (a % 2) (b % 2))

bit_xor_self_below : (n a : ℕ) → a ≤ n → bit_xor a a ≡ 0
bit_xor_self_below zero a h = let e : a ≡ 0 = omega arith in rw e (zero-bit_xor 0)
bit_xor_self_below (suc n) zero h = zero-bit_xor 0
bit_xor_self_below (suc n) (suc a) h =
    omega (arith, bit_xor_parity (suc a) (suc a), bit_xor_self_below n (suc a / 2) (omega arith))

pub bit_xor_self : (a : ℕ) → bit_xor a a ≡ 0
bit_xor_self a = bit_xor_self_below a a (omega arith)

zero_right_below : (n a : ℕ) → a ≤ n → (bit_xor a 0 ≡ a) × (bit_and a 0 ≡ 0)
zero_right_below n zero h = (zero-bit_xor 0, zero-bit_and 0)
zero_right_below zero (suc a) h = elim h [ ]
zero_right_below (suc n) (suc a) h = omega (
  arith,
  bit_xor_parity (suc a) 0,
  bit_and_digit (suc a) 0,
  zero_right_below n (suc a / 2) (omega arith),
)

bit_xor_comm_below : (n a b : ℕ) → a ≤ n → bit_xor a b ≡ bit_xor b a
bit_xor_comm_below n zero b h = omega (arith, zero-bit_xor b, zero_right_below b b)
bit_xor_comm_below zero (suc a) b h = elim h [ ]
bit_xor_comm_below (suc n) (suc a) b h = omega (
  arith,
  bit_xor_parity (suc a) b,
  bit_xor_parity b (suc a),
  bit_xor_comm_below n (suc a / 2) (b / 2) (omega arith),
)

pub bit_xor_comm : (a b : ℕ) → bit_xor a b ≡ bit_xor b a
bit_xor_comm a b = bit_xor_comm_below a a b (omega arith)

bit_xor_assoc_below : (n a b c : ℕ) → a ≤ n → bit_xor (bit_xor a b) c ≡ bit_xor a (bit_xor b c)
bit_xor_assoc_below n zero b c h = rw (zero-bit_xor b) (sym (zero-bit_xor (bit_xor b c)))
bit_xor_assoc_below zero (suc a) b c h = elim h [ ]
bit_xor_assoc_below (suc n) (suc a) b c h = ground (
  arith,
  halves (suc a) b,
  halves b c,
  bit_xor_parity (suc a) b,
  bit_xor_parity b c,
  bit_xor_parity (bit_xor (suc a) b) c,
  bit_xor_parity (suc a) (bit_xor b c),
  bit_xor_assoc_below n (suc a / 2) (b / 2) (c / 2) (omega arith),
)
  where
    halves : (x y : ℕ) → bit_xor x y / 2 ≡ bit_xor (x / 2) (y / 2)
    halves x y = omega (arith, bit_xor_parity x y)

pub bit_xor_assoc : (a b c : ℕ) → bit_xor (bit_xor a b) c ≡ bit_xor a (bit_xor b c)
bit_xor_assoc a b c = bit_xor_assoc_below a a b c (omega arith)

pow-double : (q k : ℕ) → q * 2 ^ suc k ≡ 2 * (q * 2 ^ k)
pow-double q k = omega (arith, ap (λ (t : ℕ). q * t) (pow-suc 2 k))

-- The exclusive or of two numbers of `k` bits has `k` bits.
pub bit_xor-lt-pow : (k a b : ℕ) → a < 2 ^ k → b < 2 ^ k → bit_xor a b < 2 ^ k
bit_xor-lt-pow zero a b p q = let e : a ≡ 0 = omega arith in rw e (omega (arith, zero-bit_xor b))
bit_xor-lt-pow (suc k) a b p q = omega (
  arith,
  pow-suc 2 k,
  bit_xor_parity a b,
  bit_xor-lt-pow k (a / 2) (b / 2) (omega (arith, pow-suc 2 k)) (omega (arith, pow-suc 2 k)),
)

-- A second exclusive or with the same number takes the first back.
bit_xor_cancel_bits : (k a b : ℕ) → a < 2 ^ k → b < 2 ^ k → bit_xor (bit_xor a b) b ≡ a
bit_xor_cancel_bits zero a b p q =
    let e : a ≡ 0 = omega arith in let f : b ≡ 0 = omega arith in rw e (rw f refl)
bit_xor_cancel_bits (suc k) a b p q = ground (
  arith,
  half,
  bit_xor_parity a b,
  bit_xor_parity (bit_xor a b) b,
  bit_xor_cancel_bits k (a / 2) (b / 2) (omega (arith, pow-suc 2 k)) (omega (arith, pow-suc 2 k)),
)
  where
    half : bit_xor a b / 2 ≡ bit_xor (a / 2) (b / 2)
    half = omega (arith, bit_xor_parity a b)

pub bit_xor_cancel : (a b : ℕ) → a < 2 ^ 16 → b < 2 ^ 16 → bit_xor (bit_xor a b) b ≡ a
bit_xor_cancel a b p q = bit_xor_cancel_bits 16 a b p q

-- The exclusive or works on a high and a low field on their own.
pub bit_xor_fields :
    (k q r q' r' : ℕ)
    → r < 2 ^ k
    → r' < 2 ^ k
    → bit_xor (q * 2 ^ k + r) (q' * 2 ^ k + r') ≡ bit_xor q q' * 2 ^ k + bit_xor r r'
bit_xor_fields zero q r q' r' p p' =
    let e : r ≡ 0 = omega arith in
    let e' : r' ≡ 0 = omega arith in
    let low : q * 2 ^ 0 + 0 ≡ q = omega arith in
    let low' : q' * 2 ^ 0 + 0 ≡ q' = omega arith in
    rw (e, e') (rw (low, low') (omega (arith, zero-bit_xor 0)))
bit_xor_fields (suc k) q r q' r' p p' = ground (
  arith,
  bit_xor_parity (q * 2 ^ suc k + r) (q' * 2 ^ suc k + r'),
  bit_xor_parity r r',
  pow-double q k,
  pow-double q' k,
  pow-double (bit_xor q q') k,
  pow-suc 2 k,
  bit_xor_fields k q (r / 2) q' (r' / 2),
)

bit_and_low : (k q r : ℕ) → r < 2 ^ k → bit_and (q * 2 ^ k + r) (2 ^ k - 1) ≡ r
bit_and_low zero q r h = omega (arith, zero_right_below (q * 1 + r) (q * 1 + r))
bit_and_low (suc k) q r h = ground (
  arith,
  bit_and_digit (q * 2 ^ suc k + r) (2 ^ suc k - 1),
  pow-double q k,
  pow-suc 2 k,
  one-le-pow k 2,
  bit_and_low k q (r / 2),
)

pub bit_or_fields : (k q r : ℕ) → r < 2 ^ k → bit_or r (q * 2 ^ k) ≡ q * 2 ^ k + r
bit_or_fields zero q r h =
    let e : r ≡ 0 = omega arith in rw e (omega (arith, zero-bit_or (q * 2 ^ 0)))
bit_or_fields (suc k) q r h =
    ground (
      arith,
      bit_or_digit r (q * 2 ^ suc k),
      pow-double q k,
      pow-suc 2 k,
      bit_or_fields k q (r / 2),
    )

or_zero : (n a : ℕ) → a ≤ n → bit_or a 0 ≡ a
or_zero n zero h = zero-bit_or 0
or_zero zero (suc a) h = elim h [ ]
or_zero (suc n) (suc a) h =
    omega (arith, bit_or_digit (suc a) 0, or_zero n (suc a / 2) (omega arith))

bit_or_fields_high : (k q r : ℕ) → r < 2 ^ k → bit_or (q * 2 ^ k) r ≡ q * 2 ^ k + r
bit_or_fields_high zero q r h =
    let e : r ≡ 0 = omega arith in rw e (omega (arith, or_zero (q * 1) (q * 1)))
bit_or_fields_high (suc k) q r h = ground (
  arith,
  bit_or_digit (q * 2 ^ suc k) r,
  pow-double q k,
  pow-suc 2 k,
  bit_or_fields_high k q (r / 2),
)

-- The masks and fields of the program's bytes and 16-bit words.
pub bit_and-one : (a : ℕ) → bit_and a 1 ≡ a % 2
bit_and-one a = omega (arith, bit_and_low 1 (a / 2) (a % 2) (omega arith), split)
  where
    split : bit_and a 1 ≡ bit_and (a / 2 * 2 + a % 2) 1
    split = ap (λ t. bit_and t 1) (omega arith)

pub bit_and_byte : (a : ℕ) → bit_and a 255 ≡ a % 256
bit_and_byte a = omega (arith, bit_and_low 8 (a / 256) (a % 256) (omega arith), split)
  where
    split : bit_and a 255 ≡ bit_and (a / 256 * 256 + a % 256) 255
    split = ap (λ t. bit_and t 255) (omega arith)

-- `lo | (hi << 8)`.
pub bit_or_bytes : (lo hi : ℕ) → lo < 256 → bit_or lo (hi * 256) ≡ hi * 256 + lo
bit_or_bytes lo hi h = bit_or_fields 8 hi lo h

-- `(hi << 8) | lo`.
pub bit_or_word : (hi lo : ℕ) → lo < 256 → bit_or (hi * 256) lo ≡ hi * 256 + lo
bit_or_word hi lo h = bit_or_fields_high 8 hi lo h

pub bit_xor_byte : (hi lo : ℕ) → lo < 256 → bit_xor (hi * 256 + lo) lo ≡ hi * 256
bit_xor_byte hi lo h =
    ground (
      arith,
      bit_xor_fields 8 hi lo 0 lo h h,
      bit_xor_self lo,
      zero_right_below hi hi (omega arith),
    )

-- Bytes that do not overlap: the exclusive or is the sum.
pub bit_xor_bytes : (lo hi : ℕ) → lo < 256 → bit_xor lo (hi * 256) ≡ hi * 256 + lo
bit_xor_bytes lo hi h = ground (
  arith,
  bit_xor_fields 8 0 lo hi 0 h (omega arith),
  zero-bit_xor hi,
  zero_right_below lo lo (omega arith),
)
