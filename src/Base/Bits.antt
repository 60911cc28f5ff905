-- ===== src/Base/Bits.antt =====
-- `|` of numbers with disjoint digits is their sum, and `&` with ones is a remainder.
use Prim.Native.Nat.{
  ℕ, zero, suc, ◌+◌, ◌-◌, ◌*◌, ◌/◌, ◌%◌, ◌^◌, ◌≤◌, ◌<◌, min, max, bit_and, bit_or, digits,
  bit_and-bitwise, bit_or-bitwise,
}
use mathlib.Core.Path.{◌≡◌, refl, ap}
use native.Mathlib.Nat.{add-suc, pow-suc, one-le-pow}
use native.Mathlib.Omega.{arith}

-- The recursion on digits stops at 0, so fuel beyond the number itself is not used.
digits_enough :
    (z : ℕ → ℕ) (op : ℕ → ℕ → ℕ) (f g a b : ℕ)
    → a ≤ f
    → a ≤ g
    → digits z op f a b ≡ digits z op g a b
digits_enough z op zero zero a b hf hg = refl
digits_enough z op (suc f) zero zero b hf hg = refl
digits_enough z op zero (suc g) zero b hf hg = refl
digits_enough z op (suc f) (suc g) zero b hf hg = refl
digits_enough z op zero g (suc a) b hf hg = absurd (omega arith)
digits_enough z op (suc f) zero (suc a) b hf hg = absurd (omega arith)
digits_enough z op (suc f) (suc g) (suc a) b hf hg =
    ap (λ (t : ℕ). t * 2 + op (suc a % 2) (b % 2))
      (digits_enough z op f g (suc a / 2) (b / 2) (omega arith) (omega arith))

or_last_digit : (a b : ℕ) → bit_or a b ≡ bit_or (a / 2) (b / 2) * 2 + max (a % 2) (b % 2)
or_last_digit zero b = omega (arith, bit_or-bitwise 0 b, bit_or-bitwise 0 (b / 2))
or_last_digit (suc a) b = omega (
  arith,
  bit_or-bitwise (suc a) b,
  bit_or-bitwise (suc a / 2) (b / 2),
  digits_enough (λ y. y) max a (suc a / 2) (suc a / 2) (b / 2) (omega arith) (omega arith),
)

and_last_digit : (a b : ℕ) → bit_and a b ≡ bit_and (a / 2) (b / 2) * 2 + min (a % 2) (b % 2)
and_last_digit zero b = omega (arith, bit_and-bitwise 0 b, bit_and-bitwise 0 (b / 2))
and_last_digit (suc a) b = omega (
  arith,
  bit_and-bitwise (suc a) b,
  bit_and-bitwise (suc a / 2) (b / 2),
  digits_enough (λ y. zero) min a (suc a / 2) (suc a / 2) (b / 2) (omega arith) (omega arith),
)

or_zero_within : (f a : ℕ) → a ≤ f → bit_or a 0 ≡ a
or_zero_within f zero h = omega (arith, bit_or-bitwise 0 0)
or_zero_within zero (suc a) h = absurd (omega arith)
or_zero_within (suc f) (suc a) h =
    omega (arith, or_last_digit (suc a) 0, or_zero_within f (suc a / 2) (omega arith))

and_zero_within : (f a : ℕ) → a ≤ f → bit_and a 0 ≡ 0
and_zero_within f zero h = omega (arith, bit_and-bitwise 0 0)
and_zero_within zero (suc a) h = absurd (omega arith)
and_zero_within (suc f) (suc a) h =
    omega (arith, and_last_digit (suc a) 0, and_zero_within f (suc a / 2) (omega arith))

double_shift : (q k : ℕ) → q * 2 ^ suc k ≡ 2 * (q * 2 ^ k)
double_shift q k = omega (arith, ap (λ (t : ℕ). q * t) (pow-suc 2 k))

-- The high digits on the left, as in the bytes of a word.
pub or_high_low : (k q r : ℕ) → r < 2 ^ k → bit_or (q * 2 ^ k) r ≡ q * 2 ^ k + r
or_high_low zero q r lt = ground (arith, or_zero_within (q * 1) (q * 1))
or_high_low (suc k) q r lt = ground (
  arith,
  or_last_digit (q * 2 ^ suc k) r,
  double_shift q k,
  pow-suc 2 k,
  or_high_low k q (r / 2) (omega (arith, pow-suc 2 k)),
)

-- The high digits on the right, as in a rotation.
pub or_low_high : (k q r : ℕ) → r < 2 ^ k → bit_or r (q * 2 ^ k) ≡ q * 2 ^ k + r
or_low_high zero q r lt = ground (arith, bit_or-bitwise 0 (q * 1))
or_low_high (suc k) q r lt = ground (
  arith,
  or_last_digit r (q * 2 ^ suc k),
  double_shift q k,
  pow-suc 2 k,
  or_low_high k q (r / 2) (omega (arith, pow-suc 2 k)),
)

low_ones : (k q r : ℕ) → r < 2 ^ k → bit_and (q * 2 ^ k + r) (2 ^ k - 1) ≡ r
low_ones zero q r lt = ground (arith, and_zero_within (q * 1 + r) (q * 1 + r))
low_ones (suc k) q r lt = ground (
  arith,
  and_last_digit (q * 2 ^ suc k + r) (2 ^ suc k - 1),
  double_shift q k,
  pow-suc 2 k,
  one-le-pow k 2,
  low_ones k q (r / 2) (omega (arith, pow-suc 2 k)),
)

pub and_ones : (k a : ℕ) → bit_and a (2 ^ k - 1) ≡ a % 2 ^ k
and_ones k a = ground (arith, one-le-pow k 2, low_ones k (a / 2 ^ k) (a % 2 ^ k))

pub and_byte : (a : ℕ) → bit_and a 0xff ≡ a % 256
and_byte a = and_ones 8 a

pub and_nibble : (a : ℕ) → bit_and a 0x0f ≡ a % 16
and_nibble a = and_ones 4 a

pub pow_add : (m n : ℕ) → 2 ^ (m + n) ≡ 2 ^ m * 2 ^ n
pow_add m zero = ground arith
pow_add m (suc n) = rw (add-suc m n) (
    omega
      (arith, pow-suc 2 (m + n), pow-suc 2 n, ap (λ (t : ℕ). 2 ^ m * t) (pow-suc 2 n), pow_add m n))
