-- ===== src/Sha256/Constants.antt =====
-- The constants of FIPS 180-4, as sections 4.2.2 and 5.3.3 define them: the first 32 bits of the
-- fractional parts of roots of the first primes.
use polyfetch.Base.{
  ℕ, zero, suc, ◌+◌, ◌-◌, ◌*◌, ◌%◌, ◌^◌, ◌≤◌, ◌<◌, ◌≡◌, refl, arith, Bool, true, not, ◌&&◌, inl,
  inr, List, [], ◌∷◌, map, leb, ◌==◌, if◌then◌else◌, Bool-cases, leb→le, leb-false→lt,
}
use polyfetch.Sha256.{Words, k_table, initial_state}

-- None of the numbers from 2 to `n + 1` divides `p`, but for `p`.
unfoldable pub has_no_divisor : ℕ → ℕ → Bool
has_no_divisor zero p = true
has_no_divisor (suc n) p = not (p % (n + 2) == 0) && has_no_divisor n p

-- The primes among the `n` numbers from `p` on.
unfoldable pub primes_from : ℕ → ℕ → List ℕ
primes_from zero p = []
primes_from (suc n) p =
    let rest = primes_from n (p + 1) in if has_no_divisor (p - 2) p then p ∷ rest else rest

-- The primes below 312, of which there are 64.
unfoldable pub primes : List ℕ
primes = primes_from 310 2

-- The bits of the root of order `n` from bit `b` down, with `r` found so far.
unfoldable pub root_bits : ℕ → ℕ → ℕ → ℕ → ℕ
root_bits n x zero r = r
root_bits n x (suc b) r = root_bits n x b (if leb ((r + 2 ^ b) ^ n) x then r + 2 ^ b else r)

-- The whole part of the root of order `n`, for roots below 2 ^ 40.
abbrev pub root : ℕ → ℕ → ℕ
root n x = root_bits n x 40 0

root_bits_lem :
    (n x b r : ℕ)
    → r ^ n ≤ x
    → x < (r + 2 ^ b) ^ n
    → (root_bits n x b r ^ n ≤ x) × (x < (root_bits n x b r + 1) ^ n)
unfolding root_bits
root_bits_lem n x zero r low high = (low, high)
root_bits_lem n x (suc b) r low high = elim (Bool-cases (leb ((r + 2 ^ b) ^ n) x)) [
  | inl more ↦ rw more (root_bits_lem n x b (r + 2 ^ b) (leb→le _ x more) (rw (doubled r b) high))
  | inr less ↦ rw less (root_bits_lem n x b r low (leb-false→lt _ x less))
]
  where
    doubled : (r b : ℕ) → r + 2 ^ b + 2 ^ b ≡ r + 2 ^ suc b
    doubled r b = omega arith

-- The root of a number below the power of 2 ^ 40 is its whole part.
pub root_lem :
    (n x : ℕ) → 0 ^ n ≤ x → x < (0 + 2 ^ 40) ^ n → (root n x ^ n ≤ x) × (x < (root n x + 1) ^ n)
root_lem n x low high = root_bits_lem n x 40 0 low high

-- The first 32 bits of the fractional part of a root of `p`.
abbrev pub fraction : ℕ → ℕ → ℕ
fraction n p = root n (p * 2 ^ (32 * n)) % 2 ^ 32

unfoldable pub fips_constants : List ℕ
fips_constants = map (fraction 3) primes

unfoldable pub fips_initial : Words
fips_initial = record {
  a = fraction 2 2;
  b = fraction 2 3;
  c = fraction 2 5;
  d = fraction 2 7;
  e = fraction 2 11;
  f = fraction 2 13;
  g = fraction 2 17;
  h = fraction 2 19;
}

pub k_table-fips : k_table ≡ fips_constants
unfolding fips_constants primes primes_from has_no_divisor root_bits
k_table-fips = refl

pub initial_state-fips : initial_state ≡ fips_initial
unfolding fips_initial root_bits
initial_state-fips = refl
