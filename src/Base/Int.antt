-- ===== src/Base/Int.antt =====
-- Signed machine integers: the number that is meant, with the overflow that C++ leaves undefined
-- as `none`.
use Prim.Native.Nat.{ℕ, suc, ◌+◌, ◌-◌, ◌%◌, ◌^◌, ◌≤◌, ◌<◌}
use mathlib.Core.Path.{◌≡◌}
use mathlib.Core.Bool.{Bool}
use mathlib.Core.Option.{Option, none, some}
use native.Mathlib.Omega.{arith}
use polyfetch.Base.Tests.{ltb, leb, ◌==◌, if◌then◌else◌}

-- `negsuc n` is -(n + 1).
pub data ℤ : Type 0 where
  pos : ℕ → ℤ
  negsuc : ℕ → ℤ

abbrev pub pos_part : ℤ → ℕ
pos_part (pos n) = n
pos_part (negsuc n) = 0

abbrev pub neg_part : ℤ → ℕ
neg_part (pos n) = 0
neg_part (negsuc n) = suc n

-- a - b, as an integer.
abbrev pub sub_ℕ : ℕ → ℕ → ℤ
sub_ℕ a b = if leb b a then pos (a - b) else negsuc (b - a - 1)

infixl 65 ◌+ℤ◌
abbrev pub ◌+ℤ◌ : ℤ → ℤ → ℤ
a +ℤ b = sub_ℕ (pos_part a + pos_part b) (neg_part a + neg_part b)

infix 50 ◌≤ℤ◌
abbrev pub ◌≤ℤ◌ : ℤ → ℤ → Type 0
a ≤ℤ b = pos_part a + neg_part b ≤ pos_part b + neg_part a

abbrev pub ltb_ℤ : ℤ → ℤ → Bool
ltb_ℤ a b = ltb (pos_part a + neg_part b) (pos_part b + neg_part a)

abbrev pub eqb_ℤ : ℤ → ℤ → Bool
eqb_ℤ a b = pos_part a + neg_part b == pos_part b + neg_part a

-- The values of a signed type of `w + 1` bits.
abbrev pub fits_signed : ℕ → ℤ → Bool
fits_signed w (pos n) = ltb n (2 ^ w)
fits_signed w (negsuc n) = ltb n (2 ^ w)

-- A sum in such a type.
unfoldable pub add_signed : ℕ → ℤ → ℤ → Option ℤ
add_signed w a b = if fits_signed w (a +ℤ b) then some (a +ℤ b) else none

unfoldable pub add_i64 : ℤ → ℤ → Option ℤ
unfolding add_signed
add_i64 a b = add_signed 63 a b

unfoldable pub add_i32 : ℤ → ℤ → Option ℤ
unfolding add_signed
add_i32 a b = add_signed 31 a b

-- `static_cast<std::int64_t>` of a `std::size_t`, which wraps.
unfoldable pub to_i64 : ℕ → ℤ
to_i64 n = if ltb (n % 2 ^ 64) (2 ^ 63) then pos (n % 2 ^ 64) else negsuc (2 ^ 64 - n % 2 ^ 64 - 1)

pub add_i64_pos : (a b : ℕ) → a + b < 2 ^ 63 → add_i64 (pos a) (pos b) ≡ some (pos (a + b))
unfolding add_i64
add_i64_pos a b h = ground arith

pub add_i32_pos : (a b : ℕ) → a + b < 2 ^ 31 → add_i32 (pos a) (pos b) ≡ some (pos (a + b))
unfolding add_i32
add_i32_pos a b h = ground arith

pub to_i64_small : (n : ℕ) → n < 2 ^ 63 → to_i64 n ≡ pos n
unfolding to_i64
to_i64_small n h = ground arith
