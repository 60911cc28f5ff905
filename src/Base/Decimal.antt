-- ===== src/Base/Decimal.antt =====
-- Integers as `std::to_string` and `ostream <<` print them.
use Prim.Native.Nat.{ℕ, zero, suc, ◌+◌, ◌-◌, ◌*◌, ◌/◌, ◌%◌, ◌≤◌, ◌<◌}
use mathlib.Core.Path.{◌≡◌, refl}
use mathlib.Core.Logic.{inl, inr}
use mathlib.Core.Bool.{true, false}
use mathlib.Core.List.{[], ◌∷◌, ◌++◌}
use native.Mathlib.Omega.{arith}
use polyfetch.Base.Tests.{ltb, lt→ltb, Bool-cases, ltb→lt, ltb-false→le}
use polyfetch.Base.Lists.{length, All, All-append, length-append}
use polyfetch.Base.Octets.{Bytes}
use polyfetch.Base.Int.{ℤ, pos, negsuc}

-- Digits with fuel; `n + 1` rounds are always enough.
unfoldable pub digits : ℕ → ℕ → Bytes
digits zero n = []
digits (suc fuel) n = elim (ltb n 10) [
  | true ↦ (b'0' + n) ∷ []
  | false ↦ digits fuel (n / 10) ++ (b'0' + n % 10) ∷ []
]

unfoldable pub show_ℕ : ℕ → Bytes
show_ℕ n = digits (suc n) n

unfoldable pub show_ℤ : ℤ → Bytes
show_ℤ (pos n) = show_ℕ n
show_ℤ (negsuc n) = b'-' ∷ show_ℕ (suc n)

show_large :
    show_ℕ 18446744073709551615
    ≡ b'1' ∷ b'8' ∷ b'4' ∷ b'4' ∷ b'6' ∷ b'7' ∷ b'4' ∷ b'4' ∷ b'0' ∷ b'7' ∷ b'3' ∷ b'7' ∷ b'0'
      ∷ b'9' ∷ b'5' ∷ b'5' ∷ b'1' ∷ b'6' ∷ b'1' ∷ b'5' ∷ []
unfolding show_ℕ digits
show_large = refl

abbrev pub IsDigit : ℕ → Type 0
IsDigit c = (b'0' ≤ c) × (c ≤ b'9')

digits_last : (f n : ℕ) → n < 10 → digits (suc f) n ≡ (b'0' + n) ∷ []
unfolding digits
digits_last f n h = rw (lt→ltb n 10 h, digits)

digits_more : (f n : ℕ) → 10 ≤ n → digits (suc f) n ≡ digits f (n / 10) ++ (b'0' + n % 10) ∷ []
unfolding digits
digits_more f n h = let e : ltb n 10 ≡ false = ground arith in rw (e, digits)

digits-IsDigit : (f n : ℕ) → All IsDigit (digits f n)
digits-IsDigit zero n = unfold digits in tt
digits-IsDigit (suc f) n = elim (Bool-cases (ltb n 10)) [
  | inl one ↦ rw (digits_last f n (ltb→lt n 10 one)) (ground (arith, ltb→lt n 10 one))
  | inr more ↦
      rw (digits_more f n (ltb-false→le n 10 more))
        (All-append IsDigit (digits f (n / 10)) _ (digits-IsDigit f (n / 10)) (omega arith))
]

-- The number that digits spell behind `n`.
abbrev pub value : ℕ → Bytes → ℕ
value n [] = n
value n (c ∷ cs) = value (n * 10 + (c - b'0')) cs

value-append : (n : ℕ) (xs ys : Bytes) → value n (xs ++ ys) ≡ value (value n xs) ys
value-append n [] ys = refl
value-append n (c ∷ xs) ys = value-append (n * 10 + (c - b'0')) xs ys

value-digits : (f n : ℕ) → n < f → value 0 (digits f n) ≡ n
value-digits zero n h = absurd (omega arith)
value-digits (suc f) n h = elim (Bool-cases (ltb n 10)) [
  | inl one ↦ rw (digits_last f n (ltb→lt n 10 one)) (omega arith)
  | inr more ↦
      let le : 10 ≤ n = ltb-false→le n 10 more in
      rw (digits_more f n le, value-append 0 (digits f (n / 10)) ((b'0' + n % 10) ∷ []))
        (omega (arith, value-digits f (n / 10) (omega arith)))
]

-- A printed number is digits, and they spell the number.
pub show_ℕ-IsDigit : (n : ℕ) → All IsDigit (show_ℕ n)
unfolding show_ℕ
show_ℕ-IsDigit n = digits-IsDigit (suc n) n

pub value-show_ℕ : (n : ℕ) → value 0 (show_ℕ n) ≡ n
unfolding show_ℕ
value-show_ℕ n = value-digits (suc n) n (omega arith)

length-digits_pos : (f n : ℕ) → 0 < length (digits (suc f) n)
length-digits_pos f n = elim (Bool-cases (ltb n 10)) [
  | inl one ↦ rw (digits_last f n (ltb→lt n 10 one)) (omega arith)
  | inr more ↦
      rw (digits_more f n (ltb-false→le n 10 more))
        (omega (arith, length-append (digits f (n / 10)) ((b'0' + n % 10) ∷ [])))
]

pub length-show_ℕ_pos : (n : ℕ) → 0 < length (show_ℕ n)
unfolding show_ℕ
length-show_ℕ_pos n = length-digits_pos n n
