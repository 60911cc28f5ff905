-- ===== src/Report/Order.antt =====
-- The comparison of `sort_records` is a strict weak order, as `std::sort` asks, and it is the order
-- of the contract: larger sizes first, then the targets.
use polyfetch.Base.{◌≡◌, refl, sym, ◌∙◌, arith, Bool, true, false, [], ◌∷◌, Bytes}
use polyfetch.Base.Int.{ℤ, eqb_ℤ}
use polyfetch.Fetch.{Record}
use polyfetch.Report.{str_lt, before}

pub record IsStrictWeakOrder (lt : Record → Record → Bool) : Type 0 where
  pub irrefl : (a : Record) → lt a a ≡ false
  pub trans : (a b c : Record) → lt a b ≡ true → lt b c ≡ true → lt a c ≡ true
  pub incomparable_trans :
      (a b c : Record)
      → (lt a b ≡ false) × (lt b a ≡ false)
      → (lt b c ≡ false) × (lt c b ≡ false)
      → (lt a c ≡ false) × (lt c a ≡ false)

pub str_lt_irrefl : (s : Bytes) → str_lt s s ≡ false
str_lt_irrefl [] = refl
str_lt_irrefl (c ∷ s) = ground (arith, str_lt_irrefl s)

pub str_lt_trans : (s t u : Bytes) → str_lt s t ≡ true → str_lt t u ≡ true → str_lt s u ≡ true
str_lt_trans [] [] u p q = cc
str_lt_trans [] (b ∷ t) [] p q = cc
str_lt_trans [] (b ∷ t) (c ∷ u) p q = refl
str_lt_trans (a ∷ s) [] u p q = cc
str_lt_trans (a ∷ s) (b ∷ t) [] p q = cc
str_lt_trans (a ∷ s) (b ∷ t) (c ∷ u) p q = ground (arith, str_lt_trans s t u)

-- Texts of which neither is smaller are equal.
str_lt_connected : (s t : Bytes) → str_lt s t ≡ false → str_lt t s ≡ false → s ≡ t
str_lt_connected [] [] p q = refl
str_lt_connected [] (b ∷ t) p q = cc
str_lt_connected (a ∷ s) [] p q = cc
str_lt_connected (a ∷ s) (b ∷ t) p q = ground (arith, str_lt_connected s t)

eqb_ℤ-eq : (a b : ℤ) → eqb_ℤ a b ≡ true → a ≡ b
eqb_ℤ-eq a b h = ground arith

-- Records that neither precedes the other have the same size and target.
pub before_connected :
    (a b : Record)
    → before a b ≡ false
    → before b a ≡ false
    → (a.size_bytes ≡ b.size_bytes) × (a.target ≡ b.target)
unfolding before
before_connected a b p q = (ground arith, ground (arith, str_lt_connected a.target b.target))

-- Only the size and the target matter.
before-false :
    (a b : Record) → a.size_bytes ≡ b.size_bytes → a.target ≡ b.target → before a b ≡ false
unfolding before
before-false a b size target = rw (size, target) (ground (arith, str_lt_irrefl b.target))

pub before_irrefl : (a : Record) → before a a ≡ false
before_irrefl a = before-false a a refl refl

before_trans : (a b c : Record) → before a b ≡ true → before b c ≡ true → before a c ≡ true
unfolding before
before_trans a b c p q = ground (arith, str_lt_trans a.target b.target c.target)

-- The comparison of `sort_records` is a strict weak order, as `std::sort` asks.
pub before-IsStrictWeakOrder : IsStrictWeakOrder before
before-IsStrictWeakOrder = record {
  irrefl = before_irrefl;
  trans = before_trans;
  incomparable_trans = λ a b c p q.
      let (size_ab, target_ab) = before_connected a b p.0 p.1 in
      let (size_bc, target_bc) = before_connected b c q.0 q.1 in
      let size = size_ab ∙ size_bc in
      let target = target_ab ∙ target_bc in
      (before-false a c size target, before-false c a (sym size) (sym target));
}
