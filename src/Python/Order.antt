-- ===== src/Python/Order.antt =====
-- The order of the Python client, for every `list.sort` that keeps its contract.
use std.Path.{fun_ext}
use mathlib.Core.List.{Perm, Pairwise}
use mathlib.Core.List.Pairwise
use polyfetch.Base.{zero, suc, ◌≡◌, refl, sym, ◌∙◌, subst, arith, false, List, Bytes}
use polyfetch.Base.Int.{ℤ, pos, negsuc, ltb_ℤ, eqb_ℤ}
use polyfetch.Fetch.{Record}
use polyfetch.Report.{before}
use polyfetch.Report.Order.{IsStrictWeakOrder, before-IsStrictWeakOrder}
use polyfetch.Report.Sorted.{InOrder, not_before-InOrder}
use polyfetch.Python.Report.{negate, pair_lt, KeySort, sort_key, sort_records}

-- `list.sort`: with keys that are ordered, the result is a rearrangement, and no element stands behind one
-- with a larger key.
pub record IsKeySort (sort : KeySort) : Type 0 where
  pub sorts :
      (key : Record → ℤ × Bytes) (l : List Record)
      → IsStrictWeakOrder (λ a b. pair_lt (key a) (key b))
      → Perm (sort key l) l × Pairwise (λ a b. pair_lt (key b) (key a) ≡ false) (sort key l)

eqb-negate : (m n : ℤ) → eqb_ℤ (negate m) (negate n) ≡ eqb_ℤ m n
eqb-negate (pos zero) (pos zero) = ground arith
eqb-negate (pos zero) (pos (suc n)) = ground arith
eqb-negate (pos (suc m)) (pos zero) = ground arith
eqb-negate (pos (suc m)) (pos (suc n)) = ground arith
eqb-negate (pos zero) (negsuc n) = ground arith
eqb-negate (pos (suc m)) (negsuc n) = ground arith
eqb-negate (negsuc m) (pos zero) = ground arith
eqb-negate (negsuc m) (pos (suc n)) = ground arith
eqb-negate (negsuc m) (negsuc n) = ground arith

ltb-negate : (m n : ℤ) → ltb_ℤ (negate m) (negate n) ≡ ltb_ℤ n m
ltb-negate (pos zero) (pos zero) = ground arith
ltb-negate (pos zero) (pos (suc n)) = ground arith
ltb-negate (pos (suc m)) (pos zero) = ground arith
ltb-negate (pos (suc m)) (pos (suc n)) = ground arith
ltb-negate (pos zero) (negsuc n) = ground arith
ltb-negate (pos (suc m)) (negsuc n) = ground arith
ltb-negate (negsuc m) (pos zero) = ground arith
ltb-negate (negsuc m) (pos (suc n)) = ground arith
ltb-negate (negsuc m) (negsuc n) = ground arith

-- The order of the keys is the order of the contract.
pub pair_lt-sort_key : (a b : Record) → pair_lt (sort_key a) (sort_key b) ≡ before a b
unfolding sort_key before
pair_lt-sort_key a b =
    rw (eqb-negate a.size_bytes b.size_bytes, ltb-negate a.size_bytes b.size_bytes) refl

sort_key-IsStrictWeakOrder : IsStrictWeakOrder (λ a b. pair_lt (sort_key a) (sort_key b))
sort_key-IsStrictWeakOrder =
    subst IsStrictWeakOrder (sym (fun_ext (λ a. fun_ext (λ b. pair_lt-sort_key a b))))
      before-IsStrictWeakOrder

pub sort_records-InOrder :
    (sort : KeySort)
    → IsKeySort sort
    → (l : List Record) → Perm (sort_records sort l) l × Pairwise InOrder (sort_records sort l)
unfolding sort_records
sort_records-InOrder sort std l =
    let (rearranged, ordered) = std.sorts sort_key l sort_key-IsStrictWeakOrder in
    (
      rearranged,
      Pairwise.imp (λ a b h. not_before-InOrder a b (sym (pair_lt-sort_key b a) ∙ h)) ordered,
    )
