-- ===== src/TypeScript/Order.antt =====
-- The order of the TypeScript client, for every `Array.sort` that keeps its contract.
use std.Path.{fun_ext}
use mathlib.Core.List.{Perm, Pairwise}
use mathlib.Core.List.Pairwise
use polyfetch.Base.{◌≡◌, refl, sym, ◌∙◌, subst, arith, inl, inr, true, false, List, Bool-cases}
use polyfetch.Base.Int.{ℤ, pos, ltb_ℤ, eqb_ℤ}
use polyfetch.Fetch.{Record}
use polyfetch.Report.{str_lt, before}
use polyfetch.Report.Order.{
  IsStrictWeakOrder, str_lt_irrefl, str_lt_trans, before-IsStrictWeakOrder,
}
use polyfetch.Report.Sorted.{InOrder, not_before-InOrder}
use polyfetch.TypeScript.Fetch.{Numbers, IsDouble}
use polyfetch.TypeScript.Report.{ArraySort, compare, sort_records}

-- `Array.sort`: with a comparison whose sign is a strict weak order, and turns with its arguments, the
-- result is a rearrangement, and no element stands behind one that it precedes.
pub record IsArraySort (sort : ArraySort) : Type 0 where
  pub sorts :
      (cmp : Record → Record → ℤ) (l : List Record)
      → IsStrictWeakOrder (λ a b. ltb_ℤ (cmp a b) (pos 0))
      → ((a b : Record) → ltb_ℤ (pos 0) (cmp a b) ≡ ltb_ℤ (cmp b a) (pos 0))
      → Perm (sort cmp l) l × Pairwise (λ a b. ltb_ℤ (cmp b a) (pos 0) ≡ false) (sort cmp l)

module _ (numbers : Numbers) (double : IsDouble numbers) where
  compare-before : (a b : Record) → ltb_ℤ (compare numbers a b) (pos 0) ≡ before a b
  unfolding compare before
  compare-before a b = elim (Bool-cases (eqb_ℤ a.size_bytes b.size_bytes)) [
    | inl same ↦ elim (Bool-cases (str_lt a.target b.target)) [
      | inl lt ↦ rw (same, lt) refl
      | inr ge ↦ elim (Bool-cases (str_lt b.target a.target)) [
        | inl gt ↦ rw (same, ge, gt) refl
        | inr eq ↦ rw (same, ge, eq) refl
      ]
    ]
    | inr other ↦ rw other (double.negative b.size_bytes a.size_bytes)
  ]

  compare_turns :
      (a b : Record) → ltb_ℤ (pos 0) (compare numbers a b) ≡ ltb_ℤ (compare numbers b a) (pos 0)
  unfolding compare
  compare_turns a b = elim (Bool-cases (eqb_ℤ a.size_bytes b.size_bytes)) [
    | inl same ↦
        (let back : eqb_ℤ b.size_bytes a.size_bytes ≡ true = ground (arith, same) in
          elim (Bool-cases (str_lt a.target b.target)) [
            | inl lt ↦ elim (Bool-cases (str_lt b.target a.target)) [
              | inl gt ↦
                  absurd
                    (cc (str_lt_trans a.target b.target a.target lt gt, str_lt_irrefl a.target))
              | inr ge ↦ rw (same, back, lt, ge) refl
            ]
            | inr ge ↦ elim (Bool-cases (str_lt b.target a.target)) [
              | inl gt ↦ rw (same, back, ge, gt) refl
              | inr eq ↦ rw (same, back, ge, eq) refl
            ]
          ])
    | inr other ↦
        (let back : eqb_ℤ b.size_bytes a.size_bytes ≡ false = ground (arith, other) in
          rw (other, back)
            (double.positive b.size_bytes a.size_bytes
              ∙ sym (double.negative a.size_bytes b.size_bytes)))
  ]

  compare-IsStrictWeakOrder : IsStrictWeakOrder (λ a b. ltb_ℤ (compare numbers a b) (pos 0))
  compare-IsStrictWeakOrder =
      subst IsStrictWeakOrder (sym (fun_ext (λ a. fun_ext (λ b. compare-before a b))))
        before-IsStrictWeakOrder

  pub sort_records-InOrder :
      (sort : ArraySort)
      → IsArraySort sort
      → (l : List Record)
      → Perm (sort_records numbers sort l) l × Pairwise InOrder (sort_records numbers sort l)
  unfolding sort_records
  sort_records-InOrder sort std l =
      let (rearranged, ordered) =
        std.sorts (compare numbers) l compare-IsStrictWeakOrder compare_turns in
      (
        rearranged,
        Pairwise.imp (λ a b h. not_before-InOrder a b (sym (compare-before b a) ∙ h)) ordered,
      )
