-- ===== src/Tests/InsertionSort.antt =====
-- A sort that keeps the contract of `std::sort`, for the examples.
use mathlib.Core.Bool.{Bool-set}
use mathlib.Core.List.{Mem, Perm, Pairwise, mem-cons, not-mem-nil, rel_of_Pairwise-cons}
use mathlib.Core.Logic.Or
use mathlib.Core.List.Perm
use mathlib.Core.List.Pairwise
use polyfetch.Base.{◌≡◌, inl, inr, Bool, true, false, List, [], ◌∷◌, Bool-cases}
use polyfetch.Fetch.{Record}
use polyfetch.Report.{Sort}
use polyfetch.Report.Order.{IsStrictWeakOrder}
use polyfetch.Report.Sorted.{IsStdSort}

unfoldable pub insert : (Record → Record → Bool) → Record → List Record → List Record
insert lt a [] = a ∷ []
insert lt a (b ∷ l) = elim (lt b a) [ true ↦ b ∷ insert lt a l | false ↦ a ∷ b ∷ l ]

unfoldable pub insertion_sort : Sort
insertion_sort lt [] = []
insertion_sort lt (a ∷ l) = insert lt a (insertion_sort lt l)

module _ (lt : Record → Record → Bool) where
  insert_before :
      (a b : Record) (l : List Record) → lt b a ≡ true → insert lt a (b ∷ l) ≡ b ∷ insert lt a l
  unfolding insert
  insert_before a b l e = rw (e, insert)

  insert_here : (a b : Record) (l : List Record) → lt b a ≡ false → insert lt a (b ∷ l) ≡ a ∷ b ∷ l
  unfolding insert
  insert_here a b l e = rw (e, insert)

  insert-Perm : (a : Record) (l : List Record) → Perm (insert lt a l) (a ∷ l)
  insert-Perm a [] = unfold insert in Perm.rfl
  insert-Perm a (b ∷ l) = elim (Bool-cases (lt b a)) [
    | inl e ↦
        rw (insert_before a b l e) (Perm.trans (Perm.cons b (insert-Perm a l)) (Perm.swap a b l))
    | inr e ↦ rw (insert_here a b l e) Perm.rfl
  ]

  insertion_sort-Perm : (l : List Record) → Perm (insertion_sort lt l) l
  unfolding insertion_sort
  insertion_sort-Perm [] = Perm.rfl
  insertion_sort-Perm (a ∷ l) =
      Perm.trans (insert-Perm a (insertion_sort lt l)) (Perm.cons a (insertion_sort-Perm l))

  -- `a` need not stand behind `b`.
  abbrev Sorted : Record → Record → Type 0
  Sorted a b = lt b a ≡ false

  module _ (order : IsStrictWeakOrder lt) where
    asymm : (a b : Record) → lt a b ≡ true → lt b a ≡ false
    asymm a b e = elim (Bool-cases (lt b a)) [
      | inl back ↦ absurd (cc (order.trans a b a e back, order.irrefl a))
      | inr f ↦ f
    ]

    negative_trans : (a b c : Record) → lt b a ≡ false → lt c b ≡ false → lt c a ≡ false
    negative_trans a b c ba cb = elim (Bool-cases (lt c a)) [
      | inr f ↦ f
      | inl ca ↦ elim (Bool-cases (lt a b)) [
        | inl ab ↦ absurd (cc (order.trans c a b ca ab, cb))
        | inr ab ↦ elim (Bool-cases (lt b c)) [
          | inl bc ↦ absurd (cc (order.trans b c a bc ca, ba))
          | inr bc ↦ absurd (cc (ca, (order.incomparable_trans a b c (ab, ba) (bc, cb)).1))
        ]
      ]
    ]

    insert-Pairwise :
        (a : Record) (l : List Record) → Pairwise Sorted l → Pairwise Sorted (insert lt a l)
    insert-Pairwise a [] s =
        unfold insert in Pairwise.cons (λ x m. absurd (no_member m)) Pairwise.nil
      where
        no_member : {x : Record} → ¬ Mem x []
        no_member m = not-mem-nil m
    insert-Pairwise a (b ∷ l) s = elim (Bool-cases (lt b a)) [
      | inl e ↦ rw (insert_before a b l e) (
          Pairwise.cons (λ x m. behind x ((Perm.mem_iff (insert-Perm a l)).0 m) e)
            (insert-Pairwise a l (Pairwise.of_cons s)))
      | inr e ↦ rw (insert_here a b l e) (Pairwise.cons (λ x m. first x m e) s)
    ]
      where
        behind : (x : Record) → Mem x (a ∷ l) → lt b a ≡ true → lt x b ≡ false
        behind x m e =
            Or.elim (Bool-set _ _) (mem-cons.0 m) (λ same. rw same (asymm b a e))
              (λ later. rel_of_Pairwise-cons s later)

        first : (x : Record) → Mem x (b ∷ l) → lt b a ≡ false → lt x a ≡ false
        first x m e =
            Or.elim (Bool-set _ _) (mem-cons.0 m) (λ same. rw same e)
              (λ later. negative_trans a b x e (rel_of_Pairwise-cons s later))

    insertion_sort-Pairwise : (l : List Record) → Pairwise Sorted (insertion_sort lt l)
    unfolding insertion_sort
    insertion_sort-Pairwise [] = Pairwise.nil
    insertion_sort-Pairwise (a ∷ l) =
        insert-Pairwise a (insertion_sort lt l) (insertion_sort-Pairwise l)

pub insertion_sort-IsStdSort : IsStdSort insertion_sort
insertion_sort-IsStdSort = record {
  rearranges = λ lt l order. insertion_sort-Perm lt l;
  orders = λ lt l order. insertion_sort-Pairwise lt order l;
}
