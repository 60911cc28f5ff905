-- ===== src/Report/Sorted.antt =====
-- The order of the report, for every `std::sort` that keeps its contract.
use mathlib.Core.Bool.{Bool-set}
use mathlib.Core.Path.{ap₂}
use mathlib.Core.List.{
  Mem, Perm, Pairwise, mem-cons_self, mem-cons, mem-cons_of_mem, rel_of_Pairwise-cons,
}
use mathlib.Core.Logic.Or
use mathlib.Core.List.Perm
use mathlib.Core.List.Pairwise
use polyfetch.Base.{◌≡◌, arith, ◌⊎◌, inl, inr, Bool, false, List, [], ◌∷◌, map, Bool-cases}
use polyfetch.Base.Int.{pos, ◌≤ℤ◌, eqb_ℤ}
use polyfetch.Fetch.{Record}
use polyfetch.Report.{Sort, str_lt, before, sort_records}
use polyfetch.Report.Order.{
  IsStrictWeakOrder, before_connected, before_irrefl, before-IsStrictWeakOrder,
}

-- `std::sort`: with a strict weak order the result is a rearrangement of the input, and no element
-- stands behind one that it precedes.
pub record IsStdSort (sort : Sort) : Type 0 where
  pub rearranges :
      (lt : Record → Record → Bool) (l : List Record) → IsStrictWeakOrder lt → Perm (sort lt l) l
  pub orders :
      (lt : Record → Record → Bool) (l : List Record)
      → IsStrictWeakOrder lt
      → Pairwise (λ a b. lt b a ≡ false) (sort lt l)

-- The first record may stand in front of the second: it is larger, or as large with a target that
-- does not come later.
abbrev pub InOrder : Record → Record → Type 0
InOrder a b =
    (¬ (a.size_bytes ≤ℤ b.size_bytes))
    ⊎ ((a.size_bytes ≡ b.size_bytes) × (str_lt b.target a.target ≡ false))

pub not_before-InOrder : (a b : Record) → before b a ≡ false → InOrder a b
unfolding before
not_before-InOrder a b h = elim (Bool-cases (eqb_ℤ b.size_bytes a.size_bytes)) [
  | inl same ↦ inr (ground arith, ground arith)
  | inr other ↦ inl (ground arith)
]

pub InOrder-not_before : (a b : Record) → InOrder a b → before b a ≡ false
unfolding before
InOrder-not_before a b (inl larger) = ground (arith, larger)
InOrder-not_before a b (inr (size, target)) = ground (arith, size, target)

abbrev pub MayPrecede : Record → Record → Type 0
MayPrecede a b = before b a ≡ false

-- With a `std::sort` that keeps its contract, `sort_records` gives a rearrangement of the records in
-- which sizes descend and targets of one size ascend.
pub sort_records-InOrder :
    {sort : Sort}
    → IsStdSort sort
    → (l : List Record) → Perm (sort_records sort l) l × Pairwise InOrder (sort_records sort l)
unfolding sort_records
sort_records-InOrder std l = (
  std.rearranges before l before-IsStrictWeakOrder,
  Pairwise.imp not_before-InOrder (std.orders before l before-IsStrictWeakOrder),
)

-- Records that agree in size and target are one.
abbrev pub KeysDistinct : List Record → Type 0
KeysDistinct l =
    (a b : Record) → Mem a l → Mem b l → a.size_bytes ≡ b.size_bytes → a.target ≡ b.target → a ≡ b

pub Record-set : IsSet Record
Record-set = hlevel

head_first :
    {a b : Record} {l r : List Record}
    → Pairwise MayPrecede (a ∷ l)
    → Perm (b ∷ r) (a ∷ l)
    → MayPrecede a b
head_first {a} {b} {l} s p =
    Or.elim (Bool-set _ _) (mem-cons.0 ((Perm.mem_iff p).0 mem-cons_self))
      (λ e. rw e (before_irrefl a)) (λ m. rel_of_Pairwise-cons s m)

-- Two sorted rearrangements of one list with distinct keys are equal.
pub sorted_unique :
    (l r : List Record)
    → Pairwise MayPrecede l
    → Pairwise MayPrecede r
    → Perm l r
    → KeysDistinct l
    → l ≡ r
sorted_unique [] r sl sr p distinct = Perm.nil-eq p
sorted_unique (a ∷ l) [] sl sr p distinct = Perm.eq-nil p
sorted_unique (a ∷ l) (b ∷ r) sl sr p distinct = ap₂ ◌∷◌ heads (
    sorted_unique l r (Pairwise.of_cons sl) (Pairwise.of_cons sr) tails
      (λ x y mx my. distinct x y (mem-cons_of_mem a mx) (mem-cons_of_mem a my)))
  where
    keys : (a.size_bytes ≡ b.size_bytes) × (a.target ≡ b.target)
    keys = before_connected a b (head_first sr p) (head_first sl (Perm.symm p))

    heads : a ≡ b
    heads = distinct a b mem-cons_self ((Perm.mem_iff p).1 mem-cons_self) keys.0 keys.1

    tails : Perm l r
    tails = Perm.cons_inv (Perm.trans p (Perm.symm (Perm.cons' heads Perm.rfl)))

-- A record without the time that its fetch took, which two runs need not agree on.
abbrev pub untimed : Record → Record
untimed r = record r { fetch_ms = pos 0 }

before-untimed : (a b : Record) → MayPrecede a b → MayPrecede (untimed a) (untimed b)
unfolding before
before-untimed a b h = h

pub untimed-Pairwise :
    {l : List Record} → Pairwise MayPrecede l → Pairwise MayPrecede (map untimed l)
untimed-Pairwise s = Pairwise.map (λ a b. Bool-set _ _) untimed before-untimed s

-- If two lists hold the same records up to their order and their times, and records among them that
-- agree in size and target are equal but for the times, `sort_records` brings both into the same
-- order, also with two different `std::sort`s that keep the contract.
pub sort_records_deterministic :
    {sort sort' : Sort}
    → IsStdSort sort
    → IsStdSort sort'
    → (l l' : List Record) → Perm (map untimed l) (map untimed l')
    → KeysDistinct (map untimed l)
    → map untimed (sort_records sort l) ≡ map untimed (sort_records sort' l')
unfolding sort_records
sort_records_deterministic {sort} {sort'} std std' l l' p distinct =
    sorted_unique (map untimed (sort before l)) (map untimed (sort' before l'))
      (untimed-Pairwise (std.orders before l before-IsStrictWeakOrder))
      (untimed-Pairwise (std'.orders before l' before-IsStrictWeakOrder))
      (Perm.trans rearranged (Perm.trans p (Perm.symm rearranged')))
      (λ a b ma mb. distinct a b ((Perm.mem_iff rearranged).0 ma) ((Perm.mem_iff rearranged).0 mb))
  where
    rearranged : Perm (map untimed (sort before l)) (map untimed l)
    rearranged = Perm.map untimed (std.rearranges before l before-IsStrictWeakOrder)

    rearranged' : Perm (map untimed (sort' before l')) (map untimed l')
    rearranged' = Perm.map untimed (std'.rearranges before l' before-IsStrictWeakOrder)
