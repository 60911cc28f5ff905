-- ===== src/Contract/Unique.antt =====
-- Two reports on the same targets for the same server, side by side.
use mathlib.Core.List.{Mem, Perm, Pairwise, mem-cons, not-mem-nil}
use mathlib.Core.Logic.Or
use mathlib.Core.List.Perm
use mathlib.Core.List.Pairwise
use polyfetch.Base.{
  ◌≡◌, ℕ, suc, ◌+◌, arith, refl, sym, ◌∙◌, ap, ap₂, List, [], ◌∷◌, ◌++◌, map, length, Bytes, codes,
}
use polyfetch.Fetch.{Record}
use polyfetch.Report.Expected.{Reply, answer}
use polyfetch.Report.Summary.{ok_one, error_one, ok_size, total, total-perm, length-total}
use polyfetch.Report.Sorted.{
  Record-set, untimed, KeysDistinct, MayPrecede, InOrder-not_before, sorted_unique,
  untimed-Pairwise,
}
use polyfetch.Contract.{
  record_object, footer_object, print_line, report_text, delete_key, stripped_lines, stripped_text,
  IsReport,
}

-- A record says what its target is.
answer-target : (serve : Bytes → Reply) (t : Bytes) → (answer serve t).target ≡ t
answer-target serve t = ground arith

answers-Mem :
    (serve : Bytes → Reply) (targets : List Bytes) (r : Record)
    → Mem r (map (answer serve) targets)
    → r ≡ answer serve r.target
answers-Mem serve [] r m = absurd (not-mem-nil m)
answers-Mem serve (t ∷ targets) r m =
    Or.elim (Record-set r (answer serve r.target)) (mem-cons.0 m)
      (λ e.
        e
        ∙ ap (answer serve) (sym (answer-target serve t))
        ∙ ap (λ (s : Record). answer serve s.target) (sym e))
      (answers-Mem serve targets r)

-- Of one target there is one answer.
pub answers-KeysDistinct :
    (serve : Bytes → Reply) (targets : List Bytes) → KeysDistinct (map (answer serve) targets)
answers-KeysDistinct serve targets a b ma mb size target =
    answers-Mem serve targets a ma ∙ ap (answer serve) target ∙ sym (answers-Mem serve targets b mb)

stripped-untimed :
    (r : Record)
    → delete_key (codes "fetch_ms") (record_object (untimed r))
      ≡ delete_key (codes "fetch_ms") (record_object r)
stripped-untimed r = refl

stripped_lines-untimed : (rs : List Record) → stripped_lines (map untimed rs) ≡ stripped_lines rs
stripped_lines-untimed [] = refl
stripped_lines-untimed (r ∷ rs) =
    ap (λ s. print_line (delete_key (codes "fetch_ms") (record_object r)) ++ s)
      (stripped_lines-untimed rs)

pub total-untimed :
    (weight : Record → ℕ)
    → ((r : Record) → weight (untimed r) ≡ weight r)
    → (rs : List Record) → total weight (map untimed rs) ≡ total weight rs
total-untimed weight h [] = refl
total-untimed weight h (r ∷ rs) = ap₂ ◌+◌ (h r) (total-untimed weight h rs)

pub length-untimed : (rs : List Record) → length (map untimed rs) ≡ length rs
length-untimed [] = refl
length-untimed (r ∷ rs) = ap suc (length-untimed rs)

-- What the records of a report count for together.
pub total-answered :
    (weight : Record → ℕ)
    → ((r : Record) → weight (untimed r) ≡ weight r)
    → (serve : Bytes → Reply) (targets : List Bytes) (rs : List Record)
    → Perm (map untimed rs) (map (answer serve) targets)
    → total weight rs ≡ total weight (map (answer serve) targets)
total-answered weight h serve targets rs p = sym (total-untimed weight h rs) ∙ total-perm weight p

length-answers :
    (serve : Bytes → Reply) (targets : List Bytes)
    → length (map (answer serve) targets) ≡ length targets
length-answers serve [] = refl
length-answers serve (t ∷ targets) = ap suc (length-answers serve targets)

pub length-answered :
    (serve : Bytes → Reply) (targets : List Bytes) (rs : List Record)
    → Perm (map untimed rs) (map (answer serve) targets)
    → length rs ≡ length targets
length-answered serve targets rs p =
    length-total rs
    ∙ ap₂ ◌+◌ (total-answered ok_one (λ r. refl) serve targets rs p)
        (total-answered error_one (λ r. refl) serve targets rs p)
    ∙ sym (length-total (map (answer serve) targets))
    ∙ length-answers serve targets

footer_object-untimed : (rs : List Record) → footer_object (map untimed rs) ≡ footer_object rs
footer_object-untimed rs =
    rw
      (
        length-untimed rs,
        total-untimed ok_one (λ r. refl) rs,
        total-untimed error_one (λ r. refl) rs,
        total-untimed ok_size (λ r. refl) rs,
      )
      refl

-- The footer does not depend on the order.
pub footer_object-perm : {l m : List Record} → Perm l m → footer_object l ≡ footer_object m
footer_object-perm {l} {m} p =
    let ones = total-perm ok_one p in
    let errors = total-perm error_one p in
    let sizes = total-perm ok_size p in
    let size : length l ≡ length m = length-total l ∙ ap₂ ◌+◌ ones errors ∙ sym (length-total m) in
    rw (size, ones, errors, sizes) refl

-- A report without times is the same for the records without times.
stripped_text-untimed : (rs : List Record) → stripped_text (map untimed rs) ≡ stripped_text rs
stripped_text-untimed rs =
    ap₂ (λ a b. a ++ print_line b) (stripped_lines-untimed rs) (footer_object-untimed rs)

module _ {serve : Bytes → Reply} {targets : List Bytes} {out : Bytes}
    (r : IsReport serve targets out) where
  pub in_order : Pairwise MayPrecede (map untimed r.records)
  in_order = untimed-Pairwise (Pairwise.imp InOrder-not_before r.ordered)

  pub keys_distinct : KeysDistinct (map untimed r.records)
  keys_distinct a b ma mb =
      answers-KeysDistinct serve targets a b ((Perm.mem_iff r.answers).0 ma)
        ((Perm.mem_iff r.answers).0 mb)

-- Two reports on the same targets, for servers that answer each target in the same way, are the same
-- byte for byte once `fetch_ms` is taken out of every line: the lines in the same order, and the footer.
pub IsReport-unique :
    (serve : Bytes → Reply) (targets : List Bytes) (out out' : Bytes)
    → (r : IsReport serve targets out) (r' : IsReport serve targets out')
    → (out ≡ report_text r.records)
      × (out' ≡ report_text r'.records)
      × (stripped_text r.records ≡ stripped_text r'.records)
IsReport-unique serve targets out out' r r' =
    let same : map untimed r.records ≡ map untimed r'.records =
      sorted_unique (map untimed r.records) (map untimed r'.records) (in_order r) (in_order r')
        (Perm.trans r.answers (Perm.symm r'.answers)) (keys_distinct r) in
    (
      r.prints,
      r'.prints,
      sym (stripped_text-untimed r.records)
          ∙ ap stripped_text same
          ∙ stripped_text-untimed r'.records,
    )
