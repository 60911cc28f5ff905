-- ===== src/Report/Summary.antt =====
-- The whole report: the lines of the sorted records, and a footer that counts them.
use mathlib.Core.Logic.{∥∥₁_elim}
use mathlib.Core.List.{Mem, Perm, Permᴰ, mem-cons, mem-cons_self, mem-cons_of_mem, not-mem-nil}
use mathlib.Core.Logic.Or
use mathlib.Core.List.Perm
use native.Mathlib.Nat.{ℕ_set, add_assoc, zero-add}
use polyfetch.Base.{
  ℕ, zero, suc, ◌+◌, ◌^◌, ◌<◌, ◌≡◌, refl, ◌∙◌, ap, arith, Bool, List, [], ◌∷◌, ◌++◌, append_assoc,
  append-nil, Option, some, length, Bytes, codes, All, if◌then◌else◌,
}
use polyfetch.Base.Int.{pos, pos_part, add_i64, add_i32_pos, add_i64_pos}
use polyfetch.Base.Result.{◌>>=◌}
use polyfetch.Fetch.{Record}
use polyfetch.Report.{
  Sort, Tally, str_eq, write_record, sort_records, report_step, report_loop, summary_line,
  write_report,
}
use polyfetch.Report.Line.{IsPrintable, read_record-write_record}
use polyfetch.Report.Reader.{read_record}
use polyfetch.Report.Sorted.{IsStdSort, sort_records-InOrder}

abbrev pub is_ok : Record → Bool
is_ok r = str_eq r.status (codes "ok")

-- What a record adds to the three numbers of the footer.
abbrev pub ok_one : Record → ℕ
ok_one r = if is_ok r then 1 else 0

abbrev pub error_one : Record → ℕ
error_one r = if is_ok r then 0 else 1

abbrev pub ok_size : Record → ℕ
ok_size r = if is_ok r then pos_part r.size_bytes else 0

abbrev pub total : (Record → ℕ) → List Record → ℕ
total w [] = 0
total w (r ∷ rs) = w r + total w rs

abbrev pub lines : List Record → Bytes
lines [] = []
lines (r ∷ rs) = write_record r ++ lines rs

-- The sizes of a report are not negative.
abbrev pub IsSized : Record → Type 0
IsSized r = r.size_bytes ≡ pos (pos_part r.size_bytes)

total-permᴰ : (w : Record → ℕ) {l r : List Record} → Permᴰ l r → total w l ≡ total w r
total-permᴰ w Permᴰ.nil = refl
total-permᴰ w (Permᴰ.cons e p) = rw e (omega (arith, total-permᴰ w p))
total-permᴰ w (Permᴰ.swap e f) = rw (e, f) (omega arith)
total-permᴰ w (Permᴰ.trans p q) = total-permᴰ w p ∙ total-permᴰ w q

pub total-perm : (w : Record → ℕ) {l r : List Record} → Perm l r → total w l ≡ total w r
total-perm w p = ∥∥₁_elim p (ℕ_set _ _) (total-permᴰ w)

pub length-total : (l : List Record) → length l ≡ total ok_one l + total error_one l
length-total [] = omega arith
length-total (r ∷ l) = ground (arith, length-total l)

report_step_lem :
    (out : Bytes) (a b c : ℕ) (r : Record)
    → IsSized r
    → a + ok_one r < 2 ^ 31
    → b + error_one r < 2 ^ 31
    → c + ok_size r < 2 ^ 63
    → report_step (record { out = out; ok = pos a; errors = pos b; total_bytes = pos c }) r
      ≡ some (record {
        out = out ++ write_record r;
        ok = pos (a + ok_one r);
        errors = pos (b + error_one r);
        total_bytes = pos (c + ok_size r);
      })
unfolding report_step
report_step_lem out a b c r sized ha hb hc = ground (
  arith,
  add_i32_pos a 1,
  add_i32_pos b 1,
  add_i64_pos c (pos_part r.size_bytes),
  ap (add_i64 (pos c)) sized,
)

-- The state of the loop, from its three counters.
abbrev tally : Bytes → ℕ → ℕ → ℕ → Tally
tally out a b c = record { out = out; ok = pos a; errors = pos b; total_bytes = pos c }

report_loop_cons :
    (t t' : Tally) (r : Record) (rs : List Record)
    → report_step t r ≡ some t'
    → report_loop t (r ∷ rs) ≡ report_loop t' rs
unfolding report_loop
report_loop_cons t t' r rs e = rw e

report_loop_lem :
    (rs : List Record) (out : Bytes) (a b c : ℕ)
    → All IsSized rs
    → a + total ok_one rs < 2 ^ 31
    → b + total error_one rs < 2 ^ 31
    → c + total ok_size rs < 2 ^ 63
    → report_loop (tally out a b c) rs
      ≡ some (
          tally
            (out ++ lines rs)
            (a + total ok_one rs)
            (b + total error_one rs)
            (c + total ok_size rs))
report_loop_lem [] out a b c sized ha hb hc =
    unfold report_loop in ap some (ground (arith, append-nil out))
report_loop_lem (r ∷ rs) out a b c sized ha hb hc =
    report_loop_cons _ _ r rs
      (report_step_lem out a b c r sized.0 (omega arith) (omega arith) (omega arith))
    ∙ report_loop_lem rs (out ++ write_record r) (a + ok_one r) (b + error_one r) (c + ok_size r)
        sized.1 (omega arith) (omega arith) (omega arith)
    ∙ rw (
      append_assoc out (write_record r) (lines rs),
      add_assoc a (ok_one r) (total ok_one rs),
      add_assoc b (error_one r) (total error_one rs),
      add_assoc c (ok_size r) (total ok_size rs),
    )

pub All-of_mem {κ} :
    {P : Record → Type κ} (l : List Record) → ((r : Record) → Mem r l → P r) → All P l
All-of_mem [] h = tt
All-of_mem (r ∷ l) h = (h r mem-cons_self, All-of_mem l (λ x m. h x (mem-cons_of_mem r m)))

pub mem-All :
    (P : Record → Type 0)
    → ((r : Record) → IsProp (P r))
    → (rs : List Record) → All P rs
    → (r : Record) → Mem r rs
    → P r
mem-All P prop [] h r m = absurd (not-mem-nil m)
mem-All P prop (x ∷ rs) h r m =
    Or.elim (prop r) (mem-cons.0 m) (λ e. rw e h.0) (λ later. mem-All P prop rs h.1 r later)

-- For a `std::sort` that keeps its contract and fewer than 2 ^ 31 records with sizes that are not
-- negative and, for those that are ok, less than 2 ^ 63 together, no counter overflows. The report is
-- the lines of the sorted records and a footer with the number of records, of those that are ok, of
-- the others, and of the bytes of those that are ok.
pub write_report_lem :
    {sort : Sort}
    → IsStdSort sort
    → (l : List Record) → ((r : Record) → Mem r l → IsSized r)
    → length l < 2 ^ 31
    → total ok_size l < 2 ^ 63
    → write_report sort l
      ≡ some (
          lines (sort_records sort l)
          ++ summary_line
              (length l)
              (pos (total ok_one l))
              (pos (total error_one l))
              (pos (total ok_size l)))
unfolding write_report
write_report_lem {sort} std l sized few small =
    rw
      (report_loop_lem sorted [] 0 0 0 sized' (omega (arith, oks, few_ok))
        (omega (arith, errors, few_ok)) (omega (arith, sizes)))
      (rw (zero-add, zero-add, zero-add, oks, errors, sizes, same_length))
  where
    sorted : List Record
    sorted = sort_records sort l

    rearranged : Perm sorted l
    rearranged = (sort_records-InOrder std l).0

    sized' : All IsSized sorted
    sized' = All-of_mem sorted (λ r m. sized r ((Perm.mem_iff rearranged).0 m))

    oks : total ok_one sorted ≡ total ok_one l
    oks = total-perm ok_one rearranged

    errors : total error_one sorted ≡ total error_one l
    errors = total-perm error_one rearranged

    sizes : total ok_size sorted ≡ total ok_size l
    sizes = total-perm ok_size rearranged

    few_ok : length l ≡ total ok_one l + total error_one l
    few_ok = length-total l

    same_length : length sorted ≡ length l
    same_length = omega (arith, length-total sorted, few_ok, oks, errors)

-- `n` lines, one after the other.
unfoldable pub read_records : ℕ → Bytes → Option (List Record × Bytes)
read_records zero s = some ([], s)
read_records (suc n) s = do (r, s) ← read_record s; (rs, s) ← read_records n s; some (r ∷ rs, s)

read_records-lines :
    (l : List Record) (rest : Bytes)
    → All IsPrintable l
    → read_records (length l) (lines l ++ rest) ≡ some (l, rest)
unfolding read_records
read_records-lines [] rest h = refl
read_records-lines (r ∷ l) rest (p, h) = rw (
  append_assoc (write_record r) (lines l) rest,
  read_record-write_record r (lines l ++ rest) p,
  read_records-lines l rest h,
)

-- For a `std::sort` that keeps its contract and fewer than 2 ^ 31 printable records with sizes that are
-- not negative and, for those that are ok, less than 2 ^ 63 together: a reader of the report gets back
-- the sorted records, field by field, and then the footer.
pub read_records-write_report :
    {sort : Sort}
    → IsStdSort sort
    → (l : List Record) → ((r : Record) → Mem r l → IsSized r × IsPrintable r)
    → length l < 2 ^ 31
    → total ok_size l < 2 ^ 63
    → (write_report sort l >>= read_records (length l))
      ≡ some (
        sort_records sort l,
        summary_line
            (length l)
            (pos (total ok_one l))
            (pos (total error_one l))
            (pos (total ok_size l)),
      )
read_records-write_report {sort} std l good few small =
    rw (write_report_lem std l (λ r m. (good r m).0) few small, ← same_length)
      (read_records-lines (sort_records sort l) _ printable)
  where
    rearranged : Perm (sort_records sort l) l
    rearranged = (sort_records-InOrder std l).0

    printable : All IsPrintable (sort_records sort l)
    printable = All-of_mem (sort_records sort l) (λ r m. (good r ((Perm.mem_iff rearranged).0 m)).1)

    same_length : length (sort_records sort l) ≡ length l
    same_length = omega (
      arith,
      length-total (sort_records sort l),
      length-total l,
      total-perm ok_one rearranged,
      total-perm error_one rearranged,
    )
