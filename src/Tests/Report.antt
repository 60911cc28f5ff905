-- ===== src/Tests/Report.antt =====
-- Examples for the theorems on the report.
use mathlib.Core.List.{Mem, Perm, Pairwise, mem-cons, not-mem-nil, rel_of_Pairwise-cons}
use mathlib.Core.List.Pairwise
use mathlib.Core.List.Perm
use mathlib.Core.Logic.Or
use polyfetch.Base.{◌≡◌, ◌≢◌, refl, sym, ◌∙◌, arith, List, [], ◌∷◌, ◌++◌, some, map, codes}
use polyfetch.Base.Int.{pos}
use polyfetch.Base.Result.{◌>>=◌}
use polyfetch.Fetch.{Record}
use polyfetch.Report.{write_record, sort_records, summary_line, write_report}
use polyfetch.Report.Line.{IsPrintable, IsPrintable-prop, read_record-write_record}
use polyfetch.Report.Reader.{read_record}
use polyfetch.Report.Sorted.{
  Record-set, InOrder, KeysDistinct, untimed, sort_records-InOrder, sort_records_deterministic,
}
use polyfetch.Report.Summary.{
  lines, IsSized, write_report_lem, read_records, read_records-write_report,
}
use polyfetch.Tests.InsertionSort.{insertion_sort, insertion_sort-IsStdSort}
use polyfetch.Tests.Samples.{small_record, large_record, failed_record, records}

small-IsPrintable : IsPrintable small_record
small-IsPrintable = record {
  status_clean = ground arith;
  sha_clean = ground arith;
  no_error = λ e. refl;
}

failed-IsPrintable : IsPrintable failed_record
failed-IsPrintable = record { status_clean = ground arith; sha_clean = tt; no_error = λ e. cc }

large-IsPrintable : IsPrintable large_record
large-IsPrintable = record {
  status_clean = ground arith;
  sha_clean = ground arith;
  no_error = λ e. refl;
}

read_record-write_record_example :
    read_record (write_record small_record ++ codes "{}") ≡ some (small_record, codes "{}")
read_record-write_record_example =
    read_record-write_record small_record (codes "{}") small-IsPrintable

sort_records-InOrder_example :
    Perm (sort_records insertion_sort records) records
    × Pairwise InOrder (sort_records insertion_sort records)
sort_records-InOrder_example = sort_records-InOrder insertion_sort-IsStdSort records

IsGood : Record → Type 0
IsGood r = IsSized r × IsPrintable r

records-IsGood : (r : Record) → Mem r records → IsGood r
unfolding IsGood
records-IsGood r m =
    Or.elim good_prop (mem-cons.0 m) (λ e. rw e (refl, small-IsPrintable))
      (λ m.
        Or.elim good_prop (mem-cons.0 m) (λ e. rw e (refl, failed-IsPrintable))
          (λ m.
            Or.elim good_prop (mem-cons.0 m) (λ e. rw e (refl, large-IsPrintable))
              (λ m. absurd (not-mem-nil m))))
  where
    good_prop : IsProp (IsSized r × IsPrintable r)
    good_prop = hlevel (IsPrintable-prop r)

write_report_lem_example :
    write_report insertion_sort records
    ≡ some (lines (sort_records insertion_sort records) ++ summary_line 3 (pos 2) (pos 1) (pos 47))
unfolding IsGood
write_report_lem_example =
    write_report_lem insertion_sort-IsStdSort records (λ r m. (records-IsGood r m).0) (omega arith)
      (omega arith)

read_records-write_report_example :
    (write_report insertion_sort records >>= read_records 3)
    ≡ some (sort_records insertion_sort records, summary_line 3 (pos 2) (pos 1) (pos 47))
unfolding IsGood
read_records-write_report_example =
    read_records-write_report insertion_sort-IsStdSort records records-IsGood (omega arith)
      (omega arith)

-- Records with different targets have different keys.
targets-KeysDistinct : (l : List Record) → Pairwise (λ a b. a.target ≢ b.target) l → KeysDistinct l
targets-KeysDistinct [] h a b ma mb size target = absurd (not-mem-nil ma)
targets-KeysDistinct (x ∷ l) h a b ma mb size target =
    Or.elim (Record-set a b) (mem-cons.0 ma)
      (λ ea.
        Or.elim (Record-set a b) (mem-cons.0 mb) (λ eb. ea ∙ sym eb)
          (λ lb. absurd (rel_of_Pairwise-cons h lb (rw (← ea) target))))
      (λ la.
        Or.elim (Record-set a b) (mem-cons.0 mb)
          (λ eb. absurd (rel_of_Pairwise-cons h la (rw (← eb) (sym target))))
          (λ lb. targets-KeysDistinct l (Pairwise.of_cons h) a b la lb size target))

other_times : List Record
other_times = record large_record { fetch_ms = pos 80 } ∷ small_record ∷ []

first_times : List Record
first_times = small_record ∷ large_record ∷ []

first_times-KeysDistinct : KeysDistinct (map untimed first_times)
unfolding first_times
first_times-KeysDistinct = targets-KeysDistinct (map untimed first_times) (
    Pairwise.cons
      (λ r m.
        Or.elim (λ p q. ground arith) (mem-cons.0 m) (λ e. rw e (λ t. cc))
          (λ m. absurd (not-mem-nil m)))
      (Pairwise.cons (λ r m. absurd (not-mem-nil m)) Pairwise.nil))

sort_records_deterministic_example :
    map untimed (sort_records insertion_sort first_times)
    ≡ map untimed (sort_records insertion_sort other_times)
unfolding first_times other_times
sort_records_deterministic_example =
    sort_records_deterministic insertion_sort-IsStdSort insertion_sort-IsStdSort first_times
      other_times (Perm.swap (untimed large_record) (untimed small_record) [])
      first_times-KeysDistinct
