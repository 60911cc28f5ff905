-- ===== src/Main/Prints.antt =====
-- What clients/cpp/src/report.cpp writes, beside the texts of README.md, section 7.
use polyfetch.Base.{
  ◌≡◌, refl, ap₂, inl, inr, List, [], ◌∷◌, ◌++◌, append_assoc, length, Bytes, codes, All,
  Bool-cases,
}
use polyfetch.Base.Int.{pos}
use polyfetch.Base.Decimal.{show_ℤ}
use polyfetch.Fetch.{Record}
use polyfetch.Json.{IsPlain}
use polyfetch.Report.{json_escape, str_eq, write_error, write_record, summary_line}
use polyfetch.Report.Escape.{IsClean, json_escape-IsClean}
use polyfetch.Report.Summary.{ok_one, error_one, ok_size, total, lines}
use polyfetch.Contract.{record_object, footer_object, print_line, record_lines}
use polyfetch.Contract.Plain.{IsPlainRecord}

plain-IsClean : (s : Bytes) → IsPlain s → IsClean s
plain-IsClean [] h = tt
plain-IsClean (c ∷ s) (p, h) = ((p.0, p.2, p.3), plain-IsClean s h)

json_escape-IsPlain : (s : Bytes) → IsPlain s → json_escape s ≡ s
json_escape-IsPlain s h = json_escape-IsClean s (plain-IsClean s h)

write_record-print_line :
    (r : Record) → IsPlainRecord r → write_record r ≡ print_line (record_object r)
unfolding write_record write_error
write_record-print_line r (target, status, sha, error) =
    elim (Bool-cases (str_eq r.status (codes "ok"))) [
      | inl ok ↦ rw (ok, json_escape-IsPlain r.target target) (simp append_assoc)
      | inr failed ↦
          rw (failed, json_escape-IsPlain r.target target, json_escape-IsPlain r.error error)
            (simp append_assoc)
    ]

pub lines-record_lines : (rs : List Record) → All IsPlainRecord rs → lines rs ≡ record_lines rs
lines-record_lines [] h = refl
lines-record_lines (r ∷ rs) h = ap₂ ◌++◌ (write_record-print_line r h.0) (lines-record_lines rs h.1)

pub summary_line-print_line :
    (rs : List Record)
    → summary_line
        (length rs)
        (pos (total ok_one rs))
        (pos (total error_one rs))
        (pos (total ok_size rs))
      ≡ print_line (footer_object rs)
unfolding summary_line show_ℤ
summary_line-print_line rs = simp append_assoc
