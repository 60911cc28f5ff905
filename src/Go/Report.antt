-- ===== src/Go/Report.antt =====
-- clients/go/report.go: the order of the records, their lines and the footer. `sort.Slice` is a
-- parameter, and so is how `encoding/json` writes a string with `SetEscapeHTML(false)`. Writing to the
-- stream does not fail.
use polyfetch.Base.{
  ℕ, ◌+◌, ◌-◌, ◌%◌, ◌^◌, Bool, true, not, List, [], ◌∷◌, ◌++◌, Bytes, foldl, length, if◌then◌else◌,
  codes,
}
use polyfetch.Base.Int.{ℤ, pos, negsuc, to_i64, ltb_ℤ, eqb_ℤ}
use polyfetch.Fetch.{Record}
use polyfetch.Json.{Object, Quote, text, number, boolean, encode}
use polyfetch.Report.{Sort, str_eq, str_lt}

-- The comparison that `sortRecords` gives to `sort.Slice`.
unfoldable pub less : Record → Record → Bool
less a b =
    if not (eqb_ℤ a.size_bytes b.size_bytes)
    then ltb_ℤ b.size_bytes a.size_bytes
    else str_lt a.target b.target

unfoldable pub sort_records : Sort → List Record → List Record
sort_records sort records = sort less records

-- A signed sum of 64 bits, which wraps.
abbrev pub bits_of : ℤ → ℕ
bits_of (pos n) = n % 2 ^ 64
bits_of (negsuc n) = 2 ^ 64 - 1 - n % 2 ^ 64

unfoldable pub wrap_add : ℤ → ℤ → ℤ
wrap_add a b = to_i64 (bits_of a + bits_of b)

pub record Summary : Type 0 where
  pub total : ℕ
  pub ok : ℤ
  pub errors : ℤ
  pub total_bytes : ℤ

-- The counts for one record.
unfoldable pub tally : Summary → Record → Summary
tally sum r =
    if str_eq r.status (codes "ok")
    then record sum {
      ok = wrap_add sum.ok (pos 1);
      total_bytes = wrap_add sum.total_bytes r.size_bytes;
    }
    else record sum { errors = wrap_add sum.errors (pos 1) }

-- The footer of `writeReport` for the sorted records.
unfoldable pub summarize : List Record → Summary
summarize records =
    foldl tally (record { total = length records; ok = pos 0; errors = pos 0; total_bytes = pos 0 })
      records

-- The fields of `Record` by their tags; `omitempty` leaves an empty error out.
unfoldable pub record_object : Record → Object
record_object r =
    (codes "target", text r.target)
    ∷ (codes "status", text r.status)
    ∷ (codes "size_bytes", number r.size_bytes)
    ∷ (codes "line_count", number r.line_count)
    ∷ (codes "sha256", text r.sha256)
    ∷ (codes "fetch_ms", number r.fetch_ms)
    ∷ (if str_eq r.error [] then [] else (codes "error", text r.error) ∷ [])

-- The fields of `Summary`.
unfoldable pub summary_object : Summary → Object
summary_object sum =
    (codes "summary", boolean true)
    ∷ (codes "total", number (pos sum.total))
    ∷ (codes "ok", number sum.ok)
    ∷ (codes "errors", number sum.errors)
    ∷ (codes "total_bytes", number sum.total_bytes)
    ∷ []

-- What the calls of `enc.Encode` in the loop of `writeReport` write.
unfoldable pub encode_records : Quote → List Record → Bytes
encode_records quote [] = []
encode_records quote (r ∷ rs) = encode quote (record_object r) ++ encode_records quote rs

unfoldable pub write_report : Quote → Sort → List Record → Bytes
write_report quote sort records =
    let sorted = sort_records sort records in
    encode_records quote sorted ++ encode quote (summary_object (summarize sorted))
