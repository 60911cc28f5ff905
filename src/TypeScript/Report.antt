-- ===== src/TypeScript/Report.antt =====
-- clients/typescript/src/report.ts: the order of the records, their lines and the footer. `Array.sort` is
-- a parameter, and so is how `JSON.stringify` writes a string. Strings are compared as their bytes, which
-- is the order of JavaScript for ASCII.
use polyfetch.Base.{true, not, List, [], ◌∷◌, ◌++◌, foldl, length, if◌then◌else◌, Bytes, codes}
use polyfetch.Base.Int.{ℤ, pos, negsuc, eqb_ℤ}
use polyfetch.Fetch.{Record}
use polyfetch.Json.{Object, Quote, text, number, boolean, print_object, join}
use polyfetch.Report.{str_eq, str_lt}
use polyfetch.TypeScript.Fetch.{Numbers}

-- `Array.sort` with a comparison.
abbrev pub ArraySort : Type 0
ArraySort = (Record → Record → ℤ) → List Record → List Record

-- The fields of `ordered`.
unfoldable pub record_object : Record → Object
record_object r =
    (codes "target", text r.target)
    ∷ (codes "status", text r.status)
    ∷ (codes "size_bytes", number r.size_bytes)
    ∷ (codes "line_count", number r.line_count)
    ∷ (codes "sha256", text r.sha256)
    ∷ (codes "fetch_ms", number r.fetch_ms)
    ∷ (if str_eq r.status (codes "ok") then [] else (codes "error", text r.error) ∷ [])

unfoldable pub record_to_json : Quote → Record → Bytes
record_to_json quote r = print_object quote (record_object r)

-- The variables of the loop of `writeReport`.
pub record Tally : Type 0 where
  pub lines : List Bytes
  pub ok : ℤ
  pub errors : ℤ
  pub total_bytes : ℤ

unfoldable pub summary_object : (total ok errors total_bytes : ℤ) → Object
summary_object total ok errors total_bytes =
    (codes "summary", boolean true)
    ∷ (codes "total", number total)
    ∷ (codes "ok", number ok)
    ∷ (codes "errors", number errors)
    ∷ (codes "total_bytes", number total_bytes)
    ∷ []

module _ (numbers : Numbers) where
  -- The comparison that `sortRecords` gives to `Array.sort`.
  unfoldable pub compare : Record → Record → ℤ
  compare a b =
      if not (eqb_ℤ a.size_bytes b.size_bytes)
      then numbers.subtract b.size_bytes a.size_bytes
      else if str_lt a.target b.target
      then negsuc 0
      else if str_lt b.target a.target
      then pos 1
      else pos 0

  unfoldable pub sort_records : ArraySort → List Record → List Record
  sort_records sort records = sort compare records

  module _ (quote : Quote) where
    unfoldable pub report_step : Tally → Record → Tally
    report_step t r =
        let lines = t.lines ++ record_to_json quote r ∷ [] in
        if str_eq r.status (codes "ok")
        then record t {
          lines = lines;
          ok = numbers.add t.ok (pos 1);
          total_bytes = numbers.add t.total_bytes r.size_bytes;
        }
        else record t { lines = lines; errors = numbers.add t.errors (pos 1) }

    unfoldable pub write_report : ArraySort → List Record → Bytes
    write_report sort records =
        let sorted = sort_records sort records in
        let t =
          foldl report_step (record { lines = []; ok = pos 0; errors = pos 0; total_bytes = pos 0 })
            sorted in
        let summary =
          print_object quote (summary_object (pos (length sorted)) t.ok t.errors t.total_bytes) in
        join (codes "\n") (t.lines ++ summary ∷ []) ++ codes "\n"
