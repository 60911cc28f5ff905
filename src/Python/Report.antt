-- ===== src/Python/Report.antt =====
-- clients/python/report.py: the order of the records, their lines and the footer. `list.sort` is a
-- parameter, and so is how `json.dumps` writes a string with `ensure_ascii=False`. Strings are compared as
-- their bytes in UTF-8, which is the order of their code points.
use polyfetch.Base.{
  zero, suc, Bool, true, List, [], ◌∷◌, ◌++◌, foldl, length, if◌then◌else◌, Bytes, codes,
}
use polyfetch.Base.Int.{ℤ, pos, negsuc, ◌+ℤ◌, ltb_ℤ, eqb_ℤ}
use polyfetch.Fetch.{Record}
use polyfetch.Json.{Object, Quote, text, number, boolean, print_object, join}
use polyfetch.Report.{str_eq, str_lt}

-- `-` of an integer.
abbrev pub negate : ℤ → ℤ
negate (pos zero) = pos 0
negate (pos (suc n)) = negsuc n
negate (negsuc n) = pos (suc n)

-- `<` of two pairs.
abbrev pub pair_lt : ℤ × Bytes → ℤ × Bytes → Bool
pair_lt (m, s) (n, t) = if eqb_ℤ m n then str_lt s t else ltb_ℤ m n

-- `list.sort` with a key.
abbrev pub KeySort : Type 0
KeySort = (Record → ℤ × Bytes) → List Record → List Record

unfoldable pub sort_key : Record → ℤ × Bytes
sort_key r = (negate r.size_bytes, r.target)

unfoldable pub sort_records : KeySort → List Record → List Record
sort_records sort records = sort sort_key records

-- The entries of `d`.
unfoldable pub record_object : Record → Object
record_object r =
    (codes "target", text r.target)
    ∷ (codes "status", text r.status)
    ∷ (codes "size_bytes", number r.size_bytes)
    ∷ (codes "line_count", number r.line_count)
    ∷ (codes "sha256", text r.sha256)
    ∷ (codes "fetch_ms", number r.fetch_ms)
    ∷ (if str_eq r.status (codes "ok") then [] else (codes "error", text r.error) ∷ [])

unfoldable pub record_to_json : Quote → Record → Bytes
record_to_json quote r = print_object quote (record_object r)

unfoldable pub summary_object : (total ok errors total_bytes : ℤ) → Object
summary_object total ok errors total_bytes =
    (codes "summary", boolean true)
    ∷ (codes "total", number total)
    ∷ (codes "ok", number ok)
    ∷ (codes "errors", number errors)
    ∷ (codes "total_bytes", number total_bytes)
    ∷ []

-- The variables of the loop of `write_report`.
pub record Tally : Type 0 where
  pub lines : List Bytes
  pub ok : ℤ
  pub errors : ℤ
  pub total_bytes : ℤ

module _ (quote : Quote) where
  unfoldable pub report_step : Tally → Record → Tally
  report_step t r =
      let lines = t.lines ++ record_to_json quote r ∷ [] in
      if str_eq r.status (codes "ok")
      then record t {
        lines = lines;
        ok = t.ok +ℤ pos 1;
        total_bytes = t.total_bytes +ℤ r.size_bytes;
      }
      else record t { lines = lines; errors = t.errors +ℤ pos 1 }

  unfoldable pub write_report : KeySort → List Record → Bytes
  write_report sort records =
      let sorted = sort_records sort records in
      let t =
        foldl report_step (record { lines = []; ok = pos 0; errors = pos 0; total_bytes = pos 0 })
          sorted in
      let summary =
        print_object quote (summary_object (pos (length sorted)) t.ok t.errors t.total_bytes) in
      join (codes "\n") (t.lines ++ summary ∷ []) ++ codes "\n"
