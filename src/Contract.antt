-- ===== src/Contract.antt =====
-- README.md, sections 7 and 8: what every client has to print, in its own terms. A report stands for
-- the records of all targets; it has their lines in order, and a footer.
pub mod Plain
pub mod Joined
pub mod Unique
use mathlib.Core.List.{Perm, Pairwise}
use polyfetch.Base.{ℕ, true, List, [], ◌∷◌, ◌++◌, ◌≡◌, map, length, if◌then◌else◌, Bytes, codes}
use polyfetch.Base.Int.{pos}
use polyfetch.Fetch.{Record}
use polyfetch.Json.{text, number, boolean, Object, plain_quote, encode}
use polyfetch.Report.{str_eq}
use polyfetch.Report.Expected.{Reply, answer}
use polyfetch.Report.Sorted.{InOrder, untimed}
use polyfetch.Report.Summary.{ok_one, error_one, ok_size, total}

-- Section 7.1: the error only where the status is not "ok".
abbrev pub record_object : Record → Object
record_object r =
    (codes "target", text r.target)
    ∷ (codes "status", text r.status)
    ∷ (codes "size_bytes", number r.size_bytes)
    ∷ (codes "line_count", number r.line_count)
    ∷ (codes "sha256", text r.sha256)
    ∷ (codes "fetch_ms", number r.fetch_ms)
    ∷ (if str_eq r.status (codes "ok") then [] else (codes "error", text r.error) ∷ [])

-- Section 7.2.
abbrev pub footer_object : List Record → Object
footer_object rs =
    (codes "summary", boolean true)
    ∷ (codes "total", number (pos (length rs)))
    ∷ (codes "ok", number (pos (total ok_one rs)))
    ∷ (codes "errors", number (pos (total error_one rs)))
    ∷ (codes "total_bytes", number (pos (total ok_size rs)))
    ∷ []

abbrev pub print_line : Object → Bytes
print_line = encode plain_quote

abbrev pub record_lines : List Record → Bytes
record_lines [] = []
record_lines (r ∷ rs) = print_line (record_object r) ++ record_lines rs

abbrev pub report_text : List Record → Bytes
report_text rs = record_lines rs ++ print_line (footer_object rs)

-- Section 7.3: a line without its time.
abbrev pub delete_key : Bytes → Object → Object
delete_key key [] = []
delete_key key ((k, v) ∷ members) =
    let rest = delete_key key members in if str_eq k key then rest else (k, v) ∷ rest

abbrev pub stripped_lines : List Record → Bytes
stripped_lines [] = []
stripped_lines (r ∷ rs) =
    print_line (delete_key (codes "fetch_ms") (record_object r)) ++ stripped_lines rs

abbrev pub stripped_text : List Record → Bytes
stripped_text rs = stripped_lines rs ++ print_line (footer_object rs)

-- A report on the targets, for a server that answers each of them in one way: the lines of records
-- that are the expected ones but for their times, in the order of section 8, and the footer.
pub record IsReport (serve : Bytes → Reply) (targets : List Bytes) (out : Bytes) : Type 0 where
  pub records : List Record
  pub answers : Perm (map untimed records) (map (answer serve) targets)
  pub ordered : Pairwise InOrder records
  pub prints : out ≡ report_text records
