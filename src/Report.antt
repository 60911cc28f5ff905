-- ===== src/Report.antt =====
-- clients/cpp/src/report.cpp and clients/cpp/include/report.hpp: the records as JSON lines.
-- What goes to the stream is a list of bytes. `none` is an overflow of a signed counter.
pub mod Reader
pub mod Escape
pub mod Line
pub mod Order
pub mod Sorted
pub mod Summary
pub mod Contract
pub mod Expected
use polyfetch.Base.{
  ℕ, ◌+◌, ◌/◌, Bool, true, false, List, [], ◌∷◌, ◌++◌, Option, some, length, get_or, bit_and, ltb,
  ◌==◌, if◌then◌else◌, Bytes, codes,
}
use polyfetch.Base.Int.{ℤ, pos, ltb_ℤ, eqb_ℤ, add_i32, add_i64}
use polyfetch.Base.Decimal.{show_ℕ, show_ℤ}
use polyfetch.Base.Result.{◌>>=◌}
use polyfetch.Fetch.{Record}

abbrev pub hex : Bytes
hex = codes "0123456789abcdef"

-- The `switch` for one character.
unfoldable pub escape_char : ℕ → Bytes
escape_char c =
    if c == 0x22
    then codes "\\\""
    else if c == 0x5c
    then codes "\\\\"
    else if c == 0x08
    then codes "\\b"
    else if c == 0x0c
    then codes "\\f"
    else if c == 0x0a
    then codes "\\n"
    else if c == 0x0d
    then codes "\\r"
    else if c == 0x09
    then codes "\\t"
    else if ltb c 0x20
    then codes "\\u00" ++ get_or hex (c / 16) 0 ∷ get_or hex (bit_and c 0x0f) 0 ∷ []
    else c ∷ []

unfoldable pub json_escape : Bytes → Bytes
json_escape [] = []
json_escape (c ∷ s) = escape_char c ++ json_escape s

-- `==` and `<` of `std::string`, whose characters compare as unsigned.
abbrev pub str_eq : Bytes → Bytes → Bool
str_eq [] [] = true
str_eq [] (b ∷ bs) = false
str_eq (a ∷ as') [] = false
str_eq (a ∷ as') (b ∷ bs) = if a == b then str_eq as' bs else false

abbrev pub str_lt : Bytes → Bytes → Bool
str_lt [] [] = false
str_lt [] (b ∷ bs) = true
str_lt (a ∷ as') [] = false
str_lt (a ∷ as') (b ∷ bs) = if a == b then str_lt as' bs else ltb a b

-- The field `error`, which is left out of a record that is ok.
unfoldable pub write_error : Record → Bytes
write_error r =
    if str_eq r.status (codes "ok")
    then []
    else codes ",\"error\":\"" ++ (json_escape r.error ++ codes "\"")

unfoldable pub write_record : Record → Bytes
write_record r =
    codes "{\"target\":\""
    ++ (json_escape r.target
        ++ (codes "\",\"status\":\""
            ++ (r.status
                ++ (codes "\",\"size_bytes\":"
                    ++ (show_ℤ r.size_bytes
                        ++ (codes ",\"line_count\":"
                            ++ (show_ℤ r.line_count
                                ++ (codes ",\"sha256\":\""
                                    ++ (r.sha256
                                        ++ (codes "\",\"fetch_ms\":"
                                            ++ (show_ℤ r.fetch_ms
                                                ++ (write_error r ++ codes "}\n"))))))))))))

-- The comparison that `sort_records` gives to `std::sort`.
unfoldable pub before : Record → Record → Bool
before a b =
    if eqb_ℤ a.size_bytes b.size_bytes
    then str_lt a.target b.target
    else ltb_ℤ b.size_bytes a.size_bytes

-- `std::sort` leaves the order of equivalent elements open, so it is a parameter.
abbrev pub Sort : Type 0
Sort = (Record → Record → Bool) → List Record → List Record

unfoldable pub sort_records : Sort → List Record → List Record
sort_records sort records = sort before records

-- The variables of the loop of `write_report`.
pub record Tally : Type 0 where
  pub out : Bytes
  pub ok : ℤ
  pub errors : ℤ
  pub total_bytes : ℤ

unfoldable pub report_step : Tally → Record → Option Tally
report_step t r =
    let out = t.out ++ write_record r in
    if str_eq r.status (codes "ok")
    then (do
      ok ← add_i32 t.ok (pos 1)
      total ← add_i64 t.total_bytes r.size_bytes
      some (record { out = out; ok = ok; errors = t.errors; total_bytes = total }))
    else (do
      errors ← add_i32 t.errors (pos 1)
      some (record { out = out; ok = t.ok; errors = errors; total_bytes = t.total_bytes }))

unfoldable pub report_loop : Tally → List Record → Option Tally
report_loop t [] = some t
report_loop t (r ∷ rs) = report_step t r >>= λ t'. report_loop t' rs

unfoldable pub summary_line : (total : ℕ) (ok errors total_bytes : ℤ) → Bytes
summary_line total ok errors total_bytes =
    codes "{\"summary\":true"
    ++ (codes ",\"total\":"
        ++ (show_ℕ total
            ++ (codes ",\"ok\":"
                ++ (show_ℤ ok
                    ++ (codes ",\"errors\":"
                        ++ (show_ℤ errors
                            ++ (codes ",\"total_bytes\":"
                                ++ (show_ℤ total_bytes ++ codes "}\n"))))))))

unfoldable pub write_report : Sort → List Record → Option Bytes
write_report sort records = do
  let sorted = sort_records sort records
  t ← report_loop (record { out = []; ok = pos 0; errors = pos 0; total_bytes = pos 0 }) sorted
  some (t.out ++ summary_line (length sorted) t.ok t.errors t.total_bytes)
