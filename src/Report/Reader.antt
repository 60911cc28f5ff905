-- ===== src/Report/Reader.antt =====
-- A reader of JSON text by RFC 8259, for the report lines: strings with their escapes, integers,
-- and a record with its keys in the order of the contract. It stands on its own, not on the writer.
use polyfetch.Base.{
  ℕ, zero, suc, ◌+◌, ◌-◌, ◌*◌, Bool, true, false, ◌&&◌, [], ◌∷◌, Option, none, some, ltb, leb, ◌==◌,
  if◌then◌else◌, Bytes, codes,
}
use polyfetch.Base.Int.{ℤ, pos, sub_ℕ}
use polyfetch.Base.Result.{◌>>=◌}
use polyfetch.Fetch.{Record}

-- Where a string reader stands: between characters, behind a backslash, in `\uXXXX`.
pub data Mode : Type 0 where
  plain : Mode
  escaped : Mode
  hexed : (left value : ℕ) → Mode

pub data Action : Type 0 where
  stop : Action
  fail : Action
  emit : ℕ → Action
  go : Mode → Action

unfoldable pub hex_value : ℕ → Option ℕ
hex_value c =
    if leb b'0' c && leb c b'9'
    then some (c - b'0')
    else if leb b'a' c && leb c b'f'
    then some (c - b'a' + 10)
    else if leb b'A' c && leb c b'F'
    then some (c - b'A' + 10)
    else none

-- The character that stands behind a backslash.
unfoldable pub escape_action : ℕ → Action
escape_action c =
    if c == b'u'
    then go (hexed 4 0)
    else if c == b'b'
    then emit 0x08
    else if c == b'f'
    then emit 0x0c
    else if c == b'n'
    then emit 0x0a
    else if c == b'r'
    then emit 0x0d
    else if c == b't'
    then emit 0x09
    else if c == 0x22
    then emit 0x22
    else if c == 0x5c
    then emit 0x5c
    else if c == 0x2f
    then emit 0x2f
    else fail

-- A digit of `\uXXXX`; only characters of one byte are read.
unfoldable pub hex_action : ℕ → ℕ → Option ℕ → Action
hex_action left value none = fail
hex_action zero value (some d) = fail
hex_action (suc zero) value (some d) =
    if ltb (value * 16 + d) 0x80 then emit (value * 16 + d) else fail
hex_action (suc (suc left)) value (some d) = go (hexed (suc left) (value * 16 + d))

unfoldable pub action : Mode → ℕ → Action
action plain c =
    if c == 0x22
    then stop
    else if c == 0x5c
    then go escaped
    else if ltb c 0x20
    then fail
    else emit c
action escaped c = escape_action c
action (hexed left value) c = hex_action left value (hex_value c)

-- A string up to its closing quote, and the text behind it.
unfoldable pub read_string : Mode → Bytes → Option (Bytes × Bytes)
read_string m [] = none
read_string m (c ∷ s) = elim (action m c) [
  | stop ↦ some ([], s)
  | fail ↦ none
  | emit b ↦ read_string plain s >>= λ (t, rest). some (b ∷ t, rest)
  | go m' ↦ read_string m' s
]

unfoldable pub is_digit : ℕ → Bool
is_digit c = leb b'0' c && leb c b'9'

-- Digits behind `n`, as many as there are.
unfoldable pub read_digits : ℕ → Bytes → ℕ × Bytes
read_digits n [] = (n, [])
read_digits n (c ∷ s) = elim (is_digit c) [
  | true ↦ read_digits (n * 10 + (c - b'0')) s
  | false ↦ (n, c ∷ s)
]

unfoldable pub read_ℕ : Bytes → Option (ℕ × Bytes)
read_ℕ [] = none
read_ℕ (c ∷ s) = if is_digit c then some (read_digits 0 (c ∷ s)) else none

unfoldable pub read_ℤ : Bytes → Option (ℤ × Bytes)
read_ℤ [] = none
read_ℤ (c ∷ s) =
    if c == b'-'
    then (read_ℕ s >>= λ (n, rest). some (sub_ℕ 0 n, rest))
    else (read_ℕ (c ∷ s) >>= λ (n, rest). some (pos n, rest))

-- A fixed text, and what is behind it.
unfoldable pub expect : Bytes → Bytes → Option Bytes
expect [] s = some s
expect (c ∷ cs) [] = none
expect (c ∷ cs) (d ∷ s) = if c == d then expect cs s else none

-- The end of a record: nothing, or the field `error`.
unfoldable pub read_error : Bytes → Option (Bytes × Bytes)
read_error s = elim (expect (codes "}\n") s) [
  | some rest ↦ some ([], rest)
  | none ↦ do
    s ← expect (codes ",\"error\":\"") s
    (error, s) ← read_string plain s
    rest ← expect (codes "}\n") s
    some (error, rest)
]

unfoldable pub read_record : Bytes → Option (Record × Bytes)
read_record s = do
  s ← expect (codes "{\"target\":\"") s
  (target, s) ← read_string plain s
  s ← expect (codes ",\"status\":\"") s
  (status, s) ← read_string plain s
  s ← expect (codes ",\"size_bytes\":") s
  (size_bytes, s) ← read_ℤ s
  s ← expect (codes ",\"line_count\":") s
  (line_count, s) ← read_ℤ s
  s ← expect (codes ",\"sha256\":\"") s
  (sha256, s) ← read_string plain s
  s ← expect (codes ",\"fetch_ms\":") s
  (fetch_ms, s) ← read_ℤ s
  (error, rest) ← read_error s
  some (
    record {
      target = target;
      status = status;
      size_bytes = size_bytes;
      line_count = line_count;
      sha256 = sha256;
      fetch_ms = fetch_ms;
      error = error;
    },
    rest,
  )
