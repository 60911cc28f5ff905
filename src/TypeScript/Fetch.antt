-- ===== src/TypeScript/Fetch.antt =====
-- clients/typescript/src/fetch.ts and clients/typescript/src/process.ts: one target, from the response to
-- its record. What `fetch` brings for an address is an argument, and so is the text that `crypto` gives
-- for the bytes that are fed to it, and the arithmetic of numbers. A `Record` has the fields of the one in
-- C++, with an empty `error` where there is none.
use polyfetch.Base.{
  ◌≡◌, ◌+◌, ◌≤◌, ◌^◌, ℕ, Bool, false, List, [], ◌++◌, foldl, Option, none, some, length, ◌==◌,
  if◌then◌else◌, Bytes, codes,
}
use polyfetch.Base.Int.{ℤ, pos, ltb_ℤ}
use polyfetch.Base.Decimal.{show_ℤ}
use polyfetch.Fetch.{Record}
use polyfetch.Report.{str_eq}

-- `+` and `-` of numbers, for integers.
pub record Numbers : Type 0 where
  pub add : ℤ → ℤ → ℤ
  pub subtract : ℤ → ℤ → ℤ

-- A double: sums up to 2 ^ 53 are exact, and a difference has the right sign.
pub record IsDouble (numbers : Numbers) : Type 0 where
  pub exact : (a b : ℕ) → a + b ≤ 2 ^ 53 → numbers.add (pos a) (pos b) ≡ pos (a + b)
  pub negative : (a b : ℤ) → ltb_ℤ (numbers.subtract a b) (pos 0) ≡ ltb_ℤ a b
  pub positive : (a b : ℤ) → ltb_ℤ (pos 0) (numbers.subtract a b) ≡ ltb_ℤ b a

-- What `catch` gets.
pub record Failure : Type 0 where
  pub name : Option Bytes
  pub message : Option Bytes

-- How a request can end: without a response, or with one, whose body is read in chunks and may break off.
-- A response without a body has no chunks.
pub data Answer : Type 0 where
  failed : Failure → Answer
  answered : (ok : Bool) → (status : ℤ) → (chunks : List Bytes) → (broken : Option Failure) → Answer

-- `StreamProcessor`, with the bytes that were fed to the hash.
pub record StreamProcessor : Type 0 where
  pub hashed : Bytes
  pub size_bytes : ℤ
  pub line_count : ℤ

unfoldable pub error_record : Bytes → ℤ → Bytes → Record
error_record target fetch_ms reason = record {
  target = target;
  status = codes "error";
  size_bytes = pos 0;
  line_count = pos 0;
  sha256 = [];
  fetch_ms = fetch_ms;
  error = reason;
}

abbrev or_else : Option Bytes → Bytes → Bytes
or_else none s = s
or_else (some t) s = t

-- `=== "AbortError"`
abbrev is_abort : Option Bytes → Bool
is_abort none = false
is_abort (some name) = str_eq name (codes "AbortError")

-- The record that `catch` returns.
unfoldable pub caught_record : Bytes → ℤ → Failure → Record
caught_record target fetch_ms e = error_record target fetch_ms (
    if is_abort e.name
    then codes "fetch: timeout"
    else codes "fetch: " ++ or_else e.message (codes "error"))

module _ (numbers : Numbers) where
  abbrev pub count_byte : ℤ → ℕ → ℤ
  count_byte lines b = if b == b'\n' then numbers.add lines (pos 1) else lines

  unfoldable pub consume : StreamProcessor → Bytes → StreamProcessor
  consume proc chunk = record {
    hashed = proc.hashed ++ chunk;
    size_bytes = numbers.add proc.size_bytes (pos (length chunk));
    line_count = foldl count_byte proc.line_count chunk;
  }

  module _ (sha256_hex : Bytes → Bytes) where
    -- The record of a body that was read to its end, or broke off.
    unfoldable pub body_record : Bytes → ℤ → List Bytes → Option Failure → Record
    body_record target fetch_ms chunks (some e) = caught_record target fetch_ms e
    body_record target fetch_ms chunks none =
        let proc =
          foldl consume (record { hashed = []; size_bytes = pos 0; line_count = pos 0 }) chunks in
        record {
          target = target;
          status = codes "ok";
          size_bytes = proc.size_bytes;
          line_count = proc.line_count;
          sha256 = sha256_hex proc.hashed;
          fetch_ms = fetch_ms;
          error = [];
        }

    unfoldable pub answer_record : Bytes → ℤ → Answer → Record
    answer_record target fetch_ms (failed e) = caught_record target fetch_ms e
    answer_record target fetch_ms (answered ok status chunks broken) =
        if ok
        then body_record target fetch_ms chunks broken
        else error_record target fetch_ms (codes "status " ++ show_ℤ status)

    -- `get` is what `fetch` brings for an address.
    unfoldable pub fetch_and_process :
        (get : Bytes → Answer) (base_url target : Bytes) (fetch_ms : ℤ) → Record
    fetch_and_process get base_url target fetch_ms =
        answer_record target fetch_ms (get (base_url ++ (codes "/payload/" ++ target)))
