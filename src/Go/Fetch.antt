-- ===== src/Go/Fetch.antt =====
-- clients/go/fetch.go and clients/go/process.go: one target, from the response to its record. What `net/http`
-- brings for an address is an argument, and so is the text that `crypto/sha256` and `encoding/hex` give
-- for the bytes that are written. A `Record` has the fields of the one in C++.
use polyfetch.Base.{
  ℕ, ◌+◌, ◌||◌, not, List, [], ◌++◌, foldl, flatten, Option, none, some, length, ◌==◌,
  if◌then◌else◌, Bytes, codes, u64,
}
use polyfetch.Base.Int.{ℤ, pos, to_i64, ltb_ℤ}
use polyfetch.Base.Decimal.{show_ℤ}
use polyfetch.Fetch.{Record}

-- How a request can end: it cannot be built, it has no response, or it has one with a status and a
-- body, which is read in chunks and may break off with an error.
pub data Answer : Type 0 where
  unbuilt : (reason : Bytes) → Answer
  failed : (reason : Bytes) → Answer
  answered : (status : ℤ) → (chunks : List Bytes) → (broken : Option Bytes) → Answer

-- `lc.count++` on the 64 bits of `count`.
abbrev pub count_byte : ℕ → ℕ → ℕ
count_byte count b = if b == b'\n' then u64 (count + 1) else count

-- `lineCounter.Write`
unfoldable pub line_counter_write : ℕ → Bytes → ℕ
line_counter_write count p = foldl count_byte count p

pub data Processed : Type 0 where
  processed : (sha : Bytes) → (size_bytes line_count : ℤ) → Processed
  broken_off : (reason : Bytes) → Processed

module _ (sha256_hex : Bytes → Bytes) where
  unfoldable pub process_stream : List Bytes → Option Bytes → Processed
  process_stream chunks (some reason) = broken_off reason
  process_stream chunks none =
      processed (sha256_hex (flatten chunks)) (to_i64 (length (flatten chunks)))
        (to_i64 (foldl line_counter_write 0 chunks))

unfoldable pub error_record : Bytes → ℤ → Bytes → Record
error_record target fetch_ms reason = record {
  target = target;
  status = codes "error";
  size_bytes = pos 0;
  line_count = pos 0;
  sha256 = [];
  fetch_ms = fetch_ms;
  error = reason;
}

-- The record of a response whose body was processed.
unfoldable pub processed_record : Bytes → ℤ → Processed → Record
processed_record target fetch_ms (broken_off reason) =
    error_record target fetch_ms (codes "read: " ++ reason)
processed_record target fetch_ms (processed sha size lines) = record {
  target = target;
  status = codes "ok";
  size_bytes = size;
  line_count = lines;
  sha256 = sha;
  fetch_ms = fetch_ms;
  error = [];
}

module _ (sha256_hex : Bytes → Bytes) where
  -- The record of an answer.
  unfoldable pub answer_record : Bytes → Answer → (fetch_ms : ℤ) → Record
  answer_record target (unbuilt reason) fetch_ms =
      error_record target fetch_ms (codes "request build: " ++ reason)
  answer_record target (failed reason) fetch_ms =
      error_record target fetch_ms (codes "fetch: " ++ reason)
  answer_record target (answered status chunks broken) fetch_ms =
      if ltb_ℤ status (pos 200) || not (ltb_ℤ status (pos 300))
      then error_record target fetch_ms (codes "status " ++ show_ℤ status)
      else processed_record target fetch_ms (process_stream sha256_hex chunks broken)

  -- `get` is what `net/http` brings for an address.
  unfoldable pub fetch_and_process :
      (get : Bytes → Answer) (base_url target : Bytes) (fetch_ms : ℤ) → Record
  fetch_and_process get base_url target fetch_ms =
      answer_record target (get (base_url ++ (codes "/payload/" ++ target))) fetch_ms
