-- ===== src/Go/Agree.antt =====
-- A record of the Go client beside the record that the contract asks for.
use polyfetch.Base.{
  ℕ, ◌+◌, ◌^◌, ◌<◌, ◌≡◌, refl, ◌∙◌, ap, arith, inl, inr, true, List, [], ◌∷◌, ◌++◌, foldl, flatten,
  none, length, ◌==◌, Bytes, IsByte, codes, All, Bool-cases, length-append,
}
use polyfetch.Base.Int.{ℤ, pos, to_i64, to_i64_small, ltb_ℤ, eqb_ℤ}
use polyfetch.Sha256.Standard.{fips_digest}
use polyfetch.Process.{count}
use polyfetch.Process.Stream.{count-append, count-le-length}
use polyfetch.Fetch.{Record, curle_ok}
use polyfetch.Report.{before}
use polyfetch.Report.Expected.{Reply, expected}
use polyfetch.Report.Sorted.{untimed}
use polyfetch.Go.Fetch.{
  Answer, answered, count_byte, line_counter_write, process_stream, processed, processed_record,
  error_record, answer_record, fetch_and_process,
}
use polyfetch.Go.Report.{less}

-- The two comparisons are one.
pub less-before : (a b : Record) → less a b ≡ before a b
unfolding less before
less-before a b = elim (Bool-cases (eqb_ℤ a.size_bytes b.size_bytes)) [
  | inl same ↦ rw same refl
  | inr other ↦ rw other refl
]

counted : (p : Bytes) (n : ℕ) → n + length p < 2 ^ 64 → foldl count_byte n p ≡ n + count b'\n' p
counted [] n lt = omega arith
counted (b ∷ p) n lt = counted p (count_byte n b) (ground arith) ∙ ground arith

-- The lines are counted over all chunks.
lines_counted :
    (chunks : List Bytes) (n : ℕ)
    → n + length (flatten chunks) < 2 ^ 64
    → foldl line_counter_write n chunks ≡ n + count b'\n' (flatten chunks)
unfolding line_counter_write flatten
lines_counted [] n lt = omega arith
lines_counted (p ∷ chunks) n lt =
    ap (λ k. foldl line_counter_write k chunks)
      (counted p n (omega (arith, length-append p (flatten chunks))))
    ∙ lines_counted chunks (n + count b'\n' p)
        (omega (arith, length-append p (flatten chunks), count-le-length b'\n' p))
    ∙ omega (arith, count-append b'\n' p (flatten chunks))

-- A server gives the Go client the reply that it gives libcurl: a response with the status and the
-- whole payload, in some chunks.
pub record Gives (a : Answer) (reply : Reply) : Type 0 where
  pub chunks : List Bytes
  pub whole : a ≡ answered reply.status chunks none
  pub same_payload : reply.payload ≡ flatten chunks
  pub responds : reply.code ≡ curle_ok
  pub bytes : All IsByte (flatten chunks)
  pub small : length (flatten chunks) < 2 ^ 63

-- `crypto/sha256` and `encoding/hex` give SHA-256 in lowercase hexadecimal digits.
abbrev pub IsSha256Hex : (Bytes → Bytes) → Type 0
IsSha256Hex sha256_hex = (m : Bytes) → All IsByte m → sha256_hex m ≡ fips_digest m

module _ (sha256_hex : Bytes → Bytes) (sha : IsSha256Hex sha256_hex) where
  processed_whole :
      (chunks : List Bytes)
      → All IsByte (flatten chunks)
      → length (flatten chunks) < 2 ^ 63
      → process_stream sha256_hex chunks none
        ≡ processed
            (fips_digest (flatten chunks))
            (pos (length (flatten chunks)))
            (pos (count b'\n' (flatten chunks)))
  unfolding process_stream
  processed_whole chunks bytes small =
      let lines : to_i64 (foldl line_counter_write 0 chunks) ≡ pos (count b'\n' (flatten chunks)) =
        ap to_i64 (lines_counted chunks 0 (omega arith) ∙ omega arith)
        ∙ to_i64_small (count b'\n' (flatten chunks))
            (omega (arith, count-le-length b'\n' (flatten chunks))) in
      rw (sha (flatten chunks) bytes, to_i64_small (length (flatten chunks)) small, lines) refl

  -- When the server responds, `fetchAndProcess` of the Go client returns the record that the contract
  -- asks for, but for its time: the one that `fetch_and_process` in C++ returns. Conditions: a body of
  -- bytes, of less than 2 ^ 63 bytes, and `crypto/sha256` is SHA-256.
  pub untimed-fetch_and_process :
      (get : Bytes → Answer) (base_url target : Bytes) (reply : Reply) (ms : ℤ)
      → Gives (get (base_url ++ (codes "/payload/" ++ target))) reply
      → untimed (fetch_and_process sha256_hex get base_url target ms) ≡ expected target reply
  unfolding fetch_and_process answer_record processed_record error_record
  untimed-fetch_and_process get base_url target reply ms g =
      let done : (reply.code == curle_ok) ≡ true = ground (arith, g.responds) in
      let read = processed_whole g.chunks g.bytes g.small in
      elim (Bool-cases (ltb_ℤ reply.status (pos 200))) [
        | inl low ↦ rw (g.whole, done, low) refl
        | inr high ↦ elim (Bool-cases (ltb_ℤ reply.status (pos 300))) [
          | inl below ↦ rw (g.whole, done, high, below, read, g.same_payload) refl
          | inr above ↦ rw (g.whole, done, high, above) refl
        ]
      ]
