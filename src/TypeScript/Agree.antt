-- ===== src/TypeScript/Agree.antt =====
-- A record of the TypeScript client beside the record that the contract asks for.
use polyfetch.Base.{
  ℕ, ◌+◌, ◌≤◌, ◌^◌, ◌≡◌, refl, ◌∙◌, ap, arith, inl, inr, true, List, [], ◌∷◌, ◌++◌, append-nil,
  append_assoc, foldl, flatten, none, length, ◌==◌, Bytes, IsByte, codes, All, Bool-cases,
  length-append,
}
use polyfetch.Base.Int.{ℤ, pos}
use polyfetch.Process.{count}
use polyfetch.Process.Stream.{count-append, count-le-length}
use polyfetch.Fetch.{curle_ok}
use polyfetch.Report.Expected.{Reply, is_success, expected}
use polyfetch.Report.Sorted.{untimed}
use polyfetch.Go.Agree.{IsSha256Hex}
use polyfetch.TypeScript.Fetch.{
  Numbers, IsDouble, Answer, answered, StreamProcessor, count_byte, consume, body_record,
  error_record, answer_record, fetch_and_process,
}

-- A server gives the TypeScript client the reply that it gives libcurl: a response with the status and
-- the whole payload, in some chunks. `ok` says whether the status is from 200 to 299.
pub record Gives (a : Answer) (reply : Reply) : Type 0 where
  pub chunks : List Bytes
  pub whole : a ≡ answered (is_success reply.status) reply.status chunks none
  pub same_payload : reply.payload ≡ flatten chunks
  pub responds : reply.code ≡ curle_ok
  pub bytes : All IsByte (flatten chunks)
  pub small : length (flatten chunks) ≤ 2 ^ 53

module _ (numbers : Numbers) (double : IsDouble numbers) where
  counted :
      (p : Bytes) (n : ℕ)
      → n + length p ≤ 2 ^ 53
      → foldl (count_byte numbers) (pos n) p ≡ pos (n + count b'\n' p)
  counted [] n le = ap pos (omega arith)
  counted (b ∷ p) n le = elim (Bool-cases (b == b'\n')) [
    | inl line ↦
        rw (line, double.exact n 1 (omega arith))
          (counted p (n + 1) (omega arith) ∙ ap pos (omega arith))
    | inr other ↦ rw other (counted p n (omega arith) ∙ ap pos (omega arith))
  ]

  abbrev processor : Bytes → ℕ → ℕ → StreamProcessor
  processor hashed size lines = record {
    hashed = hashed;
    size_bytes = pos size;
    line_count = pos lines;
  }

  processor_eq :
      {h h' : Bytes} {a a' b b' : ℕ}
      → h ≡ h'
      → a ≡ a'
      → b ≡ b'
      → processor h a b ≡ processor h' a' b'
  processor_eq h a b = rw (h, a, b) refl

  consumed :
      (chunks : List Bytes) (hashed : Bytes) (size lines : ℕ)
      → lines ≤ size
      → size + length (flatten chunks) ≤ 2 ^ 53
      → foldl (consume numbers) (processor hashed size lines) chunks
        ≡ processor
            (hashed ++ flatten chunks)
            (size + length (flatten chunks))
            (lines + count b'\n' (flatten chunks))
  unfolding consume flatten
  consumed [] hashed size lines fewer le = rw (append-nil hashed) (ground arith)
  consumed (p ∷ chunks) hashed size lines fewer le =
      let more = length-append p (flatten chunks) in
      let added : numbers.add (pos size) (pos (length p)) ≡ pos (size + length p) =
        double.exact size (length p) (omega (arith, more)) in
      rw (added, counted p lines (omega (arith, more)))
        (consumed chunks (hashed ++ p) (size + length p) (lines + count b'\n' p)
            (omega (arith, count-le-length b'\n' p)) (omega (arith, more))
          ∙ processor_eq (append_assoc hashed p (flatten chunks)) (omega (arith, more))
              (omega (arith, count-append b'\n' p (flatten chunks))))

  module _ (sha256_hex : Bytes → Bytes) (sha : IsSha256Hex sha256_hex) where
    -- When the server responds, `fetchAndProcess` of the TypeScript client returns the record that the
    -- contract asks for, but for its time: the one that `fetch_and_process` in C++ returns. Conditions:
    -- a body of bytes, of at most 2 ^ 53 of them, and `crypto` gives SHA-256.
    pub untimed-fetch_and_process :
        (get : Bytes → Answer) (base_url target : Bytes) (reply : Reply) (ms : ℤ)
        → Gives (get (base_url ++ (codes "/payload/" ++ target))) reply
        → untimed (fetch_and_process numbers sha256_hex get base_url target ms)
          ≡ expected target reply
    unfolding fetch_and_process answer_record body_record error_record
    untimed-fetch_and_process get base_url target reply ms g =
        let done : (reply.code == curle_ok) ≡ true = ground (arith, g.responds) in
        let read : foldl (consume numbers) (processor [] 0 0) g.chunks
            ≡ processor (flatten g.chunks) (length (flatten g.chunks))
                (count b'\n' (flatten g.chunks)) =
          consumed g.chunks [] 0 0 (omega arith) (omega (arith, g.small))
          ∙ processor_eq refl (omega arith) (omega arith) in
        elim (Bool-cases (is_success reply.status)) [
          | inl success ↦
              rw (g.whole, done, success, read, sha (flatten g.chunks) g.bytes, g.same_payload) refl
          | inr refused ↦ rw (g.whole, done, refused) refl
        ]
