-- ===== src/Python/Agree.antt =====
-- A record of the Python client beside the record that the contract asks for.
use polyfetch.Base.{
  ℕ, ◌+◌, ◌≡◌, refl, sym, ◌∙◌, arith, inl, inr, true, List, [], ◌∷◌, ◌++◌, append-nil, append_assoc,
  foldl, flatten, Option, none, length, ◌==◌, Bytes, IsByte, codes, All, Bool-cases, length-append,
}
use polyfetch.Base.Int.{ℤ, pos, ◌+ℤ◌}
use polyfetch.Process.{count}
use polyfetch.Process.Stream.{count-append}
use polyfetch.Fetch.{curle_ok}
use polyfetch.Report.Expected.{Reply, is_success, expected}
use polyfetch.Report.Sorted.{untimed}
use polyfetch.Go.Agree.{IsSha256Hex}
use polyfetch.Python.Fetch.{
  Answer, answered, HttpClient, StreamProcessor, consume, error_record, ok_record, finish,
  connection, fetch,
}

-- A server gives the Python client the reply that it gives libcurl: a response with the status and the
-- whole payload, in some chunks.
pub record Gives (a : Answer) (reply : Reply) : Type 0 where
  pub chunks : List Bytes
  pub whole : a ≡ answered reply.status chunks none
  pub same_payload : reply.payload ≡ flatten chunks
  pub responds : reply.code ≡ curle_ok
  pub bytes : All IsByte (flatten chunks)

pub add_pos : (a b : ℕ) → pos a +ℤ pos b ≡ pos (a + b)
add_pos a b = ground arith

abbrev processor : Bytes → ℕ → ℕ → StreamProcessor
processor hashed size lines = record { hashed = hashed; size = pos size; lines = pos lines }

processor_eq :
    {h h' : Bytes} {a a' b b' : ℕ} → h ≡ h' → a ≡ a' → b ≡ b' → processor h a b ≡ processor h' a' b'
processor_eq h a b = rw (h, a, b) refl

consumed :
    (chunks : List Bytes) (hashed : Bytes) (size lines : ℕ)
    → foldl consume (processor hashed size lines) chunks
      ≡ processor
          (hashed ++ flatten chunks)
          (size + length (flatten chunks))
          (lines + count b'\n' (flatten chunks))
unfolding consume flatten
consumed [] hashed size lines = processor_eq (sym (append-nil hashed)) (omega arith) (omega arith)
consumed (p ∷ chunks) hashed size lines =
    rw (add_pos size (length p), add_pos lines (count b'\n' p))
      (consumed chunks (hashed ++ p) (size + length p) (lines + count b'\n' p)
        ∙ processor_eq (append_assoc hashed p (flatten chunks))
            (omega (arith, length-append p (flatten chunks)))
            (omega (arith, count-append b'\n' p (flatten chunks))))

module _ (http : HttpClient) (sha256_hex : Bytes → Bytes) (sha : IsSha256Hex sha256_hex) where
  -- When the server responds, `Fetcher.fetch` of the Python client returns the record that the contract
  -- asks for, but for its time, whatever the connection of the worker is. Conditions: a body of bytes, and
  -- `hashlib` gives SHA-256.
  pub untimed-fetch :
      (conn : Option http.Connection) (target : Bytes) (reply : Reply) (ms : ℤ)
      → Gives (http.request (connection http conn) (codes "/payload/" ++ target)).0 reply
      → untimed (fetch http sha256_hex conn target ms).0 ≡ expected target reply
  unfolding fetch finish ok_record error_record
  untimed-fetch conn target reply ms g =
      let done : (reply.code == curle_ok) ≡ true = ground (arith, g.responds) in
      let read : foldl consume (processor [] 0 0) g.chunks
          ≡ processor (flatten g.chunks) (length (flatten g.chunks))
              (count b'\n' (flatten g.chunks)) =
        consumed g.chunks [] 0 0 ∙ processor_eq refl (omega arith) (omega arith) in
      elim (Bool-cases (is_success reply.status)) [
        | inl success ↦
            rw (g.whole, done, success, read, sha (flatten g.chunks) g.bytes, g.same_payload) refl
        | inr refused ↦ rw (g.whole, done, refused) refl
      ]
