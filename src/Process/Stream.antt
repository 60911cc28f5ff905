-- ===== src/Process/Stream.antt =====
-- The counters and the digest of a payload that comes in chunks.
use polyfetch.Base.{
  ℕ, ◌+◌, ◌^◌, ◌≤◌, ◌<◌, ◌≡◌, refl, arith, [], ◌∷◌, ◌++◌, some, length, Bytes, length-append,
}
use polyfetch.Base.Int.{pos, add_i64_pos, to_i64_small}
use polyfetch.Sha256.{Sha256, update}
use polyfetch.Sha256.Digest.{HasRead, update-HasRead, reset-HasRead}
use polyfetch.Process.{StreamProcessor, new, count, consume}

-- What is known behind a payload `m`.
pub record HasSeen (p : StreamProcessor) (m : Bytes) : Type 0 where
  pub read : HasRead p.sha m
  pub size : p.size_bytes ≡ pos (length m)
  pub lines : p.line_count ≡ pos (count b'\n' m)

pub new-HasSeen : (memory : Sha256) → length memory.buffer ≡ 64 → HasSeen (new memory) []
unfolding new
new-HasSeen memory size = record { read = reset-HasRead memory size; size = refl; lines = refl }

pub count-append : (b : ℕ) (xs ys : Bytes) → count b (xs ++ ys) ≡ count b xs + count b ys
count-append b [] ys = omega arith
count-append b (x ∷ xs) ys = ground (arith, count-append b xs ys)

pub count-le-length : (b : ℕ) (xs : Bytes) → count b xs ≤ length xs
count-le-length b [] = omega arith
count-le-length b (x ∷ xs) = ground (arith, count-le-length b xs)

-- When an object has seen a payload, and the payload with the next chunk is shorter than 2 ^ 63 bytes,
-- `consume` has no overflow, and the new object has seen the payload with the chunk: its size, its
-- line feeds and what the hash has read.
pub consume-HasSeen :
    {p : StreamProcessor} {m : Bytes}
    → HasSeen p m
    → (d : Bytes) → length m + length d < 2 ^ 63
    → (p' : StreamProcessor) × (consume p d ≡ some p') × HasSeen p' (m ++ d)
unfolding consume
consume-HasSeen {p} {m} seen d fits = (
  record {
    sha = update p.sha d;
    size_bytes = pos (length m + length d);
    line_count = pos (count b'\n' m + count b'\n' d);
  },
  rw (
    seen.size,
    seen.lines,
    to_i64_small (length d) (omega arith),
    add_i64_pos (length m) (length d) fits,
    add_i64_pos (count b'\n' m) (count b'\n' d)
        (omega (arith, count-le-length b'\n' m, count-le-length b'\n' d)),
  ),
  record {
    read = update-HasRead seen.read d;
    size = rw (length-append m d);
    lines = rw (count-append b'\n' m d);
  },
)
