-- ===== src/Process.antt =====
-- clients/cpp/src/process.cpp and clients/cpp/include/process.hpp: what is known of a payload while
-- it streams in. `none` is an overflow of a signed counter.
pub mod Stream
use polyfetch.Base.{ℕ, ◌+◌, List, [], ◌∷◌, Option, some, length, Bytes, ◌==◌, if◌then◌else◌}
use polyfetch.Base.Int.{ℤ, pos, add_i64, to_i64}
use polyfetch.Base.Result.{◌>>=◌}
use polyfetch.Sha256.{Sha256, reset, update, hex_digest}

pub record StreamProcessor : Type 0 where
  pub sha : Sha256
  pub size_bytes : ℤ
  pub line_count : ℤ

-- A new object in storage that held `memory`; the constructor of `Sha256` calls `reset`.
unfoldable pub new : Sha256 → StreamProcessor
new memory = record { sha = reset memory; size_bytes = pos 0; line_count = pos 0 }

-- `std::count`
abbrev pub count : ℕ → Bytes → ℕ
count b [] = 0
count b (x ∷ xs) = (if x == b then 1 else 0) + count b xs

unfoldable pub consume : StreamProcessor → Bytes → Option StreamProcessor
consume p bytes = do
  size ← add_i64 p.size_bytes (to_i64 (length bytes))
  lines ← add_i64 p.line_count (pos (count b'\n' bytes))
  some (record { sha = update p.sha bytes; size_bytes = size; line_count = lines })

unfoldable pub sha_hex : StreamProcessor → Bytes × StreamProcessor
sha_hex p = let (hex, sha) = hex_digest p.sha in (hex, record p { sha = sha })
