-- ===== src/Python/Run.antt =====
-- `run` of clients/python/polyfetch.py. The map of `ProcessPoolExecutor` is a parameter.
use polyfetch.Base.{
  ℕ, ◌+◌, List, [], ◌∷◌, Option, none, some, min, length, set, replicate, ◌==◌, if◌then◌else◌,
  Bytes,
}
use polyfetch.Base.Int.{ℤ, pos_part}
use polyfetch.Fetch.{Record}

-- What `ex.map` ends in: the results, or an exception.
pub data Mapped : Type 0 where
  mapped : List Record → Mapped
  raised : Bytes → Mapped

-- `ex.map(process_one, targets, chunksize=1)` with K workers.
abbrev pub PoolMap : Type 0
PoolMap = (workers : ℕ) → (targets : List Bytes) → Mapped

-- What `run` ends in: its list, or the exception.
pub data Ran : Type 0 where
  ran : List (Option Record) → Ran
  failed : Bytes → Ran

-- The loop that stores the results, from index `i` on.
unfoldable pub store : List (Option Record) → ℕ → List Record → List (Option Record)
store results i [] = results
store results i (r ∷ rs) = store (set results i (some r)) (i + 1) rs

unfoldable pub store_mapped : List (Option Record) → Mapped → Ran
store_mapped results (mapped rs) = ran (store results 0 rs)
store_mapped results (raised e) = failed e

unfoldable pub run : PoolMap → (concurrency : ℤ) → List Bytes → Ran
run pool_map concurrency targets =
    let n = length targets in
    let results = replicate n none in
    if n == 0
    then ran results
    else store_mapped results (pool_map (min (pos_part concurrency) n) targets)
