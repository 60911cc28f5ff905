-- ===== src/Threads/Refine.antt =====
-- The threads with their handles beside the pool of `Run`.
use polyfetch.Base.{
  ℕ, ◌+◌, ◌^◌, ◌≤◌, ◌<◌, ◌≡◌, refl, arith, inl, inr, false, List, Option, none, some, length, Bytes,
  Bool-cases,
}
use polyfetch.Fetch.{Record, Curl}
use polyfetch.Run.{Fetches, slot_record, thread_count, run}
use polyfetch.Run.Invariant.{own_record}
use polyfetch.Run.Results.{thread_count_bounds}
use polyfetch.Threads.{Setup, run_threads}
use polyfetch.Threads.Fetched.{is_some, table_fetches}
use polyfetch.Threads.Step.{has_handle}
use polyfetch.Threads.Simulate.{AreGood, thread_steps_refine}

-- If every fetch has a result of which `P` holds, and `P` holds of the record of a thread without a
-- handle and of some record for each index, then under every schedule the threads with their handles return what `run` returns for some
-- fetches, and `P` holds of every record that these give. Conditions: a concurrency of at least 1, and
-- less than 2 ^ 64 for targets and concurrency together.
pub run_threads-run :
    (c : Curl) (setup : Setup c.Handle) (targets : List Bytes) (P : ℕ → Record → Type 0)
    → AreGood c setup targets P
    → (concurrency : ℕ) (schedule : List ℕ) → 1 ≤ concurrency
    → length targets + concurrency < 2 ^ 64
    → (env : Fetches) × (((w i : ℕ) → P i (own_record env targets w i))
        × (run_threads c setup targets concurrency schedule ≡ run env targets concurrency schedule))
unfolding run_threads run
run_threads-run c setup targets P good concurrency schedule pos few =
    let bounds = thread_count_bounds concurrency (length targets) pos in
    let (machine, (table, ran, is_good, same)) =
      thread_steps_refine c setup targets P good (thread_count concurrency (length targets))
        schedule (omega (arith, bounds)) in
    (
      table_fetches (has_handle c setup targets) table,
      (
        λ w i. elim (Bool-cases (has_handle c setup targets w)) [
          | inl got ↦ unfold slot_record in rw got (is_good w i)
          | inr lacks ↦
              unfold slot_record in rw lacks (good.without w i (lacking (setup.easy_init w) lacks))
        ],
        rw (ran, same) refl,
      ),
    )
  where
    lacking : (h : Option c.Handle) → is_some h ≡ false → h ≡ none
    lacking none e = refl
    lacking (some h) e = cc
