-- ===== src/Tests/Threads.antt =====
-- Examples for the theorems on the threads with their handles: two threads, two targets.
use native.Mathlib.Decide.{ℕ_discrete}
use polyfetch.Base.{ℕ, zero, suc, ◌≡◌, refl, arith, [], ◌∷◌, Option, none, some, Bytes, codes}
use polyfetch.Base.Int.{pos}
use polyfetch.Run.{Fetches, run, start}
use polyfetch.Run.Invariant.{own_record}
use polyfetch.Threads.{Setup, Machine, thread_step, thread_steps, start_threads, run_threads}
use polyfetch.Threads.Handles.{IsOwned, thread_steps-IsOwned}
use polyfetch.Threads.Refine.{run_threads-run}
use polyfetch.Threads.Whole.{IsRecordOf, fetches-AreGood}
use polyfetch.Tests.Samples.{fresh, steady, two_targets}

-- The second thread gets no handle.
abbrev only_first : ℕ → Option Bytes
only_first zero = some []
only_first (suc w) = none

abbrev setup : Setup Bytes
setup = record {
  base_url = codes "http://localhost:8080";
  timeout = pos 30000;
  easy_init = only_first;
  memory = λ w i. fresh;
  begins = λ w i. 0;
  ends = λ w i. 7_000_000;
}

run_threads-run_example :
    (env : Fetches) × (((w i : ℕ)
        → IsRecordOf steady setup two_targets 4 i (own_record env two_targets w i))
      × (run_threads steady setup two_targets 2 (0 ∷ 1 ∷ 0 ∷ [])
          ≡ run env two_targets 2 (0 ∷ 1 ∷ 0 ∷ [])))
run_threads-run_example =
    run_threads-run steady setup two_targets (IsRecordOf steady setup two_targets 4)
      (fetches-AreGood steady setup two_targets 4
        (λ handle. ((refl, (refl, tt)), omega arith, omega arith)) (omega arith) (λ w i. refl))
      2 (0 ∷ 1 ∷ 0 ∷ []) (omega arith) (omega arith)

-- Both threads have claimed a target.
claimed :
    (m : Machine Bytes) × (thread_steps steady setup two_targets
        (start_threads steady setup two_targets 2)
        (0 ∷ 1 ∷ [])
      ≡ some m)
unfolding thread_steps thread_step start_threads start ℕ_discrete
claimed = (_, refl)

thread_steps-IsOwned_example :
    IsOwned steady setup two_targets 0 (claimed.0.pool.phase 0) (claimed.0.handles 0)
thread_steps-IsOwned_example =
    thread_steps-IsOwned steady setup two_targets 2 (0 ∷ 1 ∷ []) claimed.0 claimed.1 0
