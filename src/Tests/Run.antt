-- ===== src/Tests/Run.antt =====
-- Examples for the theorems on the thread pool: two threads, two targets.
use native.Mathlib.Decide.{ℕ_discrete}
use polyfetch.Base.{
  ℕ, zero, suc, ◌+◌, ◌*◌, ◌%◌, ◌≤◌, ◌<◌, ◌≡◌, ◌≢◌, refl, arith, inl, inr, List, [], ◌∷◌, flatten,
  some, length, get_or, replicate,
}
use polyfetch.Fetch.{Record}
use polyfetch.Report.Sorted.{untimed}
use polyfetch.Run.{
  finished, empty_record, slot_record, worker_step, turn, start, run_schedule, thread_count,
  all_finished, run,
}
use polyfetch.Run.Bound.{in_flight, in_flight-le}
use polyfetch.Run.Live.{Schedule, segment, IsFair, run_eventually}
use polyfetch.Run.Fair.{IsRound, run_terminates}
use polyfetch.Run.Invariant.{own_record}
use polyfetch.Run.Results.{run_exclusive, run_complete}
use polyfetch.Tests.Samples.{two_targets, same_fetches, in_turn, in_sequence}

-- What the threads return when they take turns.
in_turn_records : List Record
in_turn_records =
    own_record same_fetches two_targets 0 0 ∷ own_record same_fetches two_targets 1 1 ∷ []

in_turn_returns : run same_fetches two_targets 2 in_turn ≡ some in_turn_records
unfolding run run_schedule start turn worker_step thread_count all_finished slot_record
    in_turn_records ℕ_discrete
in_turn_returns = refl

in_sequence_records : List Record
in_sequence_records =
    own_record same_fetches two_targets 0 0 ∷ own_record same_fetches two_targets 0 1 ∷ []

in_sequence_returns : run same_fetches two_targets 2 in_sequence ≡ some in_sequence_records
unfolding run run_schedule start turn worker_step thread_count all_finished slot_record
    in_sequence_records ℕ_discrete
in_sequence_returns = refl

in_flight-le_example :
    (in_flight 3 (run_schedule same_fetches two_targets 2 (0 ∷ 1 ∷ 2 ∷ [])).phase ≤ 2)
    × (in_flight 3 (run_schedule same_fetches two_targets 2 (0 ∷ 1 ∷ 2 ∷ [])).phase ≤ 2)
unfolding thread_count
in_flight-le_example =
    in_flight-le same_fetches two_targets 2 3 (0 ∷ 1 ∷ 2 ∷ []) (omega arith) (omega arith)

-- Even times are for one thread, odd times for the other.
alternating : Schedule
alternating t = t % 2

alternating-IsFair : IsFair (thread_count 2 2) alternating
unfolding alternating thread_count
alternating-IsFair w lt t = (t * 2 + w, omega arith, omega arith)

run_eventually_example :
    (time : ℕ) × ((rs : List Record) × ((t : ℕ)
        → time ≤ t
        → run same_fetches two_targets 2 (segment alternating 0 t) ≡ some rs))
run_eventually_example =
    run_eventually same_fetches two_targets 2 alternating (omega arith) (omega arith)
      alternating-IsFair

run_complete_example :
    (length in_turn_records ≡ 2)
    × ((w : ℕ) × (w < thread_count 2 2)
        × (get_or in_turn_records 1 empty_record ≡ own_record same_fetches two_targets w 1))
run_complete_example =
    run_complete same_fetches two_targets 2 in_turn (omega arith) (omega arith) in_turn_returns 1
      (omega arith)

run_exclusive_example :
    (◌≡◌ {A = ℕ} 1 1)
    × (1 < 2)
    × (get_or (run_schedule same_fetches two_targets 2 (0 ∷ 1 ∷ [])).results 1 empty_record
        ≡ empty_record)
unfolding run_schedule start turn worker_step thread_count ℕ_discrete
run_exclusive_example =
    run_exclusive same_fetches two_targets 2 (0 ∷ 1 ∷ []) (omega arith) (omega arith) 1 1 1 refl
      refl

same_untimed :
    (v w i : ℕ)
    → untimed (own_record same_fetches two_targets v i)
      ≡ untimed (own_record same_fetches two_targets w i)
unfolding slot_record
same_untimed v w i = refl

starts : (start 2 two_targets).phase 0 ≢ finished
unfolding start
starts e = cc

both : IsRound 2 (0 ∷ 1 ∷ [])
both zero lt = inl refl
both (suc zero) lt = inr (inl refl)
both (suc (suc w)) lt = absurd (omega arith)

two_threads : thread_count 2 2 ≡ 2
unfolding thread_count
two_threads = refl

run_terminates_example :
    (rs : List Record) × (run same_fetches two_targets 2 (flatten (replicate 6 (0 ∷ 1 ∷ [])))
      ≡ some rs)
unfolding thread_count
run_terminates_example =
    run_terminates same_fetches two_targets 2 (replicate 6 (0 ∷ 1 ∷ [])) (omega arith) (omega arith)
      (both, (both, (both, (both, (both, (both, tt)))))) (omega arith)
