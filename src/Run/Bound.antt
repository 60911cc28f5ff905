-- ===== src/Run/Bound.antt =====
-- The bound on the targets that are in flight.
use polyfetch.Base.{ℕ, ◌+◌, ◌^◌, ◌≤◌, ◌<◌, ◌≡◌, refl, ap, arith, inl, inr, ◌⊎◌, List, length, Bytes}
use polyfetch.Run.{Phase, ready, holding, finished, Fetches, run_schedule, thread_count}
use polyfetch.Run.Invariant.{Inv, run_schedule-Inv}
use polyfetch.Run.Phases.{phase_total, phase_total-bound, phase_total-none}
use polyfetch.Run.Results.{thread_count_bounds}

-- A thread that has an index is fetching, or about to write.
abbrev pub holding_one : Phase → ℕ
holding_one ready = 0
holding_one (holding i) = 1
holding_one finished = 0

-- The targets that are in flight among the first `m` threads.
abbrev pub in_flight : ℕ → (ℕ → Phase) → ℕ
in_flight = phase_total holding_one

holding_one-le : (p : Phase) → holding_one p ≤ 1
holding_one-le p = ground arith

-- After any schedule, the number of targets in flight, counted over the first `m` threads for any `m`,
-- also for more than are started, is at most the concurrency `c`, and at most the number of targets.
-- Conditions: a concurrency of at least 1, and less than 2 ^ 64 for targets and concurrency together.
pub in_flight-le :
    (env : Fetches) (targets : List Bytes) (c m : ℕ) (schedule : List ℕ)
    → 1 ≤ c
    → length targets + c < 2 ^ 64
    → let k = thread_count c (length targets) in
      let flying = in_flight m (run_schedule env targets k schedule).phase in
      (flying ≤ c) × (flying ≤ length targets)
in_flight-le env targets c m schedule pos few =
    by_targets (thread_count_bounds c (length targets) pos)
  where
    k : ℕ
    k = thread_count c (length targets)

    phase : ℕ → Phase
    phase = (run_schedule env targets k schedule).phase

    by_targets :
        (1 ≤ k) × (k ≤ c) × ((length targets ≡ 0) ⊎ (k ≤ length targets))
        → (in_flight m phase ≤ c) × (in_flight m phase ≤ length targets)
    by_targets (some_thread, le, few_threads) = elim few_threads [
      | inr few_threads ↦ omega (arith, at_most)
      | inl none ↦
          omega (arith, at_most, phase_total-none holding_one m phase (λ w lt. no_index none w))
    ]
      where
        inv : Inv env targets k (run_schedule env targets k schedule)
        inv = run_schedule-Inv env targets k (omega arith) schedule

        at_most : in_flight m phase ≤ k
        at_most =
            phase_total-bound holding_one holding_one-le k m phase
              (λ w le. ap holding_one (inv.idle w le))

        no_index : length targets ≡ 0 → (w : ℕ) → holding_one (phase w) ≡ 0
        no_index none w = by_phase (phase w) refl
          where
            by_phase : (p : Phase) → phase w ≡ p → holding_one p ≡ 0
            by_phase ready e = refl
            by_phase (holding i) e = absurd (omega (arith, (inv.taken w i e).0))
            by_phase finished e = refl
