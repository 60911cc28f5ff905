-- ===== src/Run/Live.antt =====
-- `run` returns under every schedule without end in which each thread has a turn again and again.
use native.Mathlib.Decide.{dec_lt}
use polyfetch.Base.{
  ℕ, zero, suc, ◌+◌, ◌-◌, ◌^◌, ◌≤◌, ◌<◌, ◌≡◌, refl, ◌∙◌, ap, arith, ◌⊎◌, inl, inr, true, List, [],
  ◌∷◌, ◌++◌, some, length, Bytes,
}
use polyfetch.Fetch.{Record}
use polyfetch.Run.{finished, Pool, Fetches, start, run_schedule, thread_count, all_finished, run}
use polyfetch.Run.Invariant.{Inv, start-Inv}
use polyfetch.Run.Phases.{phase_total-start}
use polyfetch.Run.Progress.{steps_left, remaining, steps, steps-Inv, turn_finished}
use polyfetch.Run.Results.{thread_count_bounds}
use polyfetch.Run.Fair.{HasTurn, find_busy, busy_progress, steps-append, ended, all_finished-true}

-- A schedule without end, and `n` turns of it from time `t`.
abbrev pub Schedule : Type 0
Schedule = ℕ → ℕ

abbrev pub segment : Schedule → ℕ → ℕ → List ℕ
segment σ t zero = []
segment σ t (suc n) = σ t ∷ segment σ (t + 1) n

-- At every time, each of `k` threads will have a turn.
abbrev pub IsFair : ℕ → Schedule → Type 0
IsFair k σ = (w : ℕ) → w < k → (t : ℕ) → (later : ℕ) × (t ≤ later) × (σ later ≡ w)

segment-append :
    (σ : Schedule) (t n m : ℕ) → segment σ t (n + m) ≡ segment σ t n ++ segment σ (t + n) m
segment-append σ t zero m = rw sum (ap (λ (k : ℕ). segment σ k m) time)
  where
    sum : 0 + m ≡ m
    sum = omega arith

    time : t ≡ t + 0
    time = omega arith
segment-append σ t (suc n) m = rw sum (
    ap (◌∷◌ (σ t))
      (segment-append σ (t + 1) n m ∙ ap (λ (k : ℕ). segment σ (t + 1) n ++ segment σ k m) time))
  where
    sum : suc n + m ≡ suc (n + m)
    sum = omega arith

    time : t + 1 + n ≡ t + suc n
    time = omega arith

segment-HasTurn : (σ : Schedule) (w t n : ℕ) → σ (t + n) ≡ w → HasTurn w (segment σ t (suc n))
segment-HasTurn σ w t zero e = inl (ap σ (omega arith) ∙ e)
segment-HasTurn σ w t (suc n) e = inr (segment-HasTurn σ w (t + 1) n (ap σ (omega arith) ∙ e))

module _ (env : Fetches) (targets : List Bytes) (k : ℕ) where
  -- When every thread is behind its loop, further turns change nothing.
  stays : (ws : List ℕ) {s : Pool} → ((w : ℕ) → s.phase w ≡ finished) → steps env targets k s ws ≡ s
  stays [] done = refl
  stays (w ∷ ws) {s} done =
      ap (λ (p : Pool). steps env targets k p ws) (turn_finished env targets k s w (done w))
      ∙ stays ws done

module _ (env : Fetches) (targets : List Bytes) (k : ℕ) (σ : Schedule) (some_thread : 1 ≤ k)
    (fair : IsFair k σ) where
  -- Within finitely many turns from time `t`, no step remains.
  drains :
      (m t : ℕ) {s : Pool}
      → Inv env targets k s
      → remaining targets k s ≤ m
      → (n : ℕ) × (remaining targets k (steps env targets k s (segment σ t n)) ≡ 0)
  drains zero t inv le = (0, omega arith)
  drains (suc m) t {s} inv le = elim (find_busy k s.phase) [
    | inl done ↦ (
      0,
      omega (
        arith,
        inv.drained 0 some_thread (done 0 some_thread),
        phase_total-start steps_left k s.phase finished done,
      ),
    )
    | inr (w, lt, busy) ↦
        let (later, le', e) = fair w lt t in
        let first = suc (later - t) in
        let seg = segment σ t first in
        let turn_of : HasTurn w seg = segment-HasTurn σ w t (later - t) (ap σ (omega arith) ∙ e) in
        let (n, rest) =
          drains m (t + first) {s = steps env targets k s seg} (steps-Inv env targets k seg inv)
            (omega (arith, busy_progress env targets k seg inv w lt busy turn_of)) in
        (
          first + n,
          rw
              (
                segment-append σ t first n,
                steps-append env targets k seg (segment σ (t + first) n) s,
              )
              rest,
        )
  ]

-- Under every schedule without end in which each thread has a turn at some time after any time, there
-- is a time from which on `run` has returned, with the same records at all later times. Conditions: a
-- concurrency `c` of at least 1, and less than 2 ^ 64 for targets and concurrency together.
pub run_eventually :
    (env : Fetches) (targets : List Bytes) (c : ℕ) (σ : Schedule)
    → 1 ≤ c
    → length targets + c < 2 ^ 64
    → IsFair (thread_count c (length targets)) σ
    → (time : ℕ) × ((rs : List Record) × ((t : ℕ)
          → time ≤ t
          → run env targets c (segment σ 0 t) ≡ some rs))
unfolding run run_schedule
run_eventually env targets c σ pos few fair = (
  n,
  (
    final.results,
    λ t le.
        let split : segment σ 0 t ≡ segment σ 0 n ++ segment σ (0 + n) (t - n) =
          ap (segment σ 0) (omega arith) ∙ segment-append σ 0 n (t - n) in
        let same : steps env targets k (start k targets) (segment σ 0 t) ≡ final =
          rw
            (
              split,
              steps-append env targets k (segment σ 0 n) (segment σ (0 + n) (t - n))
                  (start k targets),
            )
            (stays env targets k (segment σ (0 + n) (t - n)) all_done) in
        rw (same, done),
  ),
)
  where
    k : ℕ
    k = thread_count c (length targets)

    bounds : (1 ≤ k) × (k ≤ c) × ((length targets ≡ 0) ⊎ (k ≤ length targets))
    bounds = thread_count_bounds c (length targets) pos

    started : Inv env targets k (start k targets)
    started = start-Inv env targets k (omega (arith, bounds))

    drained :
        (n : ℕ) × (remaining targets k (steps env targets k (start k targets) (segment σ 0 n)) ≡ 0)
    drained =
        drains env targets k σ bounds.0 fair (remaining targets k (start k targets)) 0 started
          (omega arith)

    n : ℕ
    n = drained.0

    final : Pool
    final = steps env targets k (start k targets) (segment σ 0 n)

    all_done : (w : ℕ) → final.phase w ≡ finished
    all_done w = elim (dec_lt w k) [
      | yes lt ↦ ended env targets k final drained.1 w lt
      | no out ↦ (steps-Inv env targets k (segment σ 0 n) started).idle w (omega arith)
    ]

    done : all_finished k final.phase ≡ true
    done = all_finished-true k final.phase (λ w lt. all_done w)
