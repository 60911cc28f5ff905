-- ===== src/Run/Fair.antt =====
-- `run` returns for every schedule that gives each thread enough turns.
use native.Mathlib.Decide.{ℕ_discrete, dec_lt}
use polyfetch.Base.{
  ℕ, zero, suc, ◌+◌, ◌-◌, ◌*◌, ◌^◌, ◌≤◌, ◌<◌, ◌≡◌, ◌≢◌, refl, sym, ◌∙◌, arith, ◌⊎◌, inl, inr, true,
  List, [], ◌∷◌, ◌++◌, flatten, some, length, Bytes, All,
}
use polyfetch.Fetch.{Record}
use polyfetch.Run.{
  Phase, ready, holding, finished, Pool, Fetches, worker_step, turn, start, run_schedule,
  thread_count, all_finished, run,
}
use polyfetch.Run.Invariant.{Inv, turn-Inv, start-Inv}
use polyfetch.Run.Phases.{phase_total-start, phase_total-zero}
use polyfetch.Run.Progress.{
  steps_left, remaining, turn_progress, steps, turn-remaining-le, steps-Inv, steps-remaining-le,
}
use polyfetch.Run.Results.{thread_count_bounds}

-- A thread has a turn in a part of a schedule.
abbrev pub HasTurn : ℕ → List ℕ → Type 0
HasTurn w [] = ⊥
HasTurn w (x ∷ xs) = (x ≡ w) ⊎ HasTurn w xs

-- Each of `k` threads has a turn.
abbrev pub IsRound : ℕ → List ℕ → Type 0
IsRound k ws = (w : ℕ) → w < k → HasTurn w ws

pub all_finished-true :
    (k : ℕ) (phase : ℕ → Phase)
    → ((w : ℕ) → w < k → phase w ≡ finished)
    → all_finished k phase ≡ true
unfolding all_finished
all_finished-true zero phase h = refl
all_finished-true (suc k) phase h =
    rw (h k (omega arith)) (all_finished-true k phase (λ w lt. h w (omega arith)))

-- A thread that is not behind its loop, if there is one.
pub find_busy :
    (k : ℕ) (phase : ℕ → Phase)
    → ((w : ℕ) → w < k → phase w ≡ finished) ⊎ ((w : ℕ) × (w < k) × (phase w ≢ finished))
find_busy zero phase = inl (λ w lt. absurd (omega arith))
find_busy (suc k) phase = elim (find_busy k phase) [
  | inr (w, lt, busy) ↦ inr (w, omega arith, busy)
  | inl done ↦ last (phase k) refl done
]
  where
    last :
        (p : Phase)
        → phase k ≡ p
        → ((w : ℕ) → w < k → phase w ≡ finished)
        → ((w : ℕ) → w < suc k → phase w ≡ finished)
          ⊎ ((w : ℕ) × (w < suc k) × (phase w ≢ finished))
    last ready e done = inr (k, omega arith, λ f. cc (e, f))
    last (holding i) e done = inr (k, omega arith, λ f. cc (e, f))
    last finished e done = inl (λ w lt. elim (dec_lt w k) [
      | yes below ↦ done w below
      | no out ↦ let same : w ≡ k = omega arith in rw same e
    ])

module _ (env : Fetches) (targets : List Bytes) (k : ℕ) where
  -- A turn of another thread leaves a thread where it is.
  turn_other : (s : Pool) (v w : ℕ) → v ≢ w → (turn env targets s v).phase w ≡ s.phase w
  unfolding turn worker_step
  turn_other s v w ne = by_phase (s.phase v)
    where
      by_phase : (p : Phase) → (worker_step env targets v s p).phase w ≡ s.phase w
      by_phase ready = ground arith
      by_phase (holding i) = ground arith
      by_phase finished = refl

  pub busy_progress :
      (ws : List ℕ) {s : Pool}
      → Inv env targets k s
      → (w : ℕ) → w < k
      → s.phase w ≢ finished
      → HasTurn w ws
      → remaining targets k (steps env targets k s ws) + 1 ≤ remaining targets k s
  busy_progress [] inv w lt busy h = absurd h
  busy_progress (x ∷ xs) {s} inv w lt busy h = elim (ℕ_discrete x w) [
    | yes same ↦ omega (
      arith,
      steps-remaining-le env targets k xs (turn-Inv env targets k inv x),
      turn_progress env targets k inv x (omega arith) (λ e. busy (rw (← same) e)),
    )
    | no other ↦ omega (
      arith,
      turn-remaining-le env targets k inv x,
      busy_progress xs {s = turn env targets s x} (turn-Inv env targets k inv x) w lt
          (λ e. busy (sym (turn_other s x w other) ∙ e)) (later h other),
    )
  ]
    where
      later : HasTurn w (x ∷ xs) → x ≢ w → HasTurn w xs
      later (inl e) ne = absurd (ne e)
      later (inr t) ne = t

  pub steps-append :
      (xs ys : List ℕ) (s : Pool)
      → steps env targets k s (xs ++ ys) ≡ steps env targets k (steps env targets k s xs) ys
  steps-append [] ys s = refl
  steps-append (x ∷ xs) ys s = steps-append xs ys (turn env targets s x)

  -- A round makes a step, if any step remains.
  round_progress :
      (ws : List ℕ) {s : Pool}
      → Inv env targets k s
      → 1 ≤ k
      → IsRound k ws
      → remaining targets k (steps env targets k s ws) ≤ remaining targets k s - 1
  round_progress ws {s} inv some_thread fair = elim (find_busy k s.phase) [
    | inl done ↦
        let drained : length targets ≤ s.next_index =
          inv.drained 0 some_thread (done 0 some_thread) in
        omega (
          arith,
          drained,
          phase_total-start steps_left k s.phase finished done,
          steps-remaining-le env targets k ws inv,
        )
    | inr (w, lt, busy) ↦ omega (arith, busy_progress ws inv w lt busy (fair w lt))
  ]

  rounds_end :
      (blocks : List (List ℕ)) {s : Pool}
      → Inv env targets k s
      → 1 ≤ k
      → All (IsRound k) blocks
      → remaining targets k s ≤ length blocks
      → remaining targets k (steps env targets k s (flatten blocks)) ≡ 0
  unfolding flatten
  rounds_end [] inv some_thread fair enough = omega arith
  rounds_end (b ∷ bs) {s} inv some_thread fair enough = rw (steps-append b (flatten bs) s) (
      rounds_end bs {s = steps env targets k s b} (steps-Inv env targets k b inv) some_thread fair.1
        (omega (arith, round_progress b inv some_thread fair.0)))

  -- With no step remaining every thread is behind its loop.
  pub ended : (s : Pool) → remaining targets k s ≡ 0 → (w : ℕ) → w < k → s.phase w ≡ finished
  ended s e w lt = by_phase (s.phase w) (phase_total-zero steps_left k s.phase (omega arith) w lt)
    where
      by_phase : (p : Phase) → steps_left p ≡ 0 → p ≡ finished
      by_phase ready z = absurd (omega arith)
      by_phase (holding i) z = absurd (omega arith)
      by_phase finished z = refl

  pub remaining-start : remaining targets k (start k targets) ≡ 2 * length targets + k
  unfolding start
  remaining-start =
      omega
        (arith, phase_total-start steps_left k (start k targets).phase ready (λ w lt. ground arith))

-- `run` returns: with `n` targets and `k` threads, `2 * n + k` rounds in which each thread has a
-- turn are enough, in whatever order the turns come and whatever the fetches bring. Conditions: a
-- concurrency of at least 1, and less than 2 ^ 64 for targets and concurrency together.
pub run_terminates :
    (env : Fetches) (targets : List Bytes) (c : ℕ) (blocks : List (List ℕ))
    → 1 ≤ c
    → length targets + c < 2 ^ 64
    → All (IsRound (thread_count c (length targets))) blocks
    → 2 * length targets + thread_count c (length targets) ≤ length blocks
    → (rs : List Record) × (run env targets c (flatten blocks) ≡ some rs)
unfolding run run_schedule
run_terminates env targets c blocks some_thread few fair enough =
    ((steps env targets k (start k targets) (flatten blocks)).results, rw done)
  where
    k : ℕ
    k = thread_count c (length targets)

    bounds : (1 ≤ k) × (k ≤ c) × ((length targets ≡ 0) ⊎ (k ≤ length targets))
    bounds = thread_count_bounds c (length targets) some_thread

    at_end : remaining targets k (steps env targets k (start k targets) (flatten blocks)) ≡ 0
    at_end =
        rounds_end env targets k blocks (start-Inv env targets k (omega (arith, bounds))) bounds.0
          fair (omega (arith, remaining-start env targets k))

    done : all_finished k (steps env targets k (start k targets) (flatten blocks)).phase ≡ true
    done =
        all_finished-true k (steps env targets k (start k targets) (flatten blocks)).phase
          (ended env targets k (steps env targets k (start k targets) (flatten blocks)) at_end)
