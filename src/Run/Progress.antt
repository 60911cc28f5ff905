-- ===== src/Run/Progress.antt =====
-- Every step of a thread that is not behind its loop brings the pool nearer to its end.
use native.Mathlib.Decide.{dec_lt}
use polyfetch.Base.{
  ℕ, ◌+◌, ◌-◌, ◌*◌, ◌≤◌, ◌<◌, ◌≡◌, ◌≢◌, refl, ap, arith, ◌⊎◌, inl, inr, List, [], ◌∷◌, foldl,
  length, Bytes, u64,
}
use polyfetch.Run.{Phase, ready, holding, finished, Pool, Fetches, worker_step, turn}
use polyfetch.Run.Invariant.{Inv, turn-Inv, claim_eq, leave_eq, next_index_no_wrap}
use polyfetch.Run.Phases.{phase_total, phase_total-update}

-- The steps that a thread still makes if it gets no further index.
abbrev pub steps_left : Phase → ℕ
steps_left ready = 1
steps_left (holding i) = 2
steps_left finished = 0

-- An index that nobody has taken is worth two steps.
abbrev pub remaining : List Bytes → ℕ → Pool → ℕ
remaining targets k s = 2 * (length targets - s.next_index) + phase_total steps_left k s.phase

module _ (env : Fetches) (targets : List Bytes) (k : ℕ) {s : Pool} (inv : Inv env targets k s)
    (w : ℕ) (lt : w < k) where
  -- In a state with the invariant, a turn of one of the `k` threads that is not behind its loop lowers
  -- the number of remaining steps by exactly one.
  pub turn_progress :
      s.phase w ≢ finished → remaining targets k (turn env targets s w) + 1 ≡ remaining targets k s
  unfolding turn
  turn_progress busy = by_phase (s.phase w) refl
    where
      no_wrap : u64 (s.next_index + 1) ≡ s.next_index + 1
      no_wrap = next_index_no_wrap env targets k inv w lt busy

      by_phase :
          (p : Phase)
          → s.phase w ≡ p
          → remaining targets k (worker_step env targets w s p) + 1 ≡ remaining targets k s
      by_phase ready e = elim (dec_lt s.next_index (length targets)) [
        | yes below ↦
            rw (claim_eq env targets k s w below, no_wrap)
              (omega (
                arith,
                phase_total-update steps_left k s.phase w (holding s.next_index) lt,
                ap steps_left e,
              ))
        | no out ↦
            rw (leave_eq env targets k s w (omega arith), no_wrap)
              (omega
                (arith, phase_total-update steps_left k s.phase w finished lt, ap steps_left e))
      ]
      by_phase (holding i) e =
          unfold worker_step in
          omega (arith, phase_total-update steps_left k s.phase w ready lt, ap steps_left e)
      by_phase finished e = absurd (busy e)

module _ (env : Fetches) (targets : List Bytes) (k : ℕ) where
  abbrev pub steps : Pool → List ℕ → Pool
  steps = foldl (turn env targets)

  pub turn_finished : (s : Pool) (w : ℕ) → s.phase w ≡ finished → turn env targets s w ≡ s
  turn_finished s w e = unfold turn worker_step in rw e

  -- Which phase a thread is in can be decided.
  phase_cases : (p : Phase) → (p ≡ finished) ⊎ (p ≢ finished)
  phase_cases ready = inr (λ e. cc)
  phase_cases (holding i) = inr (λ e. cc)
  phase_cases finished = inl refl

  pub turn-remaining-le :
      {s : Pool}
      → Inv env targets k s
      → (w : ℕ) → remaining targets k (turn env targets s w) ≤ remaining targets k s
  turn-remaining-le {s} inv w = elim (phase_cases (s.phase w)) [
    | inl e ↦ rw (turn_finished s w e) (omega arith)
    | inr busy ↦ elim (dec_lt w k) [
      | yes lt ↦ omega (arith, turn_progress env targets k inv w lt busy)
      | no out ↦ absurd (busy (inv.idle w (omega arith)))
    ]
  ]

  pub steps-Inv : (ws : List ℕ) {s : Pool} → Inv env targets k s → Inv env targets k (steps s ws)
  steps-Inv [] inv = inv
  steps-Inv (w ∷ ws) inv = steps-Inv ws (turn-Inv env targets k inv w)

  pub steps-remaining-le :
      (ws : List ℕ) {s : Pool}
      → Inv env targets k s
      → remaining targets k (steps s ws) ≤ remaining targets k s
  steps-remaining-le [] inv = omega arith
  steps-remaining-le (w ∷ ws) {s} inv = omega (
    arith,
    turn-remaining-le inv w,
    steps-remaining-le ws {s = turn env targets s w} (turn-Inv env targets k inv w),
  )
