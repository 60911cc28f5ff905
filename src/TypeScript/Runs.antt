-- ===== src/TypeScript/Runs.antt =====
-- Runs of the workers: the invariant from the start on, and the number of steps.
use polyfetch.Base.{
  ℕ, zero, suc, ◌+◌, ◌*◌, ◌≤◌, ◌≡◌, refl, sym, ◌∙◌, ap, arith, inl, inr, true, List, ◌∷◌, ◌++◌,
  Option, none, min, length, length-replicate, ltb, ◌==◌, Bytes, All, Bool-cases,
}
use polyfetch.Fetch.{Record}
use polyfetch.TypeScript.Pool.{
  Worker, idle, working, replied, Outcome, pending, resolved, rejected, Pool, assign_next, kick_off,
  start, on_message, Step, fetch, message, error, Steps, here, next,
}
use polyfetch.TypeScript.Weights.{
  holds, busy, answered, weigh, weigh_moved, full, filled-replicate, full_at-replicate, ahead,
}
use polyfetch.TypeScript.Invariant.{IsGood, Inv, Step-Inv}

ahead-zero : (i : ℕ) → ahead 0 i ≡ 1
ahead-zero i = ground arith

-- The first tasks, from `first` on.
record Given (Fetched : Bytes → Record → Type 0) (targets : List Bytes) (k first : ℕ)
    (made : List Worker × ℕ) : Type 0 where
  pub many : length made.0 ≡ k
  pub up_to : made.1 ≡ first + k
  pub at_work : weigh busy made.0 ≡ k
  pub quiet : weigh answered made.0 ≡ 0
  pub good : All (IsGood Fetched targets) made.0
  pub each : (i : ℕ) → weigh (holds i) made.0 + ahead made.1 i ≡ ahead first i

module _ (Fetched : Bytes → Record → Type 0) (targets : List Bytes) where
  kick_off-Given :
      (k first : ℕ)
      → first + k ≤ length targets
      → Given Fetched targets k first (kick_off (length targets) k first)
  unfolding kick_off assign_next
  kick_off-Given zero first le = record {
    many = refl;
    up_to = omega arith;
    at_work = refl;
    quiet = refl;
    good = tt;
    each = λ i. omega arith;
  }
  kick_off-Given (suc k) first le =
      let rest = kick_off-Given k (first + 1) (omega arith) in
      let left : ltb first (length targets) ≡ true = ground arith in
      rw left (record {
        many = omega (arith, rest.many);
        up_to = omega (arith, rest.up_to);
        at_work = omega (arith, rest.at_work);
        quiet = omega (arith, rest.quiet);
        good = (omega arith, rest.good);
        each = λ i. ground (arith, rest.each i);
      })

  start-Inv : (k : ℕ) → Inv Fetched targets k (start k (length targets))
  unfolding start
  start-Inv k = elim (Bool-cases (length targets == 0)) [
    | inl empty ↦ rw empty (record {
      size = ground (arith, empty);
      pool = ground (arith, empty);
      once = λ i lt. absurd (ground (arith, empty, lt));
      good = tt;
      slots = λ i r lt e. absurd (ground (arith, empty, lt));
      counted = refl;
      given = refl;
      within = omega arith;
      at_work = λ lt. refl;
      unfinished = λ e. absurd (cc e);
      ended = λ e. ground (arith, empty);
    })
    | inr some_target ↦
        (let made = kick_off-Given (min k (length targets)) 0 (omega arith) in
          rw some_target (record {
            size = length-replicate {A = Option Record} (length targets) none;
            pool = made.many;
            once = λ i lt.
                omega (arith, made.each i, ahead-zero i, full_at-replicate (length targets) i);
            good = made.good;
            slots =
                λ i r lt e. absurd (omega (arith, ap full e, full_at-replicate (length targets) i));
            counted = sym (filled-replicate (length targets));
            given = omega (arith, made.up_to, made.at_work);
            within = omega (arith, made.up_to);
            at_work = λ lt. made.at_work ∙ sym made.many;
            unfinished = λ e. ground (arith, some_target);
            ended = λ e. absurd (cc e);
          }))
  ]

  pub Steps-Inv :
      (k : ℕ) {m : ℕ} {s : Pool}
      → Steps Fetched targets (start k (length targets)) m s
      → Inv Fetched targets k s
  Steps-Inv k here = start-Inv k
  Steps-Inv k (next before step) = Step-Inv Fetched targets step (Steps-Inv k before)

  abbrev failed_one : Outcome → ℕ
  failed_one pending = 0
  failed_one resolved = 0
  failed_one rejected = 1

  abbrev pub steps_made : Pool → ℕ
  steps_made s = 2 * s.completed + weigh answered s.workers + failed_one s.outcome

  on_message-steps_made :
      (s : Pool) (front back : List Worker) (i : ℕ) (r : Record)
      → s.outcome ≡ pending
      → s.workers ≡ front ++ replied i r ∷ back
      → steps_made (on_message (length targets) s front back i r) ≡ steps_made s + 1
  unfolding on_message assign_next
  on_message-steps_made s front back i r waits e =
      let moved = λ (v : Worker). weigh_moved answered s.workers front back (replied i r) v e in
      elim (Bool-cases ((s.completed + 1) == length targets)) [
        | inl last ↦ rw (last, waits) (omega (arith, moved idle))
        | inr more ↦ elim (Bool-cases (ltb s.next_index (length targets))) [
          | inl left ↦ rw (more, left, waits) (omega (arith, moved (working s.next_index)))
          | inr none_left ↦ rw (more, none_left, waits) (omega (arith, moved idle))
        ]
      ]

  Step-steps_made : {s u : Pool} → Step Fetched targets s u → steps_made u ≡ steps_made s + 1
  Step-steps_made (fetch s front back i r waits e got) =
      omega (arith, weigh_moved answered s.workers front back (working i) (replied i r) e)
  Step-steps_made (message s front back i r waits e) =
      on_message-steps_made s front back i r waits e
  Step-steps_made (error s front back w waits e) = rw waits (omega arith)

  start-steps_made : (k : ℕ) → steps_made (start k (length targets)) ≡ 0
  unfolding start
  start-steps_made k = elim (Bool-cases (length targets == 0)) [
    | inl empty ↦ rw empty refl
    | inr some_target ↦ rw some_target (
        let made = kick_off-Given (min k (length targets)) 0 (omega arith) in
        omega (arith, made.quiet))
  ]

  pub Steps-steps_made :
      (k : ℕ) {m : ℕ} {s : Pool}
      → Steps Fetched targets (start k (length targets)) m s
      → steps_made s ≡ m
  Steps-steps_made k here = start-steps_made k
  Steps-steps_made k (next before step) =
      omega (arith, Step-steps_made step, Steps-steps_made k before)
