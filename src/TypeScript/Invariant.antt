-- ===== src/TypeScript/Invariant.antt =====
-- Where each index is while the workers run.
use polyfetch.Base.{
  ℕ, ◌+◌, ◌≤◌, ◌<◌, ◌≡◌, refl, sym, ◌∙◌, ap, subst, arith, inl, inr, List, [], ◌∷◌, ◌++◌, Option,
  none, some, min, length, get_or, set, length-set, get_or-set_self, get_or-set_ne, ltb, ◌==◌,
  Bytes, All, All-middle, All-replace, Bool-cases,
}
use native.Mathlib.Decide.{ℕ_discrete}
use polyfetch.Fetch.{Record}
use polyfetch.TypeScript.Pool.{
  Worker, idle, working, replied, Outcome, pending, resolved, Pool, assign_next, on_message, Step,
  fetch, message, error,
}
use polyfetch.TypeScript.Weights.{
  holds, busy, one, weigh, weigh_moved, weigh-ge, weigh-one, full, full_at, filled, filled-set,
  ahead,
}

module _ (Fetched : Bytes → Record → Type 0) (targets : List Bytes) where
  -- A worker has an index of the list, and its record is one of the target.
  abbrev pub IsGood : Worker → Type 0
  IsGood idle = Unit
  IsGood (working i) = i < length targets
  IsGood (replied i r) = (i < length targets) × Fetched (get_or targets i []) r

  -- Every index is with one worker, or its slot is full, or it is ahead; and the counters say how many
  -- of them there are. A worker is idle only when nothing is ahead.
  pub record Inv (k : ℕ) (s : Pool) : Type 0 where
    pub size : length s.results ≡ length targets
    pub pool : length s.workers ≡ min k (length targets)
    pub once :
        (i : ℕ)
        → i < length targets
        → weigh (holds i) s.workers + full_at i s.results + ahead s.next_index i ≡ 1
    pub good : All IsGood s.workers
    pub slots :
        (i : ℕ) (r : Record)
        → i < length targets
        → get_or s.results i none ≡ some r
        → Fetched (get_or targets i []) r
    pub counted : s.completed ≡ filled s.results
    pub given : s.next_index ≡ weigh busy s.workers + s.completed
    pub within : s.next_index ≤ length targets
    pub at_work : s.next_index < length targets → weigh busy s.workers ≡ length s.workers
    pub unfinished : s.outcome ≡ pending → s.completed < length targets
    pub ended : s.outcome ≡ resolved → s.completed ≡ length targets

  module _ {k : ℕ} {s : Pool} (inv : Inv k s) (front back : List Worker) (i : ℕ) (r : Record) where
    fetch-Inv :
        s.workers ≡ front ++ working i ∷ back
        → Fetched (get_or targets i []) r
        → Inv k (record s { workers = front ++ replied i r ∷ back })
    fetch-Inv e got =
        let moved =
          λ (f : Worker → ℕ). weigh_moved f s.workers front back (working i) (replied i r) e in
        let sizes : length (front ++ replied i r ∷ back) ≡ length s.workers =
          omega (arith, moved one, weigh-one s.workers, weigh-one (front ++ replied i r ∷ back)) in
        let at_work : All IsGood (front ++ working i ∷ back) = subst (All IsGood) e inv.good in
        record {
          size = inv.size;
          pool = sizes ∙ inv.pool;
          once = λ j lt. omega (arith, inv.once j lt, moved (holds j));
          good =
              All-replace IsGood front back (working i) (replied i r) at_work
                (All-middle IsGood front back (working i) at_work, got);
          slots = inv.slots;
          counted = inv.counted;
          given = omega (arith, inv.given, moved busy);
          within = inv.within;
          at_work = λ lt. omega (arith, sizes, inv.at_work lt, moved busy);
          unfinished = inv.unfinished;
          ended = inv.ended;
        }

    module _ (e : s.workers ≡ front ++ replied i r ∷ back) where
      abbrev after : List (Option Record)
      after = set s.results i (some r)

      was-IsGood : IsGood (replied i r)
      was-IsGood = All-middle IsGood front back (replied i r) (subst (All IsGood) e inv.good)

      held : 1 ≤ weigh (holds i) s.workers
      held =
          subst (λ n. n ≤ weigh (holds i) s.workers) (ground arith)
            (weigh-ge (holds i) s.workers front back (replied i r) e)

      was_empty : full_at i s.results ≡ 0
      was_empty = omega (arith, held, inv.once i was-IsGood.0)

      count_after : filled after ≡ s.completed + 1
      count_after = omega (
        arith,
        held,
        inv.once i was-IsGood.0,
        inv.counted,
        filled-set s.results i r (omega (arith, inv.size, was-IsGood.0)),
      )

      slots_after :
          (j : ℕ) (r' : Record)
          → j < length targets
          → get_or after j none ≡ some r'
          → Fetched (get_or targets j []) r'
      slots_after j r' lt got = elim (ℕ_discrete i j) [
        | yes same ↦
            (let placed : get_or after i none ≡ some r =
                get_or-set_self s.results i (some r) none (omega (arith, inv.size, was-IsGood.0)) in
              let which : r ≡ r' = cc (same, placed, got) in
              subst (λ j. Fetched (get_or targets j []) r') same
                (subst (Fetched (get_or targets i [])) which was-IsGood.1))
        | no other ↦ inv.slots j r' lt (sym (get_or-set_ne s.results i j (some r) none other) ∙ got)
      ]

      full_after :
          (j : ℕ)
          → j < length targets
          → full_at j after + holds j idle ≡ full_at j s.results + holds j (replied i r)
      full_after j lt = elim (ℕ_discrete i j) [
        | yes same ↦
            (let placed : get_or after i none ≡ some r =
                get_or-set_self s.results i (some r) none (omega (arith, inv.size, was-IsGood.0)) in
              let here : full_at j after ≡ 1 =
                subst (λ j. full_at j after ≡ 1) same (ap full placed) in
              ground (arith, here, was_empty, same))
        | no other ↦
            (let kept : full_at j after ≡ full_at j s.results =
                ap full (get_or-set_ne s.results i j (some r) none other) in
              ground (arith, kept, other))
      ]

      -- The worker goes from its message to `w`, and `nextIndex` to `next`.
      handled-Inv :
          (w : Worker) (next : ℕ) (o : Outcome)
          → IsGood w
          → ((j : ℕ) → j < length targets → ahead s.next_index j ≡ holds j w + ahead next j)
          → next ≡ s.next_index + busy w
          → next ≤ length targets
          → (next < length targets → busy w ≡ 1)
          → (o ≡ pending → s.completed + 1 < length targets)
          → (o ≡ resolved → s.completed + 1 ≡ length targets)
          → Inv k (record {
            next_index = next;
            completed = s.completed + 1;
            results = after;
            workers = front ++ w ∷ back;
            outcome = o;
          })
      handled-Inv w next o good_w moved_on next_eq within feeds unfinished ended =
          let moved = λ (f : Worker → ℕ). weigh_moved f s.workers front back (replied i r) w e in
          let sizes : length (front ++ w ∷ back) ≡ length s.workers =
            omega (arith, moved one, weigh-one s.workers, weigh-one (front ++ w ∷ back)) in
          record {
            size = length-set s.results i (some r) ∙ inv.size;
            pool = sizes ∙ inv.pool;
            once = λ j lt.
                omega (arith, inv.once j lt, moved (holds j), full_after j lt, moved_on j lt);
            good =
                All-replace IsGood front back (replied i r) w (subst (All IsGood) e inv.good)
                  good_w;
            slots = slots_after;
            counted = sym count_after;
            given = omega (arith, inv.given, moved busy);
            within = within;
            at_work = λ lt.
                omega (arith, sizes, moved busy, feeds lt, inv.at_work (omega (arith, next_eq)));
            unfinished = unfinished;
            ended = ended;
          }

      message-Inv : s.outcome ≡ pending → Inv k (on_message (length targets) s front back i r)
      unfolding on_message assign_next
      message-Inv waits =
          let taken : 1 ≤ weigh busy s.workers =
            weigh-ge busy s.workers front back (replied i r) e in
          elim (Bool-cases ((s.completed + 1) == length targets)) [
            | inl last ↦ rw last (
                handled-Inv idle s.next_index resolved tt (λ j lt. omega arith) (omega arith)
                  inv.within (λ lt. absurd (ground (arith, last, inv.given, lt, taken))) (λ e. cc e)
                  (λ e. ground (arith, last)))
            | inr more ↦ elim (Bool-cases (ltb s.next_index (length targets))) [
              | inl left ↦
                  rw (more, left)
                    (handled-Inv (working s.next_index) (s.next_index + 1) s.outcome
                      (ground (arith, left)) (λ j lt. ground arith) (omega arith)
                      (ground (arith, left)) (λ lt. refl)
                      (λ w. ground (arith, more, inv.unfinished w)) (λ e. absurd (cc (waits, e))))
              | inr given ↦
                  rw (more, given)
                    (handled-Inv idle s.next_index s.outcome tt (λ j lt. omega arith) (omega arith)
                      inv.within (λ lt. absurd (ground (arith, given, lt)))
                      (λ w. ground (arith, more, inv.unfinished w)) (λ e. absurd (cc (waits, e))))
            ]
          ]

  -- Every step keeps the invariant.
  pub Step-Inv : {k : ℕ} {s u : Pool} → Step Fetched targets s u → Inv k s → Inv k u
  Step-Inv (fetch s front back i r waits e got) inv = fetch-Inv inv front back i r e got
  Step-Inv (message s front back i r waits e) inv = message-Inv inv front back i r e waits
  Step-Inv (error s front back w waits e) inv = record {
    size = inv.size;
    pool = inv.pool;
    once = inv.once;
    good = inv.good;
    slots = inv.slots;
    counted = inv.counted;
    given = inv.given;
    within = inv.within;
    at_work = inv.at_work;
    unfinished = λ e. cc e;
    ended = λ e. cc e;
  }
