-- ===== src/Run/Results.antt =====
-- What `run` returns, whatever the schedule.
use native.Mathlib.Decide.{dec_lt}
use polyfetch.Base.{
  ℕ, zero, suc, ◌+◌, ◌^◌, ◌≤◌, ◌<◌, ◌≡◌, ◌≢◌, refl, sym, ◌∙◌, ap, ap₂, arith, ◌⊎◌, inl, inr, true,
  List, [], ◌∷◌, some, length, get_or, map, Bytes,
}
use polyfetch.Fetch.{Record}
use polyfetch.Run.{
  Phase, holding, finished, empty_record, Fetches, run_schedule, thread_count, all_finished, run,
}
use polyfetch.Run.Invariant.{own_record, IsHandled, Inv, run_schedule-Inv}

all_finished_lem :
    (k : ℕ) (phase : ℕ → Phase) → all_finished k phase ≡ true → (w : ℕ) → w < k → phase w ≡ finished
unfolding all_finished
all_finished_lem zero phase e w lt = absurd (omega arith)
all_finished_lem (suc k) phase e w lt = elim (dec_lt w k) [
  | yes below ↦ all_finished_lem k phase (ground arith) w below
  | no last ↦ let same : w ≡ k = omega arith in rw same (ground arith)
]

-- For a concurrency `c` of at least 1 and `n` targets, the number of threads is from 1 to `c`, and no
-- more than `n` unless `n` is 0.
pub thread_count_bounds :
    (c n : ℕ)
    → 1 ≤ c
    → (1 ≤ thread_count c n) × (thread_count c n ≤ c) × ((n ≡ 0) ⊎ (thread_count c n ≤ n))
unfolding thread_count
thread_count_bounds c n h = ground arith

module _ (env : Fetches) (targets : List Bytes) (c : ℕ) (schedule : List ℕ) (pos : 1 ≤ c)
    (few : length targets + c < 2 ^ 64) where
  abbrev threads : ℕ
  threads = thread_count c (length targets)

  final_Inv : Inv env targets threads (run_schedule env targets threads schedule)
  final_Inv =
      run_schedule-Inv env targets threads
        (omega (arith, thread_count_bounds c (length targets) pos)) schedule

  -- After any schedule, threads that have the same index are one thread, the index is that of a target,
  -- and its slot is still as it was made, so that no slot is written twice. Conditions: a concurrency
  -- `c` of at least 1, and less than 2 ^ 64 for targets and concurrency together.
  pub run_exclusive :
      (v w i : ℕ)
      → (run_schedule env targets threads schedule).phase v ≡ holding i
      → (run_schedule env targets threads schedule).phase w ≡ holding i
      → (v ≡ w)
        × (i < length targets)
        × (get_or (run_schedule env targets threads schedule).results i empty_record ≡ empty_record)
  run_exclusive v w i e f =
      (final_Inv.unique v w i e f, (final_Inv.taken v i e).0, final_Inv.untouched v i e)

  run_returned :
      {rs : List Record}
      → run env targets c schedule ≡ some rs
      → (all_finished threads (run_schedule env targets threads schedule).phase ≡ true)
        × ((run_schedule env targets threads schedule).results ≡ rs)
  unfolding run
  run_returned e = ground arith

  pub length-run :
      {rs : List Record} → run env targets c schedule ≡ some rs → length rs ≡ length targets
  length-run e = rw (← (run_returned e).1) final_Inv.size

  -- When `run` returns there is one record for each target, and in the place of each target stands what
  -- one of the threads got for it, whatever the schedule. Conditions: a concurrency `c` of at least 1,
  -- and less than 2 ^ 64 for targets and concurrency together.
  pub run_complete :
      {rs : List Record}
      → run env targets c schedule ≡ some rs
      → (i : ℕ) → i < length targets
      → (length rs ≡ length targets)
        × ((w : ℕ) × (w < threads) × (get_or rs i empty_record ≡ own_record env targets w i))
  run_complete e i lt = (
    length-run e,
    rw (← (run_returned e).1) (written (final_Inv.handled i lt (omega (arith, drained)))),
  )
    where
      joined :
          (w : ℕ) → w < threads → (run_schedule env targets threads schedule).phase w ≡ finished
      joined =
          all_finished_lem threads (run_schedule env targets threads schedule).phase
            (run_returned e).0

      drained : length targets ≤ (run_schedule env targets threads schedule).next_index
      drained =
          let some_thread = (thread_count_bounds c (length targets) pos).0 in
          final_Inv.drained 0 some_thread (joined 0 some_thread)

      not_held : (w : ℕ) → (run_schedule env targets threads schedule).phase w ≢ holding i
      not_held w h = elim (dec_lt w threads) [
        | yes lt ↦ cc (joined w lt, h)
        | no out ↦ cc (final_Inv.idle w (omega arith), h)
      ]

      written :
          IsHandled env targets threads (run_schedule env targets threads schedule) i
          → (w : ℕ) × (w < threads)
            × (get_or (run_schedule env targets threads schedule).results i empty_record
                ≡ own_record env targets w i)
      written (inl (w, h)) = absurd (not_held w h)
      written (inr done) = done

get_or_ext {ℓ} :
    {A : Type ℓ} (d : A) (xs ys : List A)
    → length xs ≡ length ys
    → ((i : ℕ) → i < length xs → get_or xs i d ≡ get_or ys i d)
    → xs ≡ ys
get_or_ext d [] [] e h = refl
get_or_ext d [] (y ∷ ys) e h = absurd (omega arith)
get_or_ext d (x ∷ xs) [] e h = absurd (omega arith)
get_or_ext d (x ∷ xs) (y ∷ ys) e h =
    ap₂ ◌∷◌ (h 0 (omega arith)) (get_or_ext d xs ys (omega arith) (λ i lt. h (suc i) (omega arith)))

get_or-map :
    {A : Type 0} (f : Record → A) (rs : List Record) (i : ℕ) (d : Record)
    → get_or (map f rs) i (f d) ≡ f (get_or rs i d)
get_or-map f [] i d = refl
get_or-map f (r ∷ rs) zero d = refl
get_or-map f (r ∷ rs) (suc i) d = get_or-map f rs i d

length-map : {A : Type 0} (f : Record → A) (rs : List Record) → length (map f rs) ≡ length rs
length-map f [] = refl
length-map f (r ∷ rs) = ap suc (length-map f rs)

-- Two runs over the same targets that return, each with its own concurrency of at least 1, its own
-- schedule and its own fetches, return the same records in the same places as far as `f` sees them, if
-- `f` sees no difference between what any two threads get for one index. Targets and concurrency are
-- less than 2 ^ 64 together.
pub run_schedule_independent :
    {A : Type 0} (f : Record → A) (env env' : Fetches) (targets : List Bytes) (c c' : ℕ)
    (schedule schedule' : List ℕ)
    → 1 ≤ c
    → 1 ≤ c'
    → length targets + c < 2 ^ 64
    → length targets + c' < 2 ^ 64
    → ((v w i : ℕ) → f (own_record env targets v i) ≡ f (own_record env' targets w i))
    → {rs rs' : List Record} → run env targets c schedule ≡ some rs
    → run env' targets c' schedule' ≡ some rs'
    → map f rs ≡ map f rs'
run_schedule_independent f env env' targets c c' schedule schedule' pos pos' few few' same {rs}
      {rs'} e e' =
    get_or_ext (f empty_record) (map f rs) (map f rs')
      (omega (arith, length-map f rs, length-map f rs', size, size'))
      (λ i lt. slot i (omega (arith, length-map f rs, size)))
  where
    size : length rs ≡ length targets
    size = length-run env targets c schedule pos few e

    size' : length rs' ≡ length targets
    size' = length-run env' targets c' schedule' pos' few' e'

    slot :
        (i : ℕ)
        → i < length targets
        → get_or (map f rs) i (f empty_record) ≡ get_or (map f rs') i (f empty_record)
    slot i lt =
        let (v, v_lt, got) = (run_complete env targets c schedule pos few e i lt).1 in
        let (w, w_lt, got') = (run_complete env' targets c' schedule' pos' few' e' i lt).1 in
        get_or-map f rs i empty_record
        ∙ ap f got
        ∙ same v w i
        ∙ sym (ap f got')
        ∙ sym (get_or-map f rs' i empty_record)
