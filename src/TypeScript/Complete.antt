-- ===== src/TypeScript/Complete.antt =====
-- What `run` has when its promise is settled, and when it goes on.
use polyfetch.Base.{
  ℕ, zero, suc, ◌+◌, ◌*◌, ◌≤◌, ◌<◌, ◌≡◌, refl, sym, ◌∙◌, ap, ap₂, arith, inl, inr, ◌⊎◌, List, [],
  ◌∷◌, ◌++◌, map, Option, none, some, min, length, get_or, ◌==◌, Bytes, Bool-cases,
}
use polyfetch.Fetch.{Record}
use polyfetch.Run.{empty_record}
use polyfetch.TypeScript.Pool.{
  Worker, idle, working, replied, pending, resolved, Pool, start, on_message, Step, fetch, message,
  Steps, here, next,
}
use polyfetch.TypeScript.Weights.{busy, answered, weigh, full_at, filled, filled_all}
use polyfetch.TypeScript.Runs.{Steps-Inv, steps_made, Steps-steps_made}

answered-le-busy : (ws : List Worker) → weigh answered ws ≤ weigh busy ws
answered-le-busy [] = omega arith
answered-le-busy (idle ∷ ws) = omega (arith, answered-le-busy ws)
answered-le-busy (working i ∷ ws) = omega (arith, answered-le-busy ws)
answered-le-busy (replied i r ∷ ws) = omega (arith, answered-le-busy ws)

-- Full slots hold a list of records.
slots_full :
    (results : List (Option Record))
    → ((i : ℕ) → i < length results → full_at i results ≡ 1)
    → (rs : List Record) × (results ≡ map some rs)
slots_full [] h = ([], refl)
slots_full (none ∷ results) h = absurd (omega (arith, h 0 (omega arith)))
slots_full (some r ∷ results) h =
    let (rs, e) = slots_full results (λ i lt. h (suc i) (omega arith)) in
    (r ∷ rs, ap (◌∷◌ (some r)) e)

some_injective : {A : Type 0} {a b : A} → some a ≡ some b → a ≡ b
some_injective e = cc e

pub map-some_injective : (l m : List Record) → map some l ≡ map some m → l ≡ m
map-some_injective [] [] e = refl
map-some_injective [] (r ∷ m) e = absurd (cc e)
map-some_injective (r ∷ l) [] e = absurd (cc e)
map-some_injective (r ∷ l) (q ∷ m) e =
    let heads : some r ≡ some q = cc e in
    let tails : map some l ≡ map some m = cc e in
    ap₂ ◌∷◌ (some_injective heads) (map-some_injective l m tails)

length-map-some : (rs : List Record) → length (map some rs) ≡ length rs
length-map-some [] = refl
length-map-some (r ∷ rs) = ap suc (length-map-some rs)

get_or-map-some :
    (rs : List Record) (i : ℕ)
    → i < length rs
    → get_or (map some rs) i none ≡ some (get_or rs i empty_record)
get_or-map-some [] i lt = absurd (omega arith)
get_or-map-some (r ∷ rs) zero lt = refl
get_or-map-some (r ∷ rs) (suc i) lt = get_or-map-some rs i (omega arith)

-- However the workers are scheduled: when the promise of `run` is resolved, every slot of `results` has
-- a record, in the order of the targets, and each is one that a fetch of its target brought. This takes
-- two steps for each target, no more and no less.
pub Steps-resolved :
    (Fetched : Bytes → Record → Type 0) (targets : List Bytes) (k m : ℕ) (s : Pool)
    → Steps Fetched targets (start k (length targets)) m s
    → s.outcome ≡ resolved
    → (m ≡ 2 * length targets)
      × ((rs : List Record) × (s.results ≡ map some rs)
          × (length rs ≡ length targets)
          × ((i : ℕ)
              → i < length targets
              → Fetched (get_or targets i []) (get_or rs i empty_record)))
Steps-resolved Fetched targets k m s steps done =
    let inv = Steps-Inv Fetched targets k steps in
    let all_full : filled s.results ≡ length s.results =
      sym inv.counted ∙ inv.ended done ∙ sym inv.size in
    let (rs, e) = slots_full s.results (λ i lt. filled_all s.results i all_full lt) in
    let many : length rs ≡ length targets =
      sym (length-map-some rs) ∙ ap length (sym e) ∙ inv.size in
    let made : steps_made Fetched targets s ≡ m = Steps-steps_made Fetched targets k steps in
    (
      ground (arith, made, done, answered-le-busy s.workers, inv.given, inv.within, inv.ended done),
      (
        rs,
        e,
        many,
        λ i lt.
            inv.slots i _ lt
              (ap (λ l. get_or l i none) e ∙ get_or-map-some rs i (omega (arith, many))),
      ),
    )

find_busy :
    (ws : List Worker)
    → 1 ≤ weigh busy ws
    → (front : List Worker) × (w : Worker) × (back : List Worker) × (ws ≡ front ++ w ∷ back)
      × (busy w ≡ 1)
find_busy [] h = absurd (omega arith)
find_busy (idle ∷ ws) h =
    let (front, w, back, e, b) = find_busy ws (omega arith) in
    (idle ∷ front, w, back, ap (◌∷◌ idle) e, b)
find_busy (working i ∷ ws) h = ([], working i, ws, refl, refl)
find_busy (replied i r ∷ ws) h = ([], replied i r, ws, refl, refl)

-- A pending promise has less than two steps for each target behind it.
pending-few :
    (Fetched : Bytes → Record → Type 0) (targets : List Bytes) (k m : ℕ) (s : Pool)
    → Steps Fetched targets (start k (length targets)) m s
    → s.outcome ≡ pending
    → m < 2 * length targets
pending-few Fetched targets k m s steps waits =
    let inv = Steps-Inv Fetched targets k steps in
    let made : steps_made Fetched targets s ≡ m = Steps-steps_made Fetched targets k steps in
    ground
      (arith, made, waits, answered-le-busy s.workers, inv.given, inv.within, inv.unfinished waits)

on_message-outcome :
    (n : ℕ) (s : Pool) (front back : List Worker) (i : ℕ) (r : Record)
    → s.outcome ≡ pending
    → ((on_message n s front back i r).outcome ≡ pending)
      ⊎ ((on_message n s front back i r).outcome ≡ resolved)
unfolding on_message
on_message-outcome n s front back i r waits = elim (Bool-cases ((s.completed + 1) == n)) [
  | inl last ↦ rw last (inr refl)
  | inr more ↦ rw more (inl waits)
]

module _ (Fetched : Bytes → Record → Type 0) (brings : (t : Bytes) → (r : Record) × Fetched t r)
    (targets : List Bytes) (k : ℕ) (some_worker : 1 ≤ k) where
  -- A step that is no "error".
  works :
      (m : ℕ) (s : Pool)
      → Steps Fetched targets (start k (length targets)) m s
      → s.outcome ≡ pending
      → (u : Pool) × Step Fetched targets s u × ((u.outcome ≡ pending) ⊎ (u.outcome ≡ resolved))
  works m s steps waits =
      let inv = Steps-Inv Fetched targets k steps in
      let at_work : 1 ≤ weigh busy s.workers =
        grind (arith, inv.at_work, inv.unfinished waits, inv.given, inv.within, inv.pool) in
      let (front, w, back, e, b) = find_busy s.workers at_work in by_worker front w back e b
    where
      by_worker :
          (front : List Worker) (w : Worker) (back : List Worker)
          → s.workers ≡ front ++ w ∷ back
          → busy w ≡ 1
          → (u : Pool) × Step Fetched targets s u × ((u.outcome ≡ pending) ⊎ (u.outcome ≡ resolved))
      by_worker front idle back e b = absurd (omega arith)
      by_worker front (working i) back e b =
          let (r, got) = brings (get_or targets i []) in
          (_, fetch s front back i r waits e got, inl waits)
      by_worker front (replied i r) back e b = (
        _,
        message s front back i r waits e,
        on_message-outcome (length targets) s front back i r waits,
      )

  -- `left` steps are enough, if that many are missing.
  goes_on :
      (left : ℕ) {j m : ℕ} {s v : Pool}
      → Steps Fetched targets s j v
      → Steps Fetched targets (start k (length targets)) m v
      → 2 * length targets ≤ m + left
      → v.outcome ≡ pending
      → (i : ℕ) × (u : Pool) × Steps Fetched targets s i u × (u.outcome ≡ resolved)
  goes_on zero {j} {m} {s} {v} made steps enough waits =
      absurd (omega (arith, pending-few Fetched targets k m v steps waits))
  goes_on (suc left) {j} {m} {s} {v} made steps enough waits =
      let (u, step, ends) = works m v steps waits in
      elim ends [
        | inl pends ↦ goes_on left (next made step) (next steps step) (omega arith) pends
        | inr done ↦ (suc j, u, next made step, done)
      ]

-- While the promise of `run` is pending, fewer than two steps for each target have been made, and further
-- steps lead from there to a resolved promise: the pool never waits for nothing and never goes on for
-- ever. Conditions: K is at least 1, and a fetch of any target brings some record. There are as many
-- workers as the smaller of K and the number of targets, and all of them are at work while a target is
-- left that no worker was given.
pub Steps-progress :
    (Fetched : Bytes → Record → Type 0)
    → ((t : Bytes) → (r : Record) × Fetched t r)
    → (targets : List Bytes) (k m : ℕ) (s : Pool) → 1 ≤ k
    → Steps Fetched targets (start k (length targets)) m s
    → s.outcome ≡ pending
    → (m < 2 * length targets)
      × ((j : ℕ) × (u : Pool) × Steps Fetched targets s j u × (u.outcome ≡ resolved))
      × (length s.workers ≡ min k (length targets))
      × (s.next_index < length targets → weigh busy s.workers ≡ length s.workers)
Steps-progress Fetched brings targets k m s some_worker steps waits =
    let inv = Steps-Inv Fetched targets k steps in
    (
      pending-few Fetched targets k m s steps waits,
      goes_on Fetched brings targets k some_worker (2 * length targets) here steps (omega arith)
          waits,
      inv.pool,
      inv.at_work,
    )
