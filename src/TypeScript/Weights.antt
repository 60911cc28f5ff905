-- ===== src/TypeScript/Weights.antt =====
-- Sums over the workers, and the slots of `results`.
use polyfetch.Base.{
  ℕ, zero, suc, ◌+◌, ◌≤◌, ◌<◌, ◌≡◌, refl, arith, List, [], ◌∷◌, ◌++◌, Option, none, some, length,
  get_or, set, replicate, ltb, ◌==◌, if◌then◌else◌,
}
use polyfetch.Fetch.{Record}
use polyfetch.TypeScript.Pool.{Worker, idle, working, replied}

-- 1 for a worker that has the index.
abbrev pub holds : ℕ → Worker → ℕ
holds i idle = 0
holds i (working j) = if i == j then 1 else 0
holds i (replied j r) = if i == j then 1 else 0

-- 1 for a worker that has a task.
abbrev pub busy : Worker → ℕ
busy idle = 0
busy (working j) = 1
busy (replied j r) = 1

-- 1 for a worker whose message is on the way.
abbrev pub answered : Worker → ℕ
answered idle = 0
answered (working j) = 0
answered (replied j r) = 1

abbrev pub one : Worker → ℕ
one w = 1

abbrev pub weigh : (Worker → ℕ) → List Worker → ℕ
weigh f [] = 0
weigh f (w ∷ ws) = f w + weigh f ws

weigh-append :
    (f : Worker → ℕ) (front back : List Worker)
    → weigh f (front ++ back) ≡ weigh f front + weigh f back
weigh-append f [] back = omega arith
weigh-append f (w ∷ front) back = omega (arith, weigh-append f front back)

-- A worker goes from `w` to `v`.
pub weigh_moved :
    (f : Worker → ℕ) (ws front back : List Worker) (w v : Worker)
    → ws ≡ front ++ w ∷ back
    → weigh f ws + f v ≡ weigh f (front ++ v ∷ back) + f w
weigh_moved f ws front back w v e =
    rw e (omega (arith, weigh-append f front (w ∷ back), weigh-append f front (v ∷ back)))

pub weigh-ge :
    (f : Worker → ℕ) (ws front back : List Worker) (w : Worker)
    → ws ≡ front ++ w ∷ back
    → f w ≤ weigh f ws
weigh-ge f ws front back w e = rw e (omega (arith, weigh-append f front (w ∷ back)))

pub weigh-one : (ws : List Worker) → weigh one ws ≡ length ws
weigh-one [] = refl
weigh-one (w ∷ ws) = omega (arith, weigh-one ws)

-- 1 for a slot that has its record.
abbrev pub full : Option Record → ℕ
full none = 0
full (some r) = 1

abbrev pub full_at : ℕ → List (Option Record) → ℕ
full_at i results = full (get_or results i none)

abbrev pub filled : List (Option Record) → ℕ
filled [] = 0
filled (slot ∷ results) = full slot + filled results

pub filled-set :
    (results : List (Option Record)) (i : ℕ) (r : Record)
    → i < length results
    → filled (set results i (some r)) + full_at i results ≡ filled results + 1
filled-set [] i r lt = absurd (omega arith)
filled-set (slot ∷ results) zero r lt = omega arith
filled-set (slot ∷ results) (suc i) r lt = omega (arith, filled-set results i r (omega arith))

pub filled-le : (results : List (Option Record)) → filled results ≤ length results
filled-le [] = omega arith
filled-le (none ∷ results) = omega (arith, filled-le results)
filled-le (some r ∷ results) = omega (arith, filled-le results)

-- When as many slots are full as there are, each of them is.
pub filled_all :
    (results : List (Option Record)) (i : ℕ)
    → filled results ≡ length results
    → i < length results
    → full_at i results ≡ 1
filled_all [] i e lt = absurd (omega arith)
filled_all (none ∷ results) i e lt = absurd (omega (arith, filled-le results))
filled_all (some r ∷ results) zero e lt = refl
filled_all (some r ∷ results) (suc i) e lt = filled_all results i (omega arith) (omega arith)

pub filled-replicate : (n : ℕ) → filled (replicate n none) ≡ 0
filled-replicate zero = refl
filled-replicate (suc n) = omega (arith, filled-replicate n)

pub full_at-replicate : (n i : ℕ) → full_at i (replicate n none) ≡ 0
full_at-replicate zero i = refl
full_at-replicate (suc n) zero = refl
full_at-replicate (suc n) (suc i) = full_at-replicate n i

-- 1 for an index that no worker was given yet.
abbrev pub ahead : ℕ → ℕ → ℕ
ahead next_index i = if ltb i next_index then 0 else 1
