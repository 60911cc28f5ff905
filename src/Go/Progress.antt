-- ===== src/Go/Progress.antt =====
-- How many steps the goroutines of `run` make, and when one of them can make a step.
use polyfetch.Base.{
  ℕ, zero, suc, ◌+◌, ◌*◌, ◌≡◌, ◌≢◌, refl, ap, arith, inl, inr, Bool, true, false, List, [], ◌∷◌,
  ◌++◌, length, Bytes, All, replicate, Bool-cases,
}
use polyfetch.Fetch.{Record}
use polyfetch.Go.Pool.{
  Worker, idle, done, fetching, sending, IsDone, Channels, start, Step, take_job, fetch, deliver,
  close_jobs, leave, close_results, Steps, here, next,
}

-- The steps that a worker makes before it waits for the next job or is done.
abbrev pub weight : Worker → ℕ
weight done = 0
weight idle = 1
weight (sending r) = 2
weight (fetching t) = 3

abbrev pub weights : List Worker → ℕ
weights [] = 0
weights (w ∷ ws) = weight w + weights ws

abbrev pub open_one : Bool → ℕ
open_one true = 0
open_one false = 1

-- The steps that are left.
abbrev pub steps_left : Channels → ℕ
steps_left s =
    3 * length s.feed + weights s.workers + open_one s.jobs_closed + open_one s.results_closed

weights-append : (front back : List Worker) → weights (front ++ back) ≡ weights front + weights back
weights-append [] back = omega arith
weights-append (w ∷ front) back = omega (arith, weights-append front back)

-- A worker goes from `w` to `v`.
weights_moved :
    (ws front back : List Worker) (w v : Worker)
    → ws ≡ front ++ w ∷ back
    → weights ws + weight v ≡ weights (front ++ v ∷ back) + weight w
weights_moved ws front back w v e =
    rw e (omega (arith, weights-append front (w ∷ back), weights-append front (v ∷ back)))

pub Step-steps_left :
    {Fetched : Bytes → Record → Type 0} {s u : Channels}
    → Step Fetched s u
    → steps_left s ≡ steps_left u + 1
Step-steps_left (take_job s front back t ts fed e) =
    omega
      (arith, weights_moved s.workers front back idle (fetching t) e, ap (length {A = Bytes}) fed)
Step-steps_left (fetch s front back t r got e) =
    omega (arith, weights_moved s.workers front back (fetching t) (sending r) e)
Step-steps_left (deliver s front back r open_results e) =
    omega (arith, weights_moved s.workers front back (sending r) idle e)
Step-steps_left (close_jobs s fed open_jobs) = rw open_jobs (omega arith)
Step-steps_left (leave s front back closed e) =
    omega (arith, weights_moved s.workers front back idle done e)
Step-steps_left (close_results s all_done open_results) = rw open_results (omega arith)

weights-replicate : (k : ℕ) → weights (replicate k idle) ≡ k
weights-replicate zero = refl
weights-replicate (suc k) = omega (arith, weights-replicate k)

-- However the goroutines are scheduled and whatever a fetch brings: after `n` steps from the start with
-- `k` workers, as many are left as are missing from three for each target, one for each worker, and
-- two. So no schedule makes more steps than that.
pub Steps-steps_left :
    (Fetched : Bytes → Record → Type 0) (k : ℕ) (targets : List Bytes) (n : ℕ) (s : Channels)
    → Steps Fetched (start k targets) n s
    → n + steps_left s ≡ 3 * length targets + k + 2
unfolding start
Steps-steps_left Fetched k targets n s here = omega (arith, weights-replicate k)
Steps-steps_left Fetched k targets n s (next before step) =
    omega (arith, Steps-steps_left Fetched k targets _ _ before, Step-steps_left step)

-- The first worker that is not done, if there is one.
data Busy (ws : List Worker) : Type 0 where
  all_done : All IsDone ws → Busy ws
  busy : (front back : List Worker) (w : Worker) → ws ≡ front ++ w ∷ back → w ≢ done → Busy ws

Busy-cons : (w : Worker) (ws : List Worker) → IsDone w → Busy ws → Busy (w ∷ ws)
Busy-cons w ws e (all_done h) = all_done (e, h)
Busy-cons w ws e (busy front back v split other) =
    busy (w ∷ front) back v (ap (λ l. w ∷ l) split) other

find-Busy : (ws : List Worker) → Busy ws
find-Busy [] = all_done tt
find-Busy (done ∷ ws) = Busy-cons done ws refl (find-Busy ws)
find-Busy (idle ∷ ws) = busy [] ws idle refl (λ e. cc e)
find-Busy (fetching t ∷ ws) = busy [] ws (fetching t) refl (λ e. cc e)
find-Busy (sending r ∷ ws) = busy [] ws (sending r) refl (λ e. cc e)

-- There is no deadlock: as long as `results` is open, in any state, some goroutine can make a step,
-- if a fetch of every target brings some record.
pub Step-progress :
    (Fetched : Bytes → Record → Type 0)
    → ((t : Bytes) → (r : Record) × Fetched t r)
    → (s : Channels) → s.results_closed ≡ false
    → (u : Channels) × Step Fetched s u
Step-progress Fetched total s open_results = by_busy (find-Busy s.workers)
  where
    idle_moves :
        (front back : List Worker)
        → s.workers ≡ front ++ idle ∷ back
        → (feed : List Bytes) → s.feed ≡ feed
        → (u : Channels) × Step Fetched s u
    idle_moves front back e (t ∷ ts) fed = (_, take_job s front back t ts fed e)
    idle_moves front back e [] fed = elim (Bool-cases s.jobs_closed) [
      | inl closed ↦ (_, leave s front back closed e)
      | inr open_jobs ↦ (_, close_jobs s fed open_jobs)
    ]

    by_busy : Busy s.workers → (u : Channels) × Step Fetched s u
    by_busy (all_done h) = (_, close_results s h open_results)
    by_busy (busy front back done e other) = absurd (other refl)
    by_busy (busy front back idle e other) = idle_moves front back e s.feed refl
    by_busy (busy front back (fetching t) e other) =
        (_, fetch s front back t (total t).0 (total t).1 e)
    by_busy (busy front back (sending r) e other) = (_, deliver s front back r open_results e)
