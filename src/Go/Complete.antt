-- ===== src/Go/Complete.antt =====
-- What `run` has collected when `results` is closed.
use mathlib.Core.List.{Perm}
use mathlib.Core.List.Perm
use polyfetch.Base.{
  ℕ, zero, suc, ◌≤◌, ◌≡◌, refl, subst, arith, Bool, true, false, List, [], ◌∷◌, append-nil, map,
  length, Bytes, All, replicate, length-replicate,
}
use polyfetch.Fetch.{Record}
use polyfetch.Go.Pool.{Worker, idle, IsDone, Channels, start, Steps, here, next}
use polyfetch.Go.Invariant.{held, IsGood, IsBusy, Inv}
use polyfetch.Go.Steps.{Step-Inv}

module _ (Fetched : Bytes → Record → Type 0)
    (names : (t : Bytes) (r : Record) → Fetched t r → r.target ≡ t) where
  held-replicate : (k : ℕ) → held (replicate k idle) ≡ []
  held-replicate zero = refl
  held-replicate (suc k) = held-replicate k

  replicate-IsGood : (k : ℕ) → All (IsGood Fetched) (replicate k idle)
  replicate-IsGood zero = tt
  replicate-IsGood (suc k) = (tt, replicate-IsGood k)

  replicate-IsBusy : (k : ℕ) → All (IsBusy Fetched) (replicate k idle)
  replicate-IsBusy zero = tt
  replicate-IsBusy (suc k) = (λ e. cc e, replicate-IsBusy k)

  start-Inv : (k : ℕ) (targets : List Bytes) → 1 ≤ k → Inv Fetched targets (start k targets)
  unfolding start
  start-Inv k targets pos = record {
    all = rw (held-replicate k, append-nil targets) (Perm.refl targets);
    good = replicate-IsGood k;
    fetched = tt;
    some_worker = omega (arith, length-replicate {A = Worker} k idle);
    fed = λ closed. cc closed;
    at_work = λ open_jobs. replicate-IsBusy k;
    ended = λ closed. cc closed;
  }

  Steps-Inv :
      {targets : List Bytes} {s u : Channels} {n : ℕ}
      → Inv Fetched targets s
      → Steps Fetched s n u
      → Inv Fetched targets u
  Steps-Inv inv here = inv
  Steps-Inv inv (next before step) = Step-Inv Fetched names step (Steps-Inv inv before)

  held_done : (ws : List Worker) → All IsDone ws → held ws ≡ []
  held_done [] h = refl
  held_done (w ∷ ws) (e, h) = rw e (held_done ws h)

  -- Somebody is done, so `jobs` is closed.
  Inv-fed :
      {targets : List Bytes} {s : Channels}
      → Inv Fetched targets s
      → s.results_closed ≡ true
      → s.feed ≡ []
  Inv-fed {targets} {s} inv closed = by_jobs s.jobs_closed refl
    where
      contradiction :
          (ws : List Worker) → 1 ≤ length ws → All IsDone ws → All (IsBusy Fetched) ws → ⊥
      contradiction [] pos d b = omega arith
      contradiction (w ∷ ws) pos d b = b.0 d.0

      by_jobs : (b : Bool) → s.jobs_closed ≡ b → s.feed ≡ []
      by_jobs true e = inv.fed e
      by_jobs false e =
          absurd (contradiction s.workers inv.some_worker (inv.ended closed) (inv.at_work e))

-- However the goroutines are scheduled: when `results` is closed, `run` has collected for each target
-- one record that a fetch of it brought, in some order. Conditions: a worker at least, and records that
-- say what their target is.
pub Steps-complete :
    (Fetched : Bytes → Record → Type 0)
    → ((t : Bytes) (r : Record) → Fetched t r → r.target ≡ t)
    → (k : ℕ) (targets : List Bytes) (n : ℕ) (s : Channels) → 1 ≤ k
    → Steps Fetched (start k targets) n s
    → s.results_closed ≡ true
    → Perm (map (λ (r : Record). r.target) s.records) targets
      × All (λ r. Fetched r.target r) s.records
Steps-complete Fetched names k targets n s pos steps closed =
    let inv = Steps-Inv Fetched names (start-Inv Fetched names k targets pos) steps in
    (
      subst (λ l. Perm l targets)
          (rw
            (Inv-fed Fetched names inv closed, held_done Fetched names s.workers (inv.ended closed))
            refl)
          inv.all,
      inv.fetched,
    )
