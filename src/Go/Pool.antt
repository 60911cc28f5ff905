-- ===== src/Go/Pool.antt =====
-- `run` of clients/go/main.go: K workers, a goroutine that feeds them the targets, one that closes
-- `results` when all workers are done, and `run` itself, which collects the records. The channels have no
-- buffer, so a value changes hands in one step. What a worker gets for a target is an argument.
use polyfetch.Base.{ℕ, suc, ◌≡◌, Bool, true, false, List, [], ◌∷◌, ◌++◌, Bytes, All, replicate}
use polyfetch.Fetch.{Record}

-- A worker waits for a job, fetches, waits to hand over its record, or has called `wg.Done`.
pub data Worker : Type 0 where
  idle done : Worker
  fetching : Bytes → Worker
  sending : Record → Worker

abbrev pub IsDone : Worker → Type 0
IsDone w = w ≡ done

-- `feed` holds the targets that the feeding goroutine has not sent yet.
pub record Channels : Type 0 where
  pub feed : List Bytes
  pub jobs_closed : Bool
  pub workers : List Worker
  pub results_closed : Bool
  pub records : List Record

unfoldable pub start : ℕ → List Bytes → Channels
start k targets = record {
  feed = targets;
  jobs_closed = false;
  workers = replicate k idle;
  results_closed = false;
  records = [];
}

-- A step: a target goes from the feeder to a waiting worker; a worker gets a record; a record goes from
-- a worker to `run`, while `results` is open; the feeder has sent everything and closes `jobs`; a
-- waiting worker finds `jobs` closed and is done; all workers are done and `results` is closed.
pub data Step (Fetched : Bytes → Record → Type 0) : Channels → Channels → Type 0 where
  take_job :
      (s : Channels) (front back : List Worker) (t : Bytes) (ts : List Bytes)
      → s.feed ≡ t ∷ ts
      → s.workers ≡ front ++ idle ∷ back
      → Step Fetched s (record s { feed = ts; workers = front ++ fetching t ∷ back })
  fetch :
      (s : Channels) (front back : List Worker) (t : Bytes) (r : Record)
      → Fetched t r
      → s.workers ≡ front ++ fetching t ∷ back
      → Step Fetched s (record s { workers = front ++ sending r ∷ back })
  deliver :
      (s : Channels) (front back : List Worker) (r : Record)
      → s.results_closed ≡ false
      → s.workers ≡ front ++ sending r ∷ back
      → Step Fetched s (record s { workers = front ++ idle ∷ back; records = s.records ++ r ∷ [] })
  close_jobs :
      (s : Channels)
      → s.feed ≡ []
      → s.jobs_closed ≡ false
      → Step Fetched s (record s { jobs_closed = true })
  leave :
      (s : Channels) (front back : List Worker)
      → s.jobs_closed ≡ true
      → s.workers ≡ front ++ idle ∷ back
      → Step Fetched s (record s { workers = front ++ done ∷ back })
  close_results :
      (s : Channels)
      → All IsDone s.workers
      → s.results_closed ≡ false
      → Step Fetched s (record s { results_closed = true })

-- `n` steps.
pub data Steps (Fetched : Bytes → Record → Type 0) (s : Channels) : ℕ → Channels → Type 0 where
  here : Steps Fetched s 0 s
  next :
      {n : ℕ} {t u : Channels} → Steps Fetched s n t → Step Fetched t u → Steps Fetched s (suc n) u
