-- ===== src/TypeScript/Pool.antt =====
-- `run` of clients/typescript/src/polyfetch.ts and the workers of clients/typescript/src/worker.ts. The
-- variables `nextIndex`, `completed` and `results` belong to the main thread, whose handlers run one at a
-- time; a worker answers each task with one message. What a worker gets for a target is an argument.
-- Indices and counts are at most the length of an array, so they are exact.
use polyfetch.Base.{
  ℕ, zero, suc, ◌+◌, ◌≡◌, List, [], ◌∷◌, ◌++◌, Option, none, some, min, length, get_or, set,
  replicate, ltb, ◌==◌, if◌then◌else◌, Bytes,
}
use polyfetch.Fetch.{Record}

-- A worker has no task, works on the target of an index, or its message is on the way.
pub data Worker : Type 0 where
  idle : Worker
  working : ℕ → Worker
  replied : ℕ → Record → Worker

-- The promise that `run` returns.
pub data Outcome : Type 0 where
  pending resolved rejected : Outcome

pub record Pool : Type 0 where
  pub next_index : ℕ
  pub completed : ℕ
  pub results : List (Option Record)
  pub workers : List Worker
  pub outcome : Outcome

-- `assignNext`: what becomes of the worker, and of `nextIndex`.
unfoldable pub assign_next : (n next_index : ℕ) → Worker × ℕ
assign_next n next_index =
    if ltb next_index n then (working next_index, next_index + 1) else (idle, next_index)

-- The loop that gives each of `k` workers its first task.
unfoldable pub kick_off : (n k next_index : ℕ) → List Worker × ℕ
kick_off n zero next_index = ([], next_index)
kick_off n (suc k) next_index =
    let (worker, next) = assign_next n next_index in
    let (workers, last) = kick_off n k next in (worker ∷ workers, last)

-- `run` up to its first message.
unfoldable pub start : (concurrency n : ℕ) → Pool
start concurrency n =
    if n == 0
    then record { next_index = 0; completed = 0; results = []; workers = []; outcome = resolved }
    else (let (workers, next) = kick_off n (min concurrency n) 0 in
        record {
          next_index = next;
          completed = 0;
          results = replicate n none;
          workers = workers;
          outcome = pending;
        })

-- The handler of "message", for a worker between `front` and `back`.
unfoldable pub on_message :
    (n : ℕ) (s : Pool) (front back : List Worker) (index : ℕ) (r : Record) → Pool
on_message n s front back index r =
    let results = set s.results index (some r) in
    let completed = s.completed + 1 in
    let (worker, next) = assign_next n s.next_index in
    if completed == n
    then record s {
      completed = completed;
      results = results;
      workers = front ++ idle ∷ back;
      outcome = resolved;
    }
    else record s {
      next_index = next;
      completed = completed;
      results = results;
      workers = front ++ worker ∷ back;
    }

-- A step while the promise is pending: a worker has the record of its target; the main thread handles a
-- message; the main thread handles an "error", which can come from any worker at any time.
pub data Step (Fetched : Bytes → Record → Type 0) (targets : List Bytes)
    : Pool → Pool → Type 0 where
  fetch :
      (s : Pool) (front back : List Worker) (i : ℕ) (r : Record)
      → s.outcome ≡ pending
      → s.workers ≡ front ++ working i ∷ back
      → Fetched (get_or targets i []) r
      → Step Fetched targets s (record s { workers = front ++ replied i r ∷ back })
  message :
      (s : Pool) (front back : List Worker) (i : ℕ) (r : Record)
      → s.outcome ≡ pending
      → s.workers ≡ front ++ replied i r ∷ back
      → Step Fetched targets s (on_message (length targets) s front back i r)
  error :
      (s : Pool) (front back : List Worker) (worker : Worker)
      → s.outcome ≡ pending
      → s.workers ≡ front ++ worker ∷ back
      → Step Fetched targets s (record s { outcome = rejected })

-- `m` steps.
pub data Steps (Fetched : Bytes → Record → Type 0) (targets : List Bytes) (s : Pool)
    : ℕ → Pool → Type 0 where
  here : Steps Fetched targets s 0 s
  next :
      {m : ℕ} {t u : Pool}
      → Steps Fetched targets s m t
      → Step Fetched targets t u
      → Steps Fetched targets s (suc m) u
