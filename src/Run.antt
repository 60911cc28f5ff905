-- ===== src/Run.antt =====
-- `run` of clients/cpp/src/main.cpp: `k` threads take indices from one atomic counter and write the
-- records into slots of their own. A schedule says which thread makes the next step; a step is one
-- access to what the threads share, `next_index.fetch_add(1)` or the write of a slot.
-- What a thread gets for an index, from `fetch_and_process` or for want of a handle, is an argument.
pub mod Phases
pub mod Invariant
pub mod Results
pub mod Progress
pub mod Fair
pub mod Live
pub mod Bound
use native.Mathlib.Decide.{ℕ_discrete}
use mathlib.Core.Logic.{ite}
use polyfetch.Base.{
  ℕ, zero, suc, ◌+◌, Bool, true, false, ◌&&◌, List, [], foldl, Option, none, some, length, get_or,
  set, replicate, ltb, if◌then◌else◌, Bytes, codes, u64,
}
use polyfetch.Base.Int.{pos}
use polyfetch.Fetch.{Record}

-- Where a thread stands: before the counter, before the write of slot `i`, behind its loop.
pub data Phase : Type 0 where
  ready : Phase
  holding : ℕ → Phase
  finished : Phase

pub record Pool : Type 0 where
  pub next_index : ℕ
  pub results : List Record
  pub phase : ℕ → Phase

-- A default-constructed record.
abbrev pub empty_record : Record
empty_record = record {
  target = [];
  status = [];
  size_bytes = pos 0;
  line_count = pos 0;
  sha256 = [];
  fetch_ms = pos 0;
  error = [];
}

-- Without a handle a thread sets three fields of the slot.
unfoldable pub no_handle_record : Record → Bytes → Record
no_handle_record slot target = record slot {
  target = target;
  status = codes "error";
  error = codes "curl_easy_init failed";
}

-- What the environment decides: which threads get a handle, and what a fetch by thread `w` for the
-- index `i` returns.
pub record Fetches : Type 0 where
  pub has_handle : ℕ → Bool
  pub fetched : (w i : ℕ) → Bytes → Record

-- What thread `w` leaves in the slot of index `i`.
unfoldable pub slot_record : Fetches → List Bytes → ℕ → ℕ → Record → Record
slot_record env targets w i slot =
    if env.has_handle w
    then env.fetched w i (get_or targets i [])
    else no_handle_record slot (get_or targets i [])

abbrev pub update_phase : (ℕ → Phase) → ℕ → Phase → ℕ → Phase
update_phase phase w p v = ite (ℕ_discrete w v) p (phase v)

-- `next_index.fetch_add(1)` and the test behind it, by thread `w`.
abbrev pub claim : List Bytes → ℕ → Pool → Pool
claim targets w s = record s {
  next_index = u64 (s.next_index + 1);
  phase =
      update_phase s.phase w
        (if ltb s.next_index (length targets) then holding s.next_index else finished);
}

-- The write of slot `i` by thread `w`, which then goes back to the counter.
abbrev pub write_slot : ℕ → ℕ → Record → Pool → Pool
write_slot w i r s = record s { results = set s.results i r; phase = update_phase s.phase w ready }

-- One step of thread `w` from its phase.
unfoldable pub worker_step : Fetches → List Bytes → ℕ → Pool → Phase → Pool
worker_step env targets w s ready = claim targets w s
worker_step env targets w s (holding i) =
    write_slot w i (slot_record env targets w i (get_or s.results i empty_record)) s
worker_step env targets w s finished = s

unfoldable pub turn : Fetches → List Bytes → Pool → ℕ → Pool
turn env targets s w = worker_step env targets w s (s.phase w)

-- `k` threads are started; a number from `k` on names none.
unfoldable pub start : ℕ → List Bytes → Pool
start k targets = record {
  next_index = 0;
  results = replicate (length targets) empty_record;
  phase = λ w. if ltb w k then ready else finished;
}

unfoldable pub run_schedule : Fetches → List Bytes → ℕ → List ℕ → Pool
run_schedule env targets k schedule = foldl (turn env targets) (start k targets) schedule

-- The number of threads for a concurrency of `c`, with no more threads than targets.
unfoldable pub thread_count : ℕ → ℕ → ℕ
thread_count c n = if ltb n c && ltb 0 n then n else c

abbrev pub is_finished : Phase → Bool
is_finished ready = false
is_finished (holding i) = false
is_finished finished = true

-- All of `k` threads can be joined.
unfoldable pub all_finished : ℕ → (ℕ → Phase) → Bool
all_finished zero phase = true
all_finished (suc k) phase = is_finished (phase k) && all_finished k phase

-- The records, once every thread is joined.
unfoldable pub run : Fetches → List Bytes → ℕ → List ℕ → Option (List Record)
run env targets concurrency schedule =
    let k = thread_count concurrency (length targets) in
    let s = run_schedule env targets k schedule in
    if all_finished k s.phase then some s.results else none
