-- ===== src/Threads.antt =====
-- `run` of clients/cpp/src/main.cpp with libcurl: each thread has a handle of its own from
-- `curl_easy_init`, fetches with it for as long as it finds indices, and gives it to
-- `curl_easy_cleanup`. The counter, the slots and the phases are those of `Run`. `none` is an overflow of
-- a signed counter.
pub mod Fetched
pub mod Step
pub mod Simulate
pub mod Refine
pub mod Whole
pub mod Handles
use native.Mathlib.Decide.{ℕ_discrete}
use mathlib.Core.Logic.{ite}
use polyfetch.Base.{
  ℕ, zero, suc, ◌+◌, Bool, true, false, List, [], ◌∷◌, Option, none, some, length, get_or, ltb,
  if◌then◌else◌, Bytes,
}
use polyfetch.Base.Int.{ℤ}
use polyfetch.Base.Result.{◌>>=◌}
use polyfetch.Sha256.{Sha256}
use polyfetch.Fetch.{Record, Curl, fetch_and_process}
use polyfetch.Run.{
  Phase, ready, holding, finished, Pool, empty_record, no_handle_record, claim, write_slot, start,
  thread_count, all_finished,
}

-- What is fixed for a run: the address, the timeout, and `curl_easy_init` of each thread. For the fetch
-- of index `i` by thread `w`: the storage in which the processor is made, and the clock before and
-- after the transfer.
pub record Setup (Handle : Type 0) : Type 0 where
  pub base_url : Bytes
  pub timeout : ℤ
  pub easy_init : ℕ → Option Handle
  pub memory : (w i : ℕ) → Sha256
  pub begins : (w i : ℕ) → ℕ
  pub ends : (w i : ℕ) → ℕ

pub record Machine (Handle : Type 0) : Type 0 where
  pub pool : Pool
  pub handles : ℕ → Option Handle

abbrev pub update_handle :
    {Handle : Type 0} → (ℕ → Option Handle) → ℕ → Option Handle → ℕ → Option Handle
update_handle handles w h v = ite (ℕ_discrete w v) h (handles v)

module _ (c : Curl) (setup : Setup c.Handle) (targets : List Bytes) where
  -- The body of the loop for an index that was found, with the handle of the thread.
  unfoldable pub serve : ℕ → ℕ → Machine c.Handle → Option c.Handle → Option (Machine c.Handle)
  serve w i m none = some (record m {
    pool =
        write_slot w i
          (no_handle_record (get_or m.pool.results i empty_record) (get_or targets i [])) m.pool;
  })
  serve w i m (some handle) = do
    (r, after) ←
        fetch_and_process c (setup.memory w i) (setup.begins w i) (setup.ends w i) handle
          setup.base_url (get_or targets i []) setup.timeout
    some (record {
      pool = write_slot w i r m.pool;
      handles = update_handle m.handles w (some after);
    })

  -- One step of thread `w`. A thread that finds no index is done with its handle.
  unfoldable pub thread_step : ℕ → Machine c.Handle → Phase → Option (Machine c.Handle)
  thread_step w m ready = some (record {
    pool = claim targets w m.pool;
    handles =
        if ltb m.pool.next_index (length targets)
        then m.handles
        else update_handle m.handles w none;
  })
  thread_step w m (holding i) = serve w i m (m.handles w)
  thread_step w m finished = some m

  unfoldable pub thread_steps : Machine c.Handle → List ℕ → Option (Machine c.Handle)
  thread_steps m [] = some m
  thread_steps m (w ∷ ws) = thread_step w m (m.pool.phase w) >>= λ m'. thread_steps m' ws

  -- `k` threads, each behind its `curl_easy_init`.
  unfoldable pub start_threads : ℕ → Machine c.Handle
  start_threads k = record {
    pool = start k targets;
    handles = λ w. if ltb w k then setup.easy_init w else none;
  }

  -- The records, once every thread is joined.
  unfoldable pub run_threads : ℕ → List ℕ → Option (List Record)
  run_threads concurrency schedule = do
    let k = thread_count concurrency (length targets)
    m ← thread_steps (start_threads k) schedule
    if all_finished k m.pool.phase then some m.pool.results else none
