-- ===== src/Threads/Step.antt =====
-- One step of a thread with its handle, beside one turn of `Run`.
use native.Mathlib.Decide.{ℕ_discrete}
use polyfetch.Base.{
  ℕ, ◌≡◌, ◌≢◌, refl, ap, arith, inl, inr, Bool, true, false, List, [], none, some, length, get_or,
  ltb, Bytes, Bool-cases, if◌then◌else◌,
}
use polyfetch.Fetch.{Record, Curl, fetch_and_process}
use polyfetch.Run.{
  ready, holding, finished, empty_record, no_handle_record, slot_record, worker_step, turn, claim,
  write_slot,
}
use polyfetch.Threads.{Setup, Machine, update_handle, serve, thread_step}
use polyfetch.Threads.Fetched.{is_some, Table, table_fetches, replaced, replaced_here}

module _ (c : Curl) (setup : Setup c.Handle) (targets : List Bytes) where
  abbrev pub has_handle : ℕ → Bool
  has_handle w = is_some (setup.easy_init w)

  -- A thread that is not behind its loop has a handle if `curl_easy_init` gave it one.
  abbrev pub Owns : Machine c.Handle → Type 0
  Owns m = (w : ℕ) → m.pool.phase w ≢ finished → is_some (m.handles w) ≡ has_handle w

  -- The machine behind a fetch.
  abbrev pub served :
      (m : Machine c.Handle) (w i : ℕ) (r : Record) (after : c.Handle) → Machine c.Handle
  served m w i r after = record {
    pool = write_slot w i r m.pool;
    handles = update_handle m.handles w (some after);
  }

  pub served-Owns :
      (m : Machine c.Handle) (w i : ℕ) (r : Record) (after : c.Handle)
      → has_handle w ≡ true
      → Owns m
      → Owns (served m w i r after)
  served-Owns m w i r after got owns v busy = elim (ℕ_discrete w v) [
    | yes e ↦ ground (arith, ap has_handle e)
    | no other ↦ ground (arith, owns v)
  ]

  -- The pool behind a fetch is one turn of `Run` away, under a table with the record that it brought.
  pub turn-served :
      (m : Machine c.Handle) (w i : ℕ) (r : Record) (after : c.Handle) (table : Table)
      → m.pool.phase w ≡ holding i
      → has_handle w ≡ true
      → turn (table_fetches has_handle (replaced table i r)) targets m.pool w
        ≡ (served m w i r after).pool
  unfolding turn worker_step slot_record
  turn-served m w i r after table e got =
      rw (e, worker_step, got, replaced_here table i w r (get_or targets i [])) refl

  claimed-Owns :
      (m : Machine c.Handle) (w : ℕ)
      → m.pool.phase w ≡ ready
      → Owns m
      → Owns (record {
        pool = claim targets w m.pool;
        handles =
            if ltb m.pool.next_index (length targets)
            then m.handles
            else update_handle m.handles w none;
      })
  claimed-Owns m w e owns v busy = elim (Bool-cases (ltb m.pool.next_index (length targets))) [
    | inl more ↦ rw more (elim (ℕ_discrete w v) [
      | yes same ↦ owns v (λ f. cc (e, f, ap m.pool.phase same))
      | no other ↦ owns v (λ f. busy (ground (arith, f)))
    ])
    | inr last ↦ rw last (elim (ℕ_discrete w v) [
      | yes same ↦ absurd (busy (ground (arith, last)))
      | no other ↦ ground (arith, owns v (λ f. busy (ground (arith, f))))
    ])
  ]

  pub step_ready :
      (m : Machine c.Handle) (w : ℕ)
      → m.pool.phase w ≡ ready
      → Owns m
      → (m' : Machine c.Handle) × (thread_step c setup targets w m (m.pool.phase w) ≡ some m')
        × ((table : Table) → m'.pool ≡ turn (table_fetches has_handle table) targets m.pool w)
        × Owns m'
  unfolding thread_step turn worker_step
  step_ready m w e owns = (
    record {
      pool = claim targets w m.pool;
      handles =
          if ltb m.pool.next_index (length targets)
          then m.handles
          else update_handle m.handles w none;
    },
    rw (e, thread_step) refl,
    λ table. rw (e, worker_step) refl,
    λ v busy. claimed-Owns m w e owns v busy,
  )

  pub step_without :
      (m : Machine c.Handle) (w i : ℕ)
      → m.pool.phase w ≡ holding i
      → m.handles w ≡ none
      → has_handle w ≡ false
      → Owns m
      → (m' : Machine c.Handle) × (thread_step c setup targets w m (m.pool.phase w) ≡ some m')
        × ((table : Table) → m'.pool ≡ turn (table_fetches has_handle table) targets m.pool w)
        × Owns m'
  unfolding thread_step serve turn worker_step slot_record
  step_without m w i e no_handle lacks owns = (
    record m {
      pool =
          write_slot w i
            (no_handle_record (get_or m.pool.results i empty_record) (get_or targets i [])) m.pool;
    },
    rw (e, thread_step, no_handle, serve) refl,
    λ table. rw (e, worker_step, lacks) refl,
    λ v busy. elim (ℕ_discrete w v) [
      | yes same ↦ owns v (λ f. cc (e, f, ap m.pool.phase same))
      | no other ↦ owns v (λ f. busy (ground (arith, f)))
    ],
  )

  pub thread_step-served :
      (m : Machine c.Handle) (w i : ℕ) (handle : c.Handle) (r : Record) (after : c.Handle)
      → m.pool.phase w ≡ holding i
      → m.handles w ≡ some handle
      → fetch_and_process c
          (setup.memory w i)
          (setup.begins w i)
          (setup.ends w i)
          handle
          setup.base_url
          (get_or targets i [])
          setup.timeout
        ≡ some (r, after)
      → thread_step c setup targets w m (m.pool.phase w) ≡ some (served m w i r after)
  unfolding thread_step serve
  thread_step-served m w i handle r after e held fetched =
      rw (e, thread_step, held, serve, fetched) refl
