-- ===== src/Threads/Simulate.antt =====
-- The threads with their handles make the steps of the pool: what their fetches bring becomes a table of
-- records, one for each thread and index.
use native.Mathlib.Decide.{ℕ_discrete}
use polyfetch.Base.{
  ℕ, ◌+◌, ◌^◌, ◌<◌, ◌≡◌, refl, sym, ◌∙◌, ap, arith, inl, inr, true, List, [], ◌∷◌, Option, none,
  some, length, get_or, ltb, Bytes, Bool-cases,
}
use polyfetch.Fetch.{Record, Curl, fetch_and_process}
use polyfetch.Run.{
  Phase, ready, holding, finished, Pool, empty_record, no_handle_record, Fetches, worker_step, turn,
  start, run_schedule,
}
use polyfetch.Run.Progress.{steps}
use polyfetch.Threads.{Setup, Machine, thread_step, thread_steps, start_threads}
use polyfetch.Threads.Fetched.{
  is_some, Table, table_fetches, blank_table, replaced, replaced_here, replaced_other, Shape,
  start-Shape, turn-Shape, Shape-taken, Shape-unique, Served, steps-Served,
}
use polyfetch.Threads.Step.{
  has_handle, Owns, served, served-Owns, turn-served, step_ready, step_without, thread_step-served,
}

-- Each fetch has a result, and `P` holds of the record that it brings for an index; `P` holds of the
-- record of a thread without a handle as well, and of some record for each index.
pub record AreGood (c : Curl) (setup : Setup c.Handle) (targets : List Bytes)
    (P : ℕ → Record → Type 0) : Type 0 where
  pub fetches :
      (w i : ℕ) (handle : c.Handle)
      → (r : Record) × ((after : c.Handle) × (fetch_and_process c
              (setup.memory w i)
              (setup.begins w i)
              (setup.ends w i)
              handle
              setup.base_url
              (get_or targets i [])
              setup.timeout
            ≡ some (r, after))
          × P i r)
  pub without :
      (w i : ℕ)
      → setup.easy_init w ≡ none
      → P i (no_handle_record empty_record (get_or targets i []))
  pub spare : ℕ → Record
  pub spare_good : (i : ℕ) → P i (spare i)

module _ (c : Curl) (setup : Setup c.Handle) (targets : List Bytes) (P : ℕ → Record → Type 0)
    (good : AreGood c setup targets P) (k : ℕ) where
  abbrev IsGoodTable : Table → Type 0
  IsGoodTable table = (w i : ℕ) → P i (table w i (get_or targets i []))

  blank-IsGoodTable : IsGoodTable (blank_table good.spare)
  blank-IsGoodTable w i = good.spare_good i

  -- The rest of a schedule, as the machine and as the pool see it.
  record Simulated (m : Machine c.Handle) (ws : List ℕ) : Type 0 where
    machine : Machine c.Handle
    table : Table
    ran : thread_steps c setup targets m ws ≡ some machine
    is_good : IsGoodTable table
    same :
        machine.pool ≡ steps (table_fetches (has_handle c setup targets) table) targets k m.pool ws

  Simulated-nil : (m : Machine c.Handle) → Simulated m []
  Simulated-nil m = record {
    machine = m;
    table = (blank_table good.spare);
    ran = unfold thread_steps in refl;
    is_good = blank-IsGoodTable;
    same = refl;
  }

  -- A step after which every table goes on as it is.
  Simulated-same :
      (m m' : Machine c.Handle) (w : ℕ) (ws : List ℕ)
      → thread_step c setup targets w m (m.pool.phase w) ≡ some m'
      → ((table : Table)
          → m'.pool ≡ turn (table_fetches (has_handle c setup targets) table) targets m.pool w)
      → Simulated m' ws
      → Simulated m (w ∷ ws)
  Simulated-same m m' w ws stepped same_pool sim = record {
    machine = sim.machine;
    table = sim.table;
    ran = unfold thread_steps in rw stepped sim.ran;
    is_good = sim.is_good;
    same =
        sim.same
        ∙ ap
            (λ (p : Pool).
              steps (table_fetches (has_handle c setup targets) sim.table) targets k p ws)
            (same_pool sim.table);
  }

  replaced-IsGoodTable :
      (table : Table) (i : ℕ) (r : Record)
      → IsGoodTable table
      → P i r
      → IsGoodTable (replaced table i r)
  replaced-IsGoodTable table i r h p v j = elim (ℕ_discrete j i) [
    | yes e ↦ rw (e, replaced_here table i v r (get_or targets i [])) p
    | no other ↦ rw (replaced_other table i v j r (get_or targets j []) other) (h v j)
  ]

  abbrev any_fetches : Fetches
  any_fetches = table_fetches (has_handle c setup targets) (blank_table good.spare)

  served-Served :
      (m : Machine c.Handle) (w i : ℕ) (r : Record) (after : c.Handle)
      → Shape any_fetches targets k m.pool
      → m.pool.phase w ≡ holding i
      → Served i (served c setup targets m w i r after).pool
  served-Served m w i r after shape e = record {
    given = Shape-taken any_fetches targets k shape w i e;
    free = λ v. elim (ℕ_discrete w v) [
      | yes same ↦ ground arith
      | no other ↦ ground (
        arith,
        λ (f : m.pool.phase v ≡ holding i).
            other (Shape-unique any_fetches targets k shape w v i e f),
      )
    ];
  }

  Simulated-served :
      (m : Machine c.Handle) (w i : ℕ) (r : Record) (after : c.Handle) (ws : List ℕ)
      → Shape any_fetches targets k m.pool
      → m.pool.phase w ≡ holding i
      → has_handle c setup targets w ≡ true
      → thread_step c setup targets w m (m.pool.phase w)
        ≡ some (served c setup targets m w i r after)
      → P i r
      → Simulated (served c setup targets m w i r after) ws
      → Simulated m (w ∷ ws)
  Simulated-served m w i r after ws shape e got stepped p sim = record {
    machine = sim.machine;
    table = replaced sim.table i r;
    ran = unfold thread_steps in rw stepped sim.ran;
    is_good = replaced-IsGoodTable sim.table i r sim.is_good p;
    same =
        sim.same
        ∙ steps-Served any_fetches targets k (has_handle c setup targets) sim.table
            (replaced sim.table i r) i
            (λ v j t other. sym (replaced_other sim.table i v j r t other)) ws
            (rw (← turn-served c setup targets m w i r after (blank_table good.spare) e got) (
              turn-Shape any_fetches targets k
                (table_fetches (has_handle c setup targets) (replaced (blank_table good.spare) i r))
                shape w))
            (served-Served m w i r after shape e)
        ∙ ap
            (λ (q : Pool).
              steps (table_fetches (has_handle c setup targets) (replaced sim.table i r)) targets k
                q ws)
            (sym (turn-served c setup targets m w i r after sim.table e got));
  }

  simulate :
      (ws : List ℕ) (m : Machine c.Handle)
      → Shape any_fetches targets k m.pool
      → Owns c setup targets m
      → Simulated m ws
  simulate [] m shape owns = Simulated-nil m
  simulate (w ∷ ws) m shape owns =
      by_phase (m.pool.phase w) refl (λ m' shape' owns'. simulate ws m' shape' owns')
    where
      Rest : Type 0
      Rest =
          (m' : Machine c.Handle)
          → Shape any_fetches targets k m'.pool
          → Owns c setup targets m'
          → Simulated m' ws

      go_on :
          (m' : Machine c.Handle)
          → thread_step c setup targets w m (m.pool.phase w) ≡ some m'
          → ((table : Table)
              → m'.pool ≡ turn (table_fetches (has_handle c setup targets) table) targets m.pool w)
          → Owns c setup targets m'
          → Rest
          → Simulated m (w ∷ ws)
      go_on m' stepped same owns' rest = Simulated-same m m' w ws stepped same (
          rest m'
            (rw (same (blank_table good.spare))
              (turn-Shape any_fetches targets k any_fetches shape w))
            owns')

      by_handle :
          (i : ℕ)
          → m.pool.phase w ≡ holding i
          → is_some (m.handles w) ≡ has_handle c setup targets w
          → (h : Option c.Handle) → m.handles w ≡ h
          → Rest
          → Simulated m (w ∷ ws)
      by_handle i e same none held rest =
          let (m', stepped, same_pool, owns') =
            step_without c setup targets m w i e held (sym same ∙ ap is_some held) owns in
          go_on m' stepped same_pool owns' rest
      by_handle i e same (some handle) held rest =
          let (r, (after, fetched, p)) = good.fetches w i handle in
          let got : has_handle c setup targets w ≡ true = sym same ∙ ap is_some held in
          Simulated-served m w i r after ws shape e got
            (thread_step-served c setup targets m w i handle r after e held fetched) p
            (rest (served c setup targets m w i r after)
              (rw (← turn-served c setup targets m w i r after (blank_table good.spare) e got) (
                turn-Shape any_fetches targets k
                  (table_fetches (has_handle c setup targets)
                    (replaced (blank_table good.spare) i r))
                  shape w))
              (served-Owns c setup targets m w i r after got owns))

      by_phase : (p : Phase) → m.pool.phase w ≡ p → Rest → Simulated m (w ∷ ws)
      by_phase ready e rest =
          let (m', stepped, same_pool, owns') = step_ready c setup targets m w e owns in
          go_on m' stepped same_pool owns' rest
      by_phase (holding i) e rest = by_handle i e (owns w (λ f. cc (e, f))) (m.handles w) refl rest
      by_phase finished e rest =
          go_on m (unfold thread_step in rw (e, thread_step) refl)
            (λ table. unfold turn worker_step in rw (e, worker_step) refl) owns rest

  started-Owns : Owns c setup targets (start_threads c setup targets k)
  unfolding start_threads start
  started-Owns w busy = elim (Bool-cases (ltb w k)) [
    | inl started ↦ rw started refl
    | inr outside ↦ absurd (busy (rw outside refl))
  ]

  pub thread_steps_refine :
      (schedule : List ℕ)
      → length targets + k < 2 ^ 64
      → (machine : Machine c.Handle) × ((table : Table) × (thread_steps c setup targets
              (start_threads c setup targets k)
              schedule
            ≡ some machine)
          × IsGoodTable table
          × (machine.pool
              ≡ run_schedule (table_fetches (has_handle c setup targets) table) targets k schedule))
  unfolding run_schedule start_threads
  thread_steps_refine schedule few =
      let sim =
        simulate schedule (start_threads c setup targets k) (start-Shape any_fetches targets k few)
          started-Owns in
      (sim.machine, (sim.table, sim.ran, sim.is_good, sim.same))
