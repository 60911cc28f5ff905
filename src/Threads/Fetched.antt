-- ===== src/Threads/Fetched.antt =====
-- What the threads fetch, as a table for `Run`: an entry matters only until its index is served.
use native.Mathlib.Decide.{ℕ_discrete, dec_lt}
use mathlib.Core.Logic.{ite}
use polyfetch.Base.{
  ℕ, ◌+◌, ◌^◌, ◌≤◌, ◌<◌, ◌≡◌, ◌≢◌, refl, sym, ◌∙◌, ap, arith, Bool, true, false, List, [], ◌∷◌,
  Option, none, some, length, get_or, Bytes, u64,
}
use polyfetch.Fetch.{Record}
use polyfetch.Run.{
  Phase, ready, holding, finished, Pool, Fetches, slot_record, worker_step, turn, start,
}
use polyfetch.Run.Invariant.{Inv, start-Inv, turn-Inv, next_index_no_wrap}
use polyfetch.Run.Progress.{steps}

abbrev pub is_some {ℓ} : {A : Type ℓ} → Option A → Bool
is_some none = false
is_some (some a) = true

abbrev pub Table : Type 0
Table = (w i : ℕ) → Bytes → Record

abbrev pub table_fetches : (ℕ → Bool) → Table → Fetches
table_fetches has_handle table = record { has_handle = has_handle; fetched = table }

-- Phases and counter do not depend on what is fetched.
step_same :
    (env env' : Fetches) (targets : List Bytes) (w : ℕ) (s s' : Pool) (p : Phase)
    → s.phase ≡ s'.phase
    → s.next_index ≡ s'.next_index
    → ((worker_step env targets w s p).phase ≡ (worker_step env' targets w s' p).phase)
      × ((worker_step env targets w s p).next_index ≡ (worker_step env' targets w s' p).next_index)
unfolding worker_step
step_same env env' targets w s s' ready e f = (rw (e, f) refl, rw f refl)
step_same env env' targets w s s' (holding i) e f = (rw e refl, f)
step_same env env' targets w s s' finished e f = (e, f)

module _ (env : Fetches) (targets : List Bytes) (k : ℕ) where
  -- Phases and counter are those of a pool with the invariant.
  pub record Shape (s : Pool) : Type 0 where
    pub twin : Pool
    pub inv : Inv env targets k twin
    pub same_phase : twin.phase ≡ s.phase
    pub same_index : twin.next_index ≡ s.next_index

  pub start-Shape : length targets + k < 2 ^ 64 → Shape (start k targets)
  start-Shape few = record {
    twin = start k targets;
    inv = start-Inv env targets k few;
    same_phase = refl;
    same_index = refl;
  }

  pub turn-Shape : (env' : Fetches) {s : Pool} → Shape s → (w : ℕ) → Shape (turn env' targets s w)
  unfolding turn
  turn-Shape env' {s} shape w = record {
    twin = turn env targets shape.twin w;
    inv = turn-Inv env targets k shape.inv w;
    same_phase = ap (λ p. (worker_step env targets w shape.twin p).phase) here ∙ same.0;
    same_index = ap (λ p. (worker_step env targets w shape.twin p).next_index) here ∙ same.1;
  }
    where
      here : shape.twin.phase w ≡ s.phase w
      here = ap (λ (f : ℕ → Phase). f w) shape.same_phase

      same :
          ((worker_step env targets w shape.twin (s.phase w)).phase
            ≡ (worker_step env' targets w s (s.phase w)).phase)
          × ((worker_step env targets w shape.twin (s.phase w)).next_index
              ≡ (worker_step env' targets w s (s.phase w)).next_index)
      same = step_same env env' targets w shape.twin s (s.phase w) shape.same_phase shape.same_index

  module _ {s : Pool} (shape : Shape s) where
    at_twin : (w : ℕ) → shape.twin.phase w ≡ s.phase w
    at_twin w = ap (λ (f : ℕ → Phase). f w) shape.same_phase

    pub Shape-idle : (w : ℕ) → k ≤ w → s.phase w ≡ finished
    Shape-idle w h = sym (at_twin w) ∙ shape.inv.idle w h

    pub Shape-taken : (w i : ℕ) → s.phase w ≡ holding i → i < s.next_index
    Shape-taken w i e = rw (← shape.same_index) (shape.inv.taken w i (at_twin w ∙ e)).1

    pub Shape-unique : (v w i : ℕ) → s.phase v ≡ holding i → s.phase w ≡ holding i → v ≡ w
    Shape-unique v w i e f = shape.inv.unique v w i (at_twin v ∙ e) (at_twin w ∙ f)

    pub Shape-no_wrap :
        (w : ℕ) → w < k → s.phase w ≢ finished → u64 (s.next_index + 1) ≡ s.next_index + 1
    Shape-no_wrap w lt busy =
        rw (← shape.same_index)
          (next_index_no_wrap env targets k shape.inv w lt (λ e. busy (sym (at_twin w) ∙ e)))

-- Index `i` has been given out, and no thread has it.
pub record Served (i : ℕ) (s : Pool) : Type 0 where
  pub given : i < s.next_index
  pub free : (w : ℕ) → s.phase w ≢ holding i

module _ (env : Fetches) (targets : List Bytes) (k : ℕ) (has_handle : ℕ → Bool)
    (table table' : Table) (i : ℕ)
    (agree : (w j : ℕ) (t : Bytes) → j ≢ i → table w j t ≡ table' w j t) where
  step-Served :
      {s : Pool} (w : ℕ) (p : Phase)
      → s.phase w ≡ p
      → Shape env targets k s
      → Served i s
      → (worker_step (table_fetches has_handle table) targets w s p
          ≡ worker_step (table_fetches has_handle table') targets w s p)
        × Served i (worker_step (table_fetches has_handle table) targets w s p)
  unfolding worker_step slot_record
  step-Served {s} w ready e shape served = elim (dec_lt w k) [
    | no out ↦ absurd (cc (Shape-idle env targets k shape w (omega arith), e))
    | yes lt ↦
        let no_wrap : u64 (s.next_index + 1) ≡ s.next_index + 1 =
          Shape-no_wrap env targets k shape w lt (λ f. cc (e, f)) in
        (
          refl,
          record {
            given = omega (arith, served.given, no_wrap);
            free = λ v. ground (arith, served.free v, served.given);
          },
        )
  ]
  step-Served {s} w (holding j) e shape served =
      let other : j ≢ i = λ f. served.free w (e ∙ ap holding f) in
      (
        rw (agree w j (get_or targets j []) other) refl,
        record { given = served.given; free = λ v. ground (arith, served.free v) },
      )
  step-Served {s} w finished e shape served = (refl, served)

  -- From a state in which `i` is served, the entries for `i` do not matter.
  pub steps-Served :
      (ws : List ℕ) {s : Pool}
      → Shape env targets k s
      → Served i s
      → steps (table_fetches has_handle table) targets k s ws
        ≡ steps (table_fetches has_handle table') targets k s ws
  steps-Served [] shape served = refl
  steps-Served (w ∷ ws) {s} shape served =
      let (same, next) = step-Served {s = s} w (s.phase w) refl shape served in
      steps-Served ws {s = turn (table_fetches has_handle table) targets s w}
        (turn-Shape env targets k (table_fetches has_handle table) shape w) (unfold turn in next)
      ∙ ap (λ (p : Pool). steps (table_fetches has_handle table') targets k p ws)
          (unfold turn in same)

-- One record for each index, whatever the thread and the target.
abbrev pub blank_table : (ℕ → Record) → Table
blank_table spare w i t = spare i

-- The entries for `i`, replaced.
pub replaced : Table → ℕ → Record → Table
replaced table i r v j t = ite (ℕ_discrete j i) r (table v j t)

pub replaced_here :
    (table : Table) (i v : ℕ) (r : Record) (t : Bytes) → replaced table i r v i t ≡ r
unfolding replaced
replaced_here table i v r t = ground arith

pub replaced_other :
    (table : Table) (i v j : ℕ) (r : Record) (t : Bytes)
    → j ≢ i
    → replaced table i r v j t ≡ table v j t
unfolding replaced
replaced_other table i v j r t ne = ground arith
