-- ===== src/Run/Invariant.antt =====
-- Which thread has which index, and what stands in the slots; true at the start and kept by every
-- step of every schedule.
use native.Mathlib.Decide.{ℕ_discrete, dec_lt}
use polyfetch.Base.{
  ℕ, zero, suc, ◌+◌, ◌^◌, ◌≤◌, ◌<◌, ◌≡◌, ◌≢◌, refl, ◌∙◌, ap, arith, ◌⊎◌, inl, inr, false, List, [],
  ◌∷◌, foldl, length, get_or, set, replicate, ltb, lt→ltb, Bytes, u64, length-set, get_or-set_self,
  get_or-set_ne, length-replicate,
}
use polyfetch.Fetch.{Record}
use polyfetch.Run.Phases.{phase_total, phase_total-update, phase_total-le}
use polyfetch.Run.{
  Phase, ready, holding, finished, Pool, empty_record, Fetches, slot_record, update_phase,
  worker_step, turn, start, run_schedule,
}

-- How many of the first `k` threads are behind their loop.
abbrev pub finished_one : Phase → ℕ
finished_one ready = 0
finished_one (holding i) = 0
finished_one finished = 1

abbrev pub finished_count : ℕ → (ℕ → Phase) → ℕ
finished_count = phase_total finished_one

pub finished_count-le : (k : ℕ) (phase : ℕ → Phase) → finished_count k phase ≤ k
finished_count-le = phase_total-le finished_one (λ p. ground arith)

-- The record that a thread `w` leaves in an empty slot.
abbrev pub own_record : Fetches → List Bytes → ℕ → ℕ → Record
own_record env targets w i = slot_record env targets w i empty_record

-- An index below the counter is in the hands of a thread, or its slot has been written by one.
abbrev pub IsHandled : Fetches → List Bytes → ℕ → Pool → ℕ → Type 0
IsHandled env targets k s i =
    ((w : ℕ) × (s.phase w ≡ holding i))
    ⊎ ((w : ℕ) × (w < k) × (get_or s.results i empty_record ≡ own_record env targets w i))

pub record Inv (env : Fetches) (targets : List Bytes) (k : ℕ) (s : Pool) : Type 0 where
  pub few : length targets + k < 2 ^ 64
  pub size : length s.results ≡ length targets
  pub counted : s.next_index ≤ length targets + finished_count k s.phase
  pub idle : (w : ℕ) → k ≤ w → s.phase w ≡ finished
  pub drained : (w : ℕ) → w < k → s.phase w ≡ finished → length targets ≤ s.next_index
  pub taken : (w i : ℕ) → s.phase w ≡ holding i → (i < length targets) × (i < s.next_index)
  pub unique : (v w i : ℕ) → s.phase v ≡ holding i → s.phase w ≡ holding i → v ≡ w
  pub untouched : (w i : ℕ) → s.phase w ≡ holding i → get_or s.results i empty_record ≡ empty_record
  pub unread : (i : ℕ) → s.next_index ≤ i → get_or s.results i empty_record ≡ empty_record
  pub handled : (i : ℕ) → i < length targets → i < s.next_index → IsHandled env targets k s i

get_or-replicate : (n i : ℕ) (r : Record) → get_or (replicate n r) i r ≡ r
get_or-replicate zero i r = refl
get_or-replicate (suc n) zero r = refl
get_or-replicate (suc n) (suc i) r = get_or-replicate n i r

module _ (env : Fetches) (targets : List Bytes) (k : ℕ) where
  pub start-Inv : length targets + k < 2 ^ 64 → Inv env targets k (start k targets)
  unfolding start
  start-Inv few = record {
    few = few;
    size = length-replicate (length targets) empty_record;
    counted = omega arith;
    idle = λ w h. ground arith;
    drained = λ w h e. ground arith;
    taken = λ w i e. ground arith;
    unique = λ v w i e f. ground arith;
    untouched = λ w i e. get_or-replicate (length targets) i empty_record;
    unread = λ i h. get_or-replicate (length targets) i empty_record;
    handled = λ i h lt. absurd (omega arith);
  }

  module _ (s : Pool) (w : ℕ) where
    pub claim_eq :
        s.next_index < length targets
        → worker_step env targets w s ready ≡ record s {
          next_index = u64 (s.next_index + 1);
          phase = update_phase s.phase w (holding s.next_index);
        }
    unfolding worker_step
    claim_eq lt = rw (lt→ltb s.next_index (length targets) lt)

    pub leave_eq :
        length targets ≤ s.next_index
        → worker_step env targets w s ready ≡ record s {
          next_index = u64 (s.next_index + 1);
          phase = update_phase s.phase w finished;
        }
    unfolding worker_step
    leave_eq le =
        let no_index : ltb s.next_index (length targets) ≡ false = ground arith in rw no_index

  module _ {s : Pool} (inv : Inv env targets k s) (w : ℕ) where
    open inv use {few, size, counted, idle, drained, taken, unique, untouched, unread, handled}

    -- Only a thread that was started is not behind its loop.
    started : s.phase w ≢ finished → w < k
    started h = elim (dec_lt w k) [ yes lt ↦ lt | no out ↦ absurd (h (idle w (omega arith))) ]

    -- While a thread is not behind its loop, not all are.
    room : w < k → s.phase w ≢ finished → finished_count k s.phase + 1 ≤ k
    room lt h = ground (
      arith,
      phase_total-update finished_one k s.phase w finished lt,
      finished_count-le k (update_phase s.phase w finished),
    )

    -- The counter does not wrap around.
    pub next_index_no_wrap :
        w < k → s.phase w ≢ finished → u64 (s.next_index + 1) ≡ s.next_index + 1
    next_index_no_wrap lt h = omega (arith, counted, room lt h, few)

    -- A thread that reads the counter below the number of targets.
    claim-Inv :
        s.phase w ≡ ready
        → s.next_index < length targets
        → Inv env targets k (record s {
          next_index = u64 (s.next_index + 1);
          phase = update_phase s.phase w (holding s.next_index);
        })
    claim-Inv e lt = record {
      few = few;
      size = size;
      counted = ground (
        arith,
        phase_total-update finished_one k s.phase w (holding s.next_index)
            (started (λ q. cc (q, e))),
      );
      idle = λ v h. ground (arith, idle v h, idle w);
      drained = λ v h f. ground (arith, drained v h);
      taken = λ v i f. ground (arith, taken v i);
      unique = λ u v i f g. ground (arith, unique u v i, taken u i, taken v i);
      untouched = λ v i f. ground (arith, untouched v i, unread i);
      unread = λ i h. unread i (omega arith);
      handled = λ i h lt'. elim (dec_lt i s.next_index) [
        | yes old ↦ elim (handled i h old) [
          | inl (v, f) ↦ inl (v, ground arith)
          | inr done ↦ inr done
        ]
        | no new ↦ inl (w, ground arith)
      ];
    }

    -- A thread that finds no index left.
    leave-Inv :
        s.phase w ≡ ready
        → length targets ≤ s.next_index
        → Inv env targets k (record s {
          next_index = u64 (s.next_index + 1);
          phase = update_phase s.phase w finished;
        })
    leave-Inv e le = record {
      few = few;
      size = size;
      counted =
          ground (
            arith,
            phase_total-update finished_one k s.phase w finished (started (λ q. cc (q, e))),
          );
      idle = λ v h. ground (arith, idle v h);
      drained = λ v h f. ground (arith, no_wrap);
      taken = λ v i f. ground (arith, no_wrap, taken v i);
      unique = λ u v i f g. ground (arith, unique u v i);
      untouched = λ v i f. ground (arith, untouched v i);
      unread = λ i h. unread i (omega (arith, no_wrap));
      handled = λ i h lt. elim (handled i h (omega arith)) [
        | inl (v, f) ↦ inl (v, ground arith)
        | inr done ↦ inr done
      ];
    }
      where
        no_wrap : u64 (s.next_index + 1) ≡ s.next_index + 1
        no_wrap = next_index_no_wrap (started (λ q. cc (q, e))) (λ q. cc (q, e))

    -- A thread that writes its slot.
    store-Inv :
        (i : ℕ)
        → s.phase w ≡ holding i
        → Inv env targets k (record s {
          results = set s.results i (slot_record env targets w i (get_or s.results i empty_record));
          phase = update_phase s.phase w ready;
        })
    store-Inv i e = record {
      few = few;
      size = length-set s.results i written ∙ size;
      counted =
          ground
            (arith, phase_total-update finished_one k s.phase w ready (started (λ q. cc (q, e))));
      idle = λ v h. ground (arith, idle v h, idle w);
      drained = λ v h f. ground (arith, drained v h);
      taken = λ v j f. ground (arith, taken v j);
      unique = λ u v j f g. ground (arith, unique u v j);
      untouched = λ v j f.
          ground
            (arith, untouched v j, unique v w i, get_or-set_ne s.results i j written empty_record);
      unread = λ j h.
          ground (arith, unread j h, taken w i e, get_or-set_ne s.results i j written empty_record);
      handled = λ j h lt. elim (ℕ_discrete i j) [
        | yes same ↦ inr (
          w,
          started (λ q. cc (q, e)),
          rw (← same) (
              get_or-set_self s.results i written empty_record (omega (arith, taken w i e, size))
              ∙ ap (slot_record env targets w i) (untouched w i e)),
        )
        | no other ↦ elim (handled j h lt) [
          | inl (v, f) ↦ inl (v, ground arith)
          | inr (v, v_lt, done) ↦
              inr (v, v_lt, get_or-set_ne s.results i j written empty_record other ∙ done)
        ]
      ];
    }
      where
        written : Record
        written = slot_record env targets w i (get_or s.results i empty_record)

    -- A step of any thread, from any state of the pool in which the invariant holds, keeps it: indices
    -- in hand are valid and different, slots not yet written are empty, every index below the counter
    -- is in hand or its slot holds the record of a thread, and the counter stays in bounds.
    pub turn-Inv : Inv env targets k (turn env targets s w)
    unfolding turn
    turn-Inv = by_phase (s.phase w) refl
      where
        by_phase : (p : Phase) → s.phase w ≡ p → Inv env targets k (worker_step env targets w s p)
        by_phase ready e = elim (dec_lt s.next_index (length targets)) [
          | yes lt ↦ rw (claim_eq s w lt) (claim-Inv e lt)
          | no out ↦ rw (leave_eq s w (omega arith)) (leave-Inv e (omega arith))
        ]
        by_phase (holding i) e = unfold worker_step in store-Inv i e
        by_phase finished e = unfold worker_step in inv

  pub run_schedule-Inv :
      length targets + k < 2 ^ 64
      → (schedule : List ℕ) → Inv env targets k (run_schedule env targets k schedule)
  unfolding run_schedule
  run_schedule-Inv few schedule = go schedule (start-Inv few)
    where
      go :
          (schedule : List ℕ) {s : Pool}
          → Inv env targets k s
          → Inv env targets k (foldl (turn env targets) s schedule)
      go [] inv = inv
      go (w ∷ ws) inv = go ws (turn-Inv inv w)
