-- ===== src/Go/Invariant.antt =====
-- Where each target is while the goroutines run.
use mathlib.Core.List.{Perm, perm_middle}
use polyfetch.Base.{
  ◌≤◌, ◌≡◌, ◌≢◌, refl, sym, ◌∙◌, ap, subst, arith, true, false, List, [], ◌∷◌, ◌++◌, append-nil,
  append_assoc, map, length, Bytes, All, length-append,
}
use polyfetch.Fetch.{Record}
use polyfetch.Go.Pool.{Worker, idle, done, fetching, sending, IsDone, Channels}

-- The targets that a worker has, and those of all workers.
abbrev pub held_one : Worker → List Bytes
held_one idle = []
held_one done = []
held_one (fetching t) = t ∷ []
held_one (sending r) = r.target ∷ []

abbrev pub held : List Worker → List Bytes
held [] = []
held (w ∷ ws) = held_one w ++ held ws

abbrev pub collected : List Record → List Bytes
collected rs = map (λ (r : Record). r.target) rs

pub held-append : (front back : List Worker) → held (front ++ back) ≡ held front ++ held back
held-append [] back = refl
held-append (w ∷ front) back =
    ap (λ l. held_one w ++ l) (held-append front back)
    ∙ sym (append_assoc (held_one w) (held front) (held back))

pub collected-append : (rs ss : List Record) → collected (rs ++ ss) ≡ collected rs ++ collected ss
collected-append [] ss = refl
collected-append (r ∷ rs) ss = ap (λ l. r.target ∷ l) (collected-append rs ss)

-- Every target of a state: not yet sent, in a worker, or collected.
abbrev pub everywhere : Channels → List Bytes
everywhere s = s.feed ++ (held s.workers ++ collected s.records)

-- A target in the middle may stand in front, or at the end.
pub middle_first :
    {A : Type 0} (f h g r : List A) (x : A)
    → Perm (f ++ ((h ++ x ∷ g) ++ r)) (x ∷ (f ++ ((h ++ g) ++ r)))
middle_first f h g r x =
    subst (λ l. Perm l (x ∷ (f ++ ((h ++ g) ++ r)))) (simp append_assoc)
      (subst (λ l. Perm ((f ++ h) ++ x ∷ (g ++ r)) (x ∷ l)) (simp append_assoc)
        (perm_middle (f ++ h) (g ++ r)))

pub last_first : {A : Type 0} (l : List A) (x : A) → Perm (l ++ x ∷ []) (x ∷ l)
last_first l x = subst (λ m. Perm (l ++ x ∷ []) (x ∷ m)) (append-nil l) (perm_middle l [])

module _ (Fetched : Bytes → Record → Type 0) where
  abbrev pub IsFetched : Record → Type 0
  IsFetched r = Fetched r.target r

  -- What a worker has is what a fetch brought.
  abbrev pub IsGood : Worker → Type 0
  IsGood idle = Unit
  IsGood done = Unit
  IsGood (fetching t) = Unit
  IsGood (sending r) = IsFetched r

  abbrev pub IsBusy : Worker → Type 0
  IsBusy w = w ≢ done

  pub record Inv (targets : List Bytes) (s : Channels) : Type 0 where
    pub all : Perm (everywhere s) targets
    pub good : All IsGood s.workers
    pub fetched : All IsFetched s.records
    pub some_worker : 1 ≤ length s.workers
    pub fed : s.jobs_closed ≡ true → s.feed ≡ []
    pub at_work : s.jobs_closed ≡ false → All IsBusy s.workers
    pub ended : s.results_closed ≡ true → All IsDone s.workers

  pub All-split :
      (P : Worker → Type 0) (front back : List Worker) (w : Worker)
      → All P (front ++ w ∷ back)
      → P w
  All-split P [] back w h = h.0
  All-split P (v ∷ front) back w h = All-split P front back w h.1

  pub All-replace :
      (P : Worker → Type 0) (front back : List Worker) (w v : Worker)
      → All P (front ++ w ∷ back)
      → P v
      → All P (front ++ v ∷ back)
  All-replace P [] back w v h p = (p, h.1)
  All-replace P (u ∷ front) back w v h p = (h.0, All-replace P front back w v h.1 p)

  pub length-replace :
      (front back : List Worker) (w v : Worker)
      → length (front ++ w ∷ back) ≡ length (front ++ v ∷ back)
  length-replace front back w v =
      length-append front (w ∷ back) ∙ sym (length-append front (v ∷ back))

  -- A worker that is not done goes from `w` to `v`, which is not done either.
  module _ {targets : List Bytes} {s : Channels} (inv : Inv targets s) (front back : List Worker)
      (w : Worker) (e : s.workers ≡ front ++ w ∷ back) (working : w ≢ done) where
    pub replaced-IsGood : (v : Worker) → IsGood v → All IsGood (front ++ v ∷ back)
    replaced-IsGood v p = All-replace IsGood front back w v (subst (All IsGood) e inv.good) p

    pub replaced_some : (v : Worker) → 1 ≤ length (front ++ v ∷ back)
    replaced_some v =
        omega (arith, inv.some_worker, ap (length {A = Worker}) e, length-replace front back w v)

    pub replaced-IsBusy :
        (v : Worker) → v ≢ done → s.jobs_closed ≡ false → All IsBusy (front ++ v ∷ back)
    replaced-IsBusy v p open_jobs =
        All-replace IsBusy front back w v (subst (All IsBusy) e (inv.at_work open_jobs)) p

    pub still_open : {A : Type 0} → s.results_closed ≡ true → A
    still_open closed =
        absurd (working (All-split IsDone front back w (subst (All IsDone) e (inv.ended closed))))
