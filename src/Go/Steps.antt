-- ===== src/Go/Steps.antt =====
-- Every step of the goroutines, and where it leaves the targets.
use mathlib.Core.List.{Perm}
use mathlib.Core.List.Perm
use polyfetch.Base.{
  ◌≡◌, refl, sym, ◌∙◌, subst, true, List, [], ◌∷◌, ◌++◌, append_assoc, Bytes, All, All-append,
}
use polyfetch.Fetch.{Record}
use polyfetch.Go.Pool.{
  Worker, idle, done, fetching, sending, IsDone, Channels, Step, take_job, fetch, deliver,
  close_jobs, leave, close_results,
}
use polyfetch.Go.Invariant.{
  held_one, held, collected, everywhere, held-append, collected-append, middle_first, last_first,
  IsFetched, IsGood, Inv, All-split, replaced-IsGood, replaced_some, replaced-IsBusy, still_open,
}

module _ (Fetched : Bytes → Record → Type 0) where
  everywhere_split :
      (s : Channels) (feed : List Bytes) (front back : List Worker) (w : Worker)
      → s.feed ≡ feed
      → s.workers ≡ front ++ w ∷ back
      → everywhere s ≡ feed ++ ((held front ++ (held_one w ++ held back)) ++ collected s.records)
  everywhere_split s feed front back w fed e = rw (fed, e, held-append front (w ∷ back)) refl

  take_job-Inv :
      {targets : List Bytes} (s : Channels) (front back : List Worker) (t : Bytes) (ts : List Bytes)
      → s.feed ≡ t ∷ ts
      → s.workers ≡ front ++ idle ∷ back
      → Inv Fetched targets s
      → Inv Fetched targets (record s { feed = ts; workers = front ++ fetching t ∷ back })
  take_job-Inv {targets} s front back t ts fed e inv = record {
    all = rw (held-append front (fetching t ∷ back)) (
        Perm.trans (middle_first ts (held front) (held back) (collected s.records) t) (
          subst (λ l. Perm l targets) (everywhere_split s (t ∷ ts) front back idle fed e) inv.all));
    good = replaced-IsGood Fetched inv front back idle e (λ f. cc f) (fetching t) tt;
    fetched = inv.fetched;
    some_worker = replaced_some Fetched inv front back idle e (λ f. cc f) (fetching t);
    fed = λ closed. absurd (cc (sym fed ∙ inv.fed closed));
    at_work = replaced-IsBusy Fetched inv front back idle e (λ f. cc f) (fetching t) (λ f. cc f);
    ended = still_open Fetched inv front back idle e (λ f. cc f);
  }

  fetch-Inv :
      ((t : Bytes) (r : Record) → Fetched t r → r.target ≡ t)
      → {targets : List Bytes} (s : Channels) (front back : List Worker) (t : Bytes) (r : Record)
      → Fetched t r
      → s.workers ≡ front ++ fetching t ∷ back
      → Inv Fetched targets s
      → Inv Fetched targets (record s { workers = front ++ sending r ∷ back })
  fetch-Inv names {targets} s front back t r got e inv = record {
    all =
        rw (held-append front (sending r ∷ back), names t r got)
          (subst (λ l. Perm l targets) (everywhere_split s s.feed front back (fetching t) refl e)
            inv.all);
    good =
        replaced-IsGood Fetched inv front back (fetching t) e (λ f. cc f) (sending r)
          (subst (λ t. Fetched t r) (sym (names t r got)) got);
    fetched = inv.fetched;
    some_worker = replaced_some Fetched inv front back (fetching t) e (λ f. cc f) (sending r);
    fed = inv.fed;
    at_work =
        replaced-IsBusy Fetched inv front back (fetching t) e (λ f. cc f) (sending r) (λ f. cc f);
    ended = still_open Fetched inv front back (fetching t) e (λ f. cc f);
  }

  deliver-Inv :
      {targets : List Bytes} (s : Channels) (front back : List Worker) (r : Record)
      → s.workers ≡ front ++ sending r ∷ back
      → Inv Fetched targets s
      → Inv Fetched targets
          (record s { workers = front ++ idle ∷ back; records = s.records ++ r ∷ [] })
  deliver-Inv {targets} s front back r e inv = record {
    all = Perm.trans moved was;
    good = replaced-IsGood Fetched inv front back (sending r) e (λ f. cc f) idle tt;
    fetched = All-append (IsFetched Fetched) s.records (r ∷ []) inv.fetched (
      All-split Fetched (IsGood Fetched) front back (sending r)
          (subst (All (IsGood Fetched)) e inv.good),
      tt,
    );
    some_worker = replaced_some Fetched inv front back (sending r) e (λ f. cc f) idle;
    fed = inv.fed;
    at_work = replaced-IsBusy Fetched inv front back (sending r) e (λ f. cc f) idle (λ f. cc f);
    ended = still_open Fetched inv front back (sending r) e (λ f. cc f);
  }
    where
      rest : List Bytes
      rest = s.feed ++ ((held front ++ held back) ++ collected s.records)

      was : Perm (r.target ∷ rest) targets
      was =
          Perm.trans
            (Perm.symm
              (middle_first s.feed (held front) (held back) (collected s.records) r.target))
            (subst (λ l. Perm l targets) (everywhere_split s s.feed front back (sending r) refl e)
              inv.all)

      moved :
          Perm
            (s.feed ++ (held (front ++ idle ∷ back) ++ collected (s.records ++ r ∷ [])))
            (r.target ∷ rest)
      moved =
          rw (held-append front (idle ∷ back), collected-append s.records (r ∷ []))
            (subst (λ l. Perm l (r.target ∷ rest)) (simp append_assoc) (last_first rest r.target))

  close_jobs-Inv :
      {targets : List Bytes} (s : Channels)
      → s.feed ≡ []
      → Inv Fetched targets s
      → Inv Fetched targets (record s { jobs_closed = true })
  close_jobs-Inv s fed inv = record {
    all = inv.all;
    good = inv.good;
    fetched = inv.fetched;
    some_worker = inv.some_worker;
    fed = λ closed. fed;
    at_work = λ e. cc e;
    ended = inv.ended;
  }

  leave-Inv :
      {targets : List Bytes} (s : Channels) (front back : List Worker)
      → s.jobs_closed ≡ true
      → s.workers ≡ front ++ idle ∷ back
      → Inv Fetched targets s
      → Inv Fetched targets (record s { workers = front ++ done ∷ back })
  leave-Inv {targets} s front back closed e inv = record {
    all =
        rw (held-append front (done ∷ back))
          (subst (λ l. Perm l targets) (everywhere_split s s.feed front back idle refl e) inv.all);
    good = replaced-IsGood Fetched inv front back idle e (λ f. cc f) done tt;
    fetched = inv.fetched;
    some_worker = replaced_some Fetched inv front back idle e (λ f. cc f) done;
    fed = inv.fed;
    at_work = λ open_jobs. cc (closed, open_jobs);
    ended = still_open Fetched inv front back idle e (λ f. cc f);
  }

  close_results-Inv :
      {targets : List Bytes} (s : Channels)
      → All IsDone s.workers
      → Inv Fetched targets s
      → Inv Fetched targets (record s { results_closed = true })
  close_results-Inv s all_done inv = record {
    all = inv.all;
    good = inv.good;
    fetched = inv.fetched;
    some_worker = inv.some_worker;
    fed = inv.fed;
    at_work = inv.at_work;
    ended = λ closed. all_done;
  }

  module _ (names : (t : Bytes) (r : Record) → Fetched t r → r.target ≡ t) where
    pub Step-Inv :
        {targets : List Bytes} {s u : Channels}
        → Step Fetched s u
        → Inv Fetched targets s
        → Inv Fetched targets u
    Step-Inv (take_job s front back t ts fed e) inv = take_job-Inv s front back t ts fed e inv
    Step-Inv (fetch s front back t r got e) inv = fetch-Inv names s front back t r got e inv
    Step-Inv (deliver s front back r open_results e) inv = deliver-Inv s front back r e inv
    Step-Inv (close_jobs s fed open_jobs) inv = close_jobs-Inv s fed inv
    Step-Inv (leave s front back closed e) inv = leave-Inv s front back closed e inv
    Step-Inv (close_results s all_done open_results) inv = close_results-Inv s all_done inv
