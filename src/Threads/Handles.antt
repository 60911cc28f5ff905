-- ===== src/Threads/Handles.antt =====
-- Who has which libcurl handle, in every state of the threads.
use native.Mathlib.Decide.{ℕ_discrete}
use mathlib.Core.Logic.{ite}
use polyfetch.Base.{
  ℕ, ◌≡◌, ◌≢◌, refl, sym, ◌∙◌, ap, subst, inl, inr, List, [], ◌∷◌, Option, none, some, length,
  get_or, ltb, Bytes, Bool-cases,
}
use polyfetch.Base.Result.{◌>>=◌}
use polyfetch.Fetch.{Record, Curl, fetch_and_process}
use polyfetch.Run.{Phase, ready, holding, finished, update_phase, write_slot, start}
use polyfetch.Threads.{
  Setup, Machine, update_handle, serve, thread_step, thread_steps, start_threads,
}
use polyfetch.Threads.Fetched.{is_some}

module _ (c : Curl) (setup : Setup c.Handle) (targets : List Bytes) where
  -- What thread `w` has in phase `p`: nothing behind its loop, and before that a handle exactly if
  -- `curl_easy_init` gave it one.
  abbrev pub IsOwned : ℕ → Phase → Option c.Handle → Type 0
  IsOwned w p h =
      (p ≡ finished → h ≡ none) × (p ≢ finished → is_some h ≡ is_some (setup.easy_init w))

  -- Every thread has what its phase says.
  abbrev pub AllOwned : Machine c.Handle → Type 0
  AllOwned m = (w : ℕ) → IsOwned w (m.pool.phase w) (m.handles w)

  update-IsOwned :
      (phase : ℕ → Phase) (handles : ℕ → Option c.Handle) (w : ℕ) (p : Phase) (h : Option c.Handle)
      → IsOwned w p h
      → ((v : ℕ) → IsOwned v (phase v) (handles v))
      → (v : ℕ) → IsOwned v (update_phase phase w p v) (update_handle handles w h v)
  update-IsOwned phase handles w p h mine others v =
      elim (ℕ_discrete w v) as (λ d. IsOwned v (ite d p (phase v)) (ite d h (handles v))) [
        | yes e ↦ subst (λ u. IsOwned u p h) e mine
        | no other ↦ others v
      ]

  keep-IsOwned :
      (phase : ℕ → Phase) (handles : ℕ → Option c.Handle) (w : ℕ) (p : Phase)
      → IsOwned w p (handles w)
      → ((v : ℕ) → IsOwned v (phase v) (handles v))
      → (v : ℕ) → IsOwned v (update_phase phase w p v) (handles v)
  keep-IsOwned phase handles w p mine others v =
      elim (ℕ_discrete w v) as (λ d. IsOwned v (ite d p (phase v)) (handles v)) [
        | yes e ↦ subst (λ u. IsOwned u p (handles u)) e mine
        | no other ↦ others v
      ]

  some-inj : {A : Type 0} {a b : A} → some a ≡ some b → a ≡ b
  some-inj e = cc e

  -- A thread that is not behind its loop and stays so keeps what it has.
  busy-IsOwned :
      (w : ℕ) (p q : Phase) (g h : Option c.Handle)
      → p ≢ finished
      → q ≢ finished
      → is_some g ≡ is_some h
      → IsOwned w p g
      → IsOwned w q h
  busy-IsOwned w p q g h busy still same own = (λ e. absurd (still e), λ _. sym same ∙ own.1 busy)

  serve-AllOwned :
      (w i : ℕ) (m m' : Machine c.Handle)
      → m.pool.phase w ≡ holding i
      → AllOwned m
      → (h : Option c.Handle) → m.handles w ≡ h
      → serve c setup targets w i m h ≡ some m'
      → AllOwned m'
  unfolding serve
  serve-AllOwned w i m m' e owned none held ran = subst AllOwned (some-inj ran) (
      keep-IsOwned m.pool.phase m.handles w ready
        (busy-IsOwned w (m.pool.phase w) ready (m.handles w) (m.handles w) (λ f. cc (e, f))
          (λ f. cc f) refl (owned w))
        owned)
  serve-AllOwned w i m m' e owned (some handle) held ran =
      by_result
        (fetch_and_process c (setup.memory w i) (setup.begins w i) (setup.ends w i) handle
          setup.base_url (get_or targets i []) setup.timeout)
        ran
    where
      by_result :
          (o : Option (Record × c.Handle))
          → (o >>= λ q. some (record {
            pool = write_slot w i q.0 m.pool;
            handles = update_handle m.handles w (some q.1);
          }))
            ≡ some m'
          → AllOwned m'
      by_result none ended = absurd (cc ended)
      by_result (some (r, after)) ended = subst AllOwned (some-inj ended) (
          update-IsOwned m.pool.phase m.handles w ready (some after)
            (busy-IsOwned w (m.pool.phase w) ready (m.handles w) (some after) (λ f. cc (e, f))
              (λ f. cc f) (ap is_some held) (owned w))
            owned)

  claim-AllOwned :
      (w : ℕ) (m m' : Machine c.Handle)
      → m.pool.phase w ≡ ready
      → AllOwned m
      → thread_step c setup targets w m ready ≡ some m'
      → AllOwned m'
  unfolding thread_step
  claim-AllOwned w m m' e owned ran = elim (Bool-cases (ltb m.pool.next_index (length targets))) [
    | inl more ↦ subst AllOwned (some-inj ran) (
        rw more (
          keep-IsOwned m.pool.phase m.handles w (holding m.pool.next_index)
            (busy-IsOwned w (m.pool.phase w) (holding m.pool.next_index) (m.handles w) (m.handles w)
              (λ f. cc (e, f)) (λ f. cc f) refl (owned w))
            owned))
    | inr last ↦ subst AllOwned (some-inj ran) (
        rw last (
          update-IsOwned m.pool.phase m.handles w finished none
            (λ f. refl, λ busy. absurd (busy refl)) owned))
  ]

  thread_step-AllOwned :
      (w : ℕ) (m m' : Machine c.Handle) (p : Phase)
      → m.pool.phase w ≡ p
      → AllOwned m
      → thread_step c setup targets w m p ≡ some m'
      → AllOwned m'
  unfolding thread_step
  thread_step-AllOwned w m m' ready e owned ran = claim-AllOwned w m m' e owned ran
  thread_step-AllOwned w m m' (holding i) e owned ran =
      serve-AllOwned w i m m' e owned (m.handles w) refl ran
  thread_step-AllOwned w m m' finished e owned ran = subst AllOwned (some-inj ran) owned

  thread_steps-AllOwned :
      (schedule : List ℕ) (m m' : Machine c.Handle)
      → AllOwned m
      → thread_steps c setup targets m schedule ≡ some m'
      → AllOwned m'
  unfolding thread_steps
  thread_steps-AllOwned [] m m' owned ran = subst AllOwned (some-inj ran) owned
  thread_steps-AllOwned (w ∷ ws) m m' owned ran =
      by_step (thread_step c setup targets w m (m.pool.phase w)) refl ran
        (λ m'' o r. thread_steps-AllOwned ws m'' m' o r)
    where
      by_step :
          (o : Option (Machine c.Handle))
          → thread_step c setup targets w m (m.pool.phase w) ≡ o
          → (o >>= λ m''. thread_steps c setup targets m'' ws) ≡ some m'
          → ((m'' : Machine c.Handle)
              → AllOwned m''
              → thread_steps c setup targets m'' ws ≡ some m'
              → AllOwned m')
          → AllOwned m'
      by_step none e ended rest = absurd (cc ended)
      by_step (some m'') e ended rest =
          rest m'' (thread_step-AllOwned w m m'' (m.pool.phase w) refl owned e) ended

  start-AllOwned : (k : ℕ) → AllOwned (start_threads c setup targets k)
  unfolding start_threads start
  start-AllOwned k w = elim (Bool-cases (ltb w k)) [
    | inl started ↦ rw started (λ e. absurd (cc e), λ _. refl)
    | inr outside ↦ rw outside (λ _. refl, λ busy. absurd (busy refl))
  ]

-- After every sequence of steps of `k` threads that has a result: a thread that has left its loop holds
-- no handle any more, and a thread that has not holds one exactly if `curl_easy_init` gave it one.
pub thread_steps-IsOwned :
    (c : Curl) (setup : Setup c.Handle) (targets : List Bytes) (k : ℕ) (schedule : List ℕ)
    (m : Machine c.Handle)
    → thread_steps c setup targets (start_threads c setup targets k) schedule ≡ some m
    → (w : ℕ) → IsOwned c setup targets w (m.pool.phase w) (m.handles w)
thread_steps-IsOwned c setup targets k schedule m ran =
    thread_steps-AllOwned c setup targets schedule (start_threads c setup targets k) m
      (start-AllOwned c setup targets k) ran
