-- ===== src/Go/Served.antt =====
-- The records that `run` collects from a server that answers each target in one way.
use std.Path.{fun_ext}
use mathlib.Core.List.{Perm}
use mathlib.Core.List.Perm
use polyfetch.Base.{
  ℕ, ◌≤◌, ◌≡◌, refl, sym, ◌∙◌, ap, ap₂, subst, arith, Bool, true, List, [], ◌∷◌, map, ◌++◌, Bytes,
  codes, All,
}
use polyfetch.Base.Int.{ℤ, pos, pos_part}
use polyfetch.Fetch.{Record}
use polyfetch.Report.{Sort}
use polyfetch.Report as Report
use polyfetch.Report.Expected.{Reply, answer}
use polyfetch.Report.Sorted.{untimed}
use polyfetch.Report.Summary.{All-of_mem, mem-All, IsSized}
use polyfetch.Go.Fetch.{Answer, fetch_and_process}
use polyfetch.Go.Pool.{Channels, start, Steps}
use polyfetch.Go.Complete.{Steps-complete}
use polyfetch.Go.Report.{sort_records}
use polyfetch.Go.Agree.{Gives, IsSha256Hex, less-before, untimed-fetch_and_process}

pub sort_records-same :
    (sort : Sort) (l : List Record) → sort_records sort l ≡ Report.sort_records sort l
unfolding sort_records Report.sort_records
sort_records-same sort l =
    ap (λ (lt : Record → Record → Bool). sort lt l) (fun_ext (λ a. fun_ext (λ b. less-before a b)))

-- What a worker can get for a target: the record that a fetch returns, with some time.
abbrev pub Brings : (Bytes → Bytes) → (Bytes → Answer) → Bytes → Bytes → Record → Type 0
Brings sha256_hex get base_url t r = (ms : ℤ) × (r ≡ fetch_and_process sha256_hex get base_url t ms)

-- The server answers requests for a target as `serve` says.
abbrev pub Answers : (Bytes → Answer) → Bytes → (Bytes → Reply) → Type 0
Answers get base_url serve =
    (t : Bytes) → Gives (get (base_url ++ (codes "/payload/" ++ t))) (serve t)

module _ (serve : Bytes → Reply) (sha256_hex : Bytes → Bytes) (sha : IsSha256Hex sha256_hex)
    (get : Bytes → Answer) (base_url : Bytes) (answers : Answers get base_url serve) where
  brought :
      (t : Bytes) (r : Record) → Brings sha256_hex get base_url t r → untimed r ≡ answer serve t
  brought t r (ms, e) =
      ap untimed e
      ∙ untimed-fetch_and_process sha256_hex sha get base_url t (serve t) ms (answers t)

  answer_target : (t : Bytes) → (answer serve t).target ≡ t
  answer_target t = ground arith

  answer-IsSized : (t : Bytes) → IsSized (answer serve t)
  answer-IsSized t = ground arith

  pub names : (t : Bytes) (r : Record) → Brings sha256_hex get base_url t r → r.target ≡ t
  names t r b = ap (λ (u : Record). u.target) (brought t r b) ∙ answer_target t

  pub all_brought :
      (rs : List Record)
      → All (λ r. Brings sha256_hex get base_url r.target r) rs
      → map untimed rs ≡ map (answer serve) (map (λ (r : Record). r.target) rs)
  all_brought [] h = refl
  all_brought (r ∷ rs) h = ap₂ ◌∷◌ (brought r.target r h.0) (all_brought rs h.1)

  pub sized :
      (rs : List Record) → All (λ r. Brings sha256_hex get base_url r.target r) rs → All IsSized rs
  sized [] h = tt
  sized (r ∷ rs) h = (
    subst (λ (z : ℤ). z ≡ pos (pos_part z))
        (sym (ap (λ (u : Record). u.size_bytes) (brought r.target r h.0)))
        (answer-IsSized r.target),
    sized rs h.1,
  )

IsSized-prop : (r : Record) → IsProp (IsSized r)
IsSized-prop r = hlevel

pub IsSized-perm : {l m : List Record} → Perm l m → All IsSized m → All IsSized l
IsSized-perm {l} {m} p h =
    All-of_mem l (λ r mem. mem-All IsSized IsSized-prop m h r ((Perm.mem_iff p).0 mem))

module _ (serve : Bytes → Reply) (sha256_hex : Bytes → Bytes) (sha : IsSha256Hex sha256_hex)
    (get : Bytes → Answer) (base_url : Bytes) (answers : Answers get base_url serve) where
  -- One answer of each target, with its time.
  pub collected-answers :
      (targets : List Bytes) (k n : ℕ) (s : Channels)
      → 1 ≤ k
      → Steps (Brings sha256_hex get base_url) (start k targets) n s
      → s.results_closed ≡ true
      → Perm (map untimed s.records) (map (answer serve) targets) × All IsSized s.records
  collected-answers targets k n s some_worker steps closed =
      let (perm, fetched) =
        Steps-complete (Brings sha256_hex get base_url)
          (names serve sha256_hex sha get base_url answers) k targets n s some_worker steps
          closed in
      (
        subst (λ l. Perm l (map (answer serve) targets))
            (sym (all_brought serve sha256_hex sha get base_url answers s.records fetched))
            (Perm.map (answer serve) perm),
        sized serve sha256_hex sha get base_url answers s.records fetched,
      )
