-- ===== src/Python/Conforms.antt =====
-- The Python client and the contract of README.md, sections 7 and 8.
use mathlib.Core.List.{Perm}
use mathlib.Core.List.Perm
use polyfetch.Base.{
  ℕ, ◌≤◌, ◌<◌, ◌≡◌, refl, sym, ◌∙◌, ap, ap₂, subst, arith, inl, inr, List, [], ◌∷◌, ◌++◌,
  append_assoc, map, Option, none, some, min, length, get_or, set, replicate, ◌==◌, length-append,
  Bytes, codes, All, Bool-cases,
}
use polyfetch.Base.Int.{ℤ, pos_part}
use polyfetch.Fetch.{Record}
use polyfetch.Json.{Quote, IsPlain, IsEncoder}
use polyfetch.Report.Expected.{Reply, answer}
use polyfetch.Report.Sorted.{untimed}
use polyfetch.Report.Summary.{IsSized}
use polyfetch.Run.{empty_record}
use polyfetch.Main.Served.{answers_eq}
use polyfetch.Contract.{report_text, IsReport}
use polyfetch.Contract.Plain.{IsPlainRecord, IsPlainReply, records-IsPlain, records-IsSized}
use polyfetch.Contract.Joined.{join-report_text}
use polyfetch.Go.Agree.{IsSha256Hex}
use polyfetch.Python.Fetch.{HttpClient, connection, fetch}
use polyfetch.Python.Report.{
  KeySort, record_object, record_to_json, summary_object, sort_records, write_report,
}
use polyfetch.Python.Run.{PoolMap, mapped, ran, store_mapped, store, run}
use polyfetch.Python.Agree.{Gives, untimed-fetch}
use polyfetch.Python.Counts.{report_lem}
use polyfetch.Python.Order.{IsKeySort, sort_records-InOrder}

-- `ex.map`: the results in the order of the targets, each of a call of `process_one` in some worker.
abbrev pub IsPoolMap : HttpClient → (Bytes → Bytes) → PoolMap → Type 0
IsPoolMap http sha256_hex pool_map =
    (workers : ℕ) (targets : List Bytes) (made : List Record)
    → 1 ≤ workers
    → pool_map workers targets ≡ mapped made
    → (length made ≡ length targets)
      × ((i : ℕ)
          → i < length targets
          → (conn : Option http.Connection) × (ms : ℤ) × (get_or made i empty_record
              ≡ (fetch http sha256_hex conn (get_or targets i []) ms).0))

-- If there are targets, the pool does not raise an exception, but has these results.
abbrev pub HasMapped : PoolMap → ℤ → List Bytes → List Record → Type 0
HasMapped pool_map concurrency targets made =
    1 ≤ length targets
    → pool_map (min (pos_part concurrency) (length targets)) targets ≡ mapped made

-- The server answers requests for a target as `serve` says, on every connection.
abbrev pub Answers : HttpClient → (Bytes → Reply) → Type 0
Answers http serve =
    (conn : Option http.Connection) (t : Bytes)
    → Gives (http.request (connection http conn) (codes "/payload/" ++ t)).0 (serve t)

set-append :
    (xs ys : List (Option Record)) (y v : Option Record)
    → set (xs ++ y ∷ ys) (length xs) v ≡ xs ++ v ∷ ys
set-append [] ys y v = refl
set-append (x ∷ xs) ys y v = ap (◌∷◌ x) (set-append xs ys y v)

-- The results behind those that are stored.
store-replicate :
    (rs : List Record) (stored : List (Option Record))
    → store (stored ++ replicate (length rs) none) (length stored) rs ≡ stored ++ map some rs
unfolding store
store-replicate [] stored = refl
store-replicate (r ∷ rs) stored =
    ap₂ (λ l i. store l i rs)
      (set-append stored (replicate (length rs) none) none (some r)
        ∙ sym (append_assoc stored (some r ∷ []) (replicate (length rs) none)))
      (sym (length-append stored (some r ∷ [])))
    ∙ store-replicate rs (stored ++ some r ∷ [])
    ∙ append_assoc stored (some r ∷ []) (map some rs)

-- `run` stores a record for each target.
run_lem :
    (http : HttpClient) (sha256_hex : Bytes → Bytes) (pool_map : PoolMap)
    → IsPoolMap http sha256_hex pool_map
    → (concurrency : ℤ) (targets : List Bytes) (made : List Record) → 1 ≤ pos_part concurrency
    → HasMapped pool_map concurrency targets made
    → (rs : List Record) × (run pool_map concurrency targets ≡ ran (map some rs))
      × (length rs ≡ length targets)
      × ((i : ℕ)
          → i < length targets
          → (conn : Option http.Connection) × (ms : ℤ) × (get_or rs i empty_record
              ≡ (fetch http sha256_hex conn (get_or targets i []) ms).0))
unfolding run store_mapped
run_lem http sha256_hex pool_map maps concurrency targets made some_worker has =
    elim (Bool-cases (length targets == 0)) [
      | inl empty ↦
          (let none_left : length targets ≡ 0 = ground (arith, empty) in
            (
              [],
              rw (empty, none_left) refl,
              sym none_left,
              λ i lt. absurd (omega (arith, none_left, lt)),
            ))
      | inr some_target ↦
          (let more : 1 ≤ length targets = ground (arith, some_target) in
            let (size, fetched) =
              maps (min (pos_part concurrency) (length targets)) targets made (omega (arith, more))
                (has more) in
            let stored : store (replicate (length targets) none) 0 made ≡ map some made =
              ap (λ n. store (replicate n none) 0 made) (sym size) ∙ store-replicate made [] in
            (made, rw (some_target, has more, stored) refl, size, fetched))
    ]

-- The text of `write_report`, for records that are plain.
write_report_lem :
    (quote : Quote)
    → IsEncoder quote
    → (sort : KeySort) (rs : List Record) → All IsPlainRecord (sort_records sort rs)
    → All IsSized (sort_records sort rs)
    → write_report quote sort rs ≡ report_text (sort_records sort rs)
unfolding write_report record_to_json record_object summary_object
write_report_lem quote encoder sort rs plain sized =
    let counts = report_lem quote (sort_records sort rs) sized in
    rw counts (join-report_text quote encoder (sort_records sort rs) plain)

-- When the pool of `run` of the Python client does not raise an exception, it has a record of each
-- target, and what `write_report` writes of them is a report of the contract: of every target one line
-- with the expected record, in the order of the contract, and the footer. Conditions: K is at least 1,
-- the server responds to every target with one status and payload (see `Gives`), `ex.map`, `list.sort` and
-- `json.dumps` keep their contracts, `hashlib` gives SHA-256, and the targets are plain ASCII without `"`
-- and `\`.
pub run-IsReport :
    (serve : Bytes → Reply) (targets : List Bytes) (http : HttpClient)
    → Answers http serve
    → (sha256_hex : Bytes → Bytes) → IsSha256Hex sha256_hex
    → (pool_map : PoolMap) → IsPoolMap http sha256_hex pool_map
    → (sort : KeySort) → IsKeySort sort
    → (quote : Quote) → IsEncoder quote
    → ((t : Bytes) → IsPlainReply (serve t))
    → All IsPlain targets
    → (concurrency : ℤ) (made : List Record) → 1 ≤ pos_part concurrency
    → HasMapped pool_map concurrency targets made
    → (rs : List Record) × (run pool_map concurrency targets ≡ ran (map some rs))
      × IsReport serve targets (write_report quote sort rs)
run-IsReport serve targets http answers sha256_hex sha pool_map maps sort std quote encoder reasons
      plain concurrency made some_worker has =
    let (rs, ended, many, fetched) =
      run_lem http sha256_hex pool_map maps concurrency targets made some_worker has in
    let got : map untimed rs ≡ map (answer serve) targets =
      answers_eq serve rs targets many (λ i lt.
        let (conn, ms, e) = fetched i lt in
        ap untimed e
        ∙ untimed-fetch http sha256_hex sha conn (get_or targets i []) (serve (get_or targets i []))
            ms (answers conn (get_or targets i []))) in
    let (rearranged, ordered) = sort_records-InOrder sort std rs in
    let answered : Perm (map untimed (sort_records sort rs)) (map (answer serve) targets) =
      subst (λ l. Perm (map untimed (sort_records sort rs)) l) got (Perm.map untimed rearranged) in
    (
      rs,
      ended,
      record {
        records = sort_records sort rs;
        answers = answered;
        ordered = ordered;
        prints =
            write_report_lem quote encoder sort rs
              (records-IsPlain serve targets reasons plain _ answered)
              (records-IsSized serve targets _ answered);
      },
    )
