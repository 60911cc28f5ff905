-- ===== src/TypeScript/Conforms.antt =====
-- The TypeScript client and the contract of README.md, sections 7 and 8.
use mathlib.Core.List.{Perm}
use mathlib.Core.List.Perm
use polyfetch.Base.{
  ℕ, ◌≤◌, ◌^◌, ◌≡◌, refl, ◌∙◌, ap, subst, arith, List, [], ◌++◌, map, some, length, get_or, Bytes,
  codes, All,
}
use polyfetch.Base.Int.{ℤ}
use polyfetch.Fetch.{Record}
use polyfetch.Json.{Quote, IsPlain, IsEncoder}
use polyfetch.Report.Expected.{Reply, answer}
use polyfetch.Report.Sorted.{untimed}
use polyfetch.Report.Summary.{ok_size, total, IsSized}
use polyfetch.Contract.{report_text, IsReport}
use polyfetch.Contract.Plain.{IsPlainRecord, IsPlainReply, records-IsPlain, records-IsSized}
use polyfetch.Contract.Joined.{join-report_text}
use polyfetch.Contract.Unique.{length-answered, total-answered}
use polyfetch.Main.Served.{answers_eq}
use polyfetch.Go.Agree.{IsSha256Hex}
use polyfetch.TypeScript.Fetch.{Numbers, IsDouble, Answer, fetch_and_process}
use polyfetch.TypeScript.Pool.{Pool, resolved, start, Steps}
use polyfetch.TypeScript.Complete.{Steps-resolved}
use polyfetch.TypeScript.Agree.{Gives, untimed-fetch_and_process}
use polyfetch.TypeScript.Order.{IsArraySort, sort_records-InOrder}
use polyfetch.TypeScript.Counts.{report_lem}
use polyfetch.TypeScript.Report.{
  ArraySort, record_object, record_to_json, summary_object, sort_records, write_report,
}

-- What a worker can get for a target: the record that a fetch returns, with some time.
abbrev pub Brings : Numbers → (Bytes → Bytes) → (Bytes → Answer) → Bytes → Bytes → Record → Type 0
Brings numbers sha256_hex get base_url t r =
    (ms : ℤ) × (r ≡ fetch_and_process numbers sha256_hex get base_url t ms)

-- The server answers requests for a target as `serve` says.
abbrev pub Answers : (Bytes → Answer) → Bytes → (Bytes → Reply) → Type 0
Answers get base_url serve =
    (t : Bytes) → Gives (get (base_url ++ (codes "/payload/" ++ t))) (serve t)

-- The text of `writeReport`, for records that are plain.
write_report_lem :
    (numbers : Numbers)
    → IsDouble numbers
    → (quote : Quote) → IsEncoder quote
    → (sort : ArraySort) (rs : List Record)
    → (let sorted = sort_records numbers sort rs in
        All IsPlainRecord sorted
        → All IsSized sorted
        → length sorted ≤ 2 ^ 53
        → total ok_size sorted ≤ 2 ^ 53
        → write_report numbers quote sort rs ≡ report_text sorted)
unfolding write_report record_to_json record_object summary_object
write_report_lem numbers double quote encoder sort rs plain sized few small =
    let counts = report_lem numbers double quote (sort_records numbers sort rs) sized few small in
    rw counts (join-report_text quote encoder (sort_records numbers sort rs) plain)

-- When the promise of `run` of the TypeScript client is resolved, what `writeReport` writes of its
-- records is a report of the contract: of every target one line with the expected record, in the order of
-- the contract, and the footer. Conditions: the server responds to every target with one status and
-- payload (see `Gives`), numbers are doubles, `Array.sort` keeps its contract, `JSON.stringify` writes
-- plain texts as they are, `crypto` gives SHA-256, the targets are plain ASCII without `"` and `\`, and
-- there are at most 2 ^ 53 of them, and of bytes in the payloads together.
pub Steps-IsReport :
    (serve : Bytes → Reply) (targets : List Bytes) (numbers : Numbers)
    → IsDouble numbers
    → (sha256_hex : Bytes → Bytes) → IsSha256Hex sha256_hex
    → (get : Bytes → Answer) (base_url : Bytes) → Answers get base_url serve
    → (sort : ArraySort) → IsArraySort sort
    → (quote : Quote) → IsEncoder quote
    → ((t : Bytes) → IsPlainReply (serve t))
    → All IsPlain targets
    → length targets ≤ 2 ^ 53
    → total ok_size (map (answer serve) targets) ≤ 2 ^ 53
    → (k m : ℕ) (s : Pool)
    → Steps (Brings numbers sha256_hex get base_url) targets (start k (length targets)) m s
    → s.outcome ≡ resolved
    → (rs : List Record) × (s.results ≡ map some rs)
      × IsReport serve targets (write_report numbers quote sort rs)
Steps-IsReport serve targets numbers double sha256_hex sha get base_url answers sort std quote
      encoder reasons plain few small k m s steps done =
    let (made, (rs, full, many, fetched)) =
      Steps-resolved (Brings numbers sha256_hex get base_url) targets k m s steps done in
    let got : map untimed rs ≡ map (answer serve) targets =
      answers_eq serve rs targets many (λ i lt.
        let (ms, e) = fetched i lt in
        ap untimed e
        ∙ untimed-fetch_and_process numbers double sha256_hex sha get base_url (get_or targets i [])
            (serve (get_or targets i [])) ms (answers (get_or targets i []))) in
    let (rearranged, ordered) = sort_records-InOrder numbers double sort std rs in
    let answered : Perm (map untimed (sort_records numbers sort rs)) (map (answer serve) targets) =
      subst (λ l. Perm (map untimed (sort_records numbers sort rs)) l) got
        (Perm.map untimed rearranged) in
    (
      rs,
      full,
      record {
        records = sort_records numbers sort rs;
        answers = answered;
        ordered = ordered;
        prints =
            write_report_lem numbers double quote encoder sort rs
              (records-IsPlain serve targets reasons plain _ answered)
              (records-IsSized serve targets _ answered)
              (omega (arith, length-answered serve targets _ answered, few))
              (omega (arith, total-answered ok_size (λ r. refl) serve targets _ answered, small));
      },
    )
