-- ===== src/Go/Conforms.antt =====
-- The Go client and the contract of README.md, sections 7 and 8.
use mathlib.Core.Bool.{Bool-set}
use mathlib.Core.List.{Perm}
use mathlib.Core.List.Perm
use polyfetch.Base.{
  ℕ, ◌≤◌, ◌<◌, ◌^◌, ◌≡◌, refl, ◌∙◌, ap, ap₂, arith, true, List, [], ◌∷◌, ◌++◌, map, length, Bytes,
  codes, All,
}
use polyfetch.Fetch.{Record}
use polyfetch.Json.{Quote, IsPlain, IsEncoder, encode}
use polyfetch.Report.{Sort, str_eq}
use polyfetch.Report.Expected.{Reply, expected, answer}
use polyfetch.Report.Sorted.{IsStdSort, untimed, sort_records-InOrder}
use polyfetch.Report.Summary.{ok_size, total, length-total, IsSized}
use polyfetch.Contract.{footer_object, record_lines, IsReport}
use polyfetch.Contract as Contract
use polyfetch.Contract.Plain.{
  IsPlainRecord, IsPlainReply, All-answered, records-IsPlain, encode-record_object,
  encode-footer_object,
}
use polyfetch.Contract.Unique.{length-answered, total-answered}
use polyfetch.Go.Fetch.{Answer}
use polyfetch.Go.Pool.{Channels, start, Steps}
use polyfetch.Go.Agree.{IsSha256Hex}
use polyfetch.Go.Counts.{summarize_lem}
use polyfetch.Go.Report.{
  record_object, summary_object, summarize, encode_records, sort_records, write_report,
}
use polyfetch.Go.Served.{Brings, Answers, IsSized-perm, sort_records-same, collected-answers}

-- The error is empty in the records that are ok, and in no other.
abbrev SaysError : Record → Type 0
SaysError r = str_eq r.error [] ≡ str_eq r.status (codes "ok")

expected-SaysError : (t : Bytes) (reply : Reply) → SaysError (expected t reply)
expected-SaysError t reply = ground arith

answers-SaysError :
    (serve : Bytes → Reply) (targets : List Bytes) → All SaysError (map (answer serve) targets)
answers-SaysError serve [] = tt
answers-SaysError serve (t ∷ targets) =
    (expected-SaysError t (serve t), answers-SaysError serve targets)

record_object-same : (r : Record) → SaysError r → record_object r ≡ Contract.record_object r
unfolding record_object
record_object-same r says = rw says refl

module _ (quote : Quote) (encoder : IsEncoder quote) where
  encode_records-record_lines :
      (rs : List Record)
      → All IsPlainRecord rs
      → All SaysError rs
      → encode_records quote rs ≡ record_lines rs
  unfolding encode_records
  encode_records-record_lines [] plain says = refl
  encode_records-record_lines (r ∷ rs) plain says =
      ap₂ ◌++◌
        (ap (encode quote) (record_object-same r says.0)
          ∙ encode-record_object quote encoder r plain.0)
        (encode_records-record_lines rs plain.1 says.1)

  encode-summarize :
      (rs : List Record)
      → All IsSized rs
      → length rs < 2 ^ 63
      → total ok_size rs < 2 ^ 63
      → encode quote (summary_object (summarize rs)) ≡ Contract.print_line (footer_object rs)
  unfolding summary_object
  encode-summarize rs sized few small =
      ap (λ sum. encode quote (summary_object sum))
        (summarize_lem rs sized (omega (arith, length-total rs, few))
          (omega (arith, length-total rs, few)) small)
      ∙ encode-footer_object quote encoder rs

-- In any state in which `run` of the Go client, with a worker at least, has closed `results`, what
-- `writeReport` writes is a report of the contract: of every target one line with the expected record,
-- in the order of the contract, and the footer. Conditions: the server responds to every target with
-- one status and payload (see `Gives`), `sort.Slice` keeps its contract, `encoding/json` writes plain
-- texts as they are, `crypto/sha256` is SHA-256, the targets are plain ASCII without `"` and `\`, and
-- there are fewer than 2 ^ 63 of them, and of bytes in the payloads together.
pub write_report-IsReport :
    (serve : Bytes → Reply) (targets : List Bytes) (sha256_hex : Bytes → Bytes)
    → IsSha256Hex sha256_hex
    → (get : Bytes → Answer) (base_url : Bytes) → Answers get base_url serve
    → (sort : Sort) → IsStdSort sort
    → (quote : Quote) → IsEncoder quote
    → ((t : Bytes) → IsPlainReply (serve t))
    → All IsPlain targets
    → length targets < 2 ^ 63
    → total ok_size (map (answer serve) targets) < 2 ^ 63
    → (k n : ℕ) (s : Channels) → 1 ≤ k
    → Steps (Brings sha256_hex get base_url) (start k targets) n s
    → s.results_closed ≡ true
    → IsReport serve targets (write_report quote sort s.records)
unfolding write_report
write_report-IsReport serve targets sha256_hex sha get base_url answers sort std quote encoder
      reasons plain few small k n s some_worker steps closed =
    let (perm, sized) =
      collected-answers serve sha256_hex sha get base_url answers targets k n s some_worker steps
        closed in
    let same = sort_records-same sort s.records in
    let (rearranged, ordered) = sort_records-InOrder std s.records in
    let sorted : Perm (sort_records sort s.records) s.records = rw same rearranged in
    let answered : Perm (map untimed (sort_records sort s.records)) (map (answer serve) targets) =
      Perm.trans (Perm.map untimed sorted) perm in
    record {
      records = sort_records sort s.records;
      answers = answered;
      ordered = rw same ordered;
      prints =
          ap₂ ◌++◌
            (encode_records-record_lines quote encoder (sort_records sort s.records)
              (records-IsPlain serve targets reasons plain _ answered)
              (All-answered SaysError (λ r. Bool-set _ _) (λ r h. h) serve targets
                (answers-SaysError serve targets) _ answered))
            (encode-summarize quote encoder (sort_records sort s.records)
              (IsSized-perm sorted sized)
              (omega (arith, length-answered serve targets _ answered, few))
              (omega (arith, total-answered ok_size (λ r. refl) serve targets _ answered, small)));
    }
