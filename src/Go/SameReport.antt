-- ===== src/Go/SameReport.antt =====
-- The reports of the Go client and of the client in C++, side by side.
use mathlib.Core.List.{Perm}
use mathlib.Core.List.Perm
use polyfetch.Base.{
  ℕ, ◌+◌, ◌≤◌, ◌≡◌, refl, sym, ◌∙◌, ap, ap₂, subst, arith, true, List, [], map, some, length, Bytes,
}
use polyfetch.Fetch.{Record, Curl}
use polyfetch.Report.{Sort, before, summary_line}
use polyfetch.Report as Report
use polyfetch.Report.Expected.{Reply}
use polyfetch.Report.Sorted.{IsStdSort, KeysDistinct, untimed, sort_records_deterministic}
use polyfetch.Report.Order.{before-IsStrictWeakOrder}
use polyfetch.Report.Summary.{
  ok_one, error_one, ok_size, total, total-perm, length-total, read_records,
}
use polyfetch.Args.{Config, exit_ok}
use polyfetch.Contract.Unique.{answers-KeysDistinct, total-untimed}
use polyfetch.Main.{World, setup_of, main}
use polyfetch.Main.Complete.{Completes}
use polyfetch.Main.Served.{IsServed, HasHandles, main-Reported, footer}
use polyfetch.Go.Fetch.{Answer}
use polyfetch.Go.Pool.{Channels, start, Steps}
use polyfetch.Go.Served.{Brings, Answers, IsSized-perm, sort_records-same, collected-answers}
use polyfetch.Go.Report.{sort_records, summarize}
use polyfetch.Go.Counts.{summarize_lem}
use polyfetch.Go.Agree.{IsSha256Hex}

-- Two lists have one footer if what their records count for has one sum, whatever it is.
footer_same :
    (l m : List Record)
    → ((w : Record → ℕ) → ((r : Record) → w (untimed r) ≡ w r) → total w l ≡ total w m)
    → footer l ≡ footer m
footer_same l m h =
    let ones = h ok_one (λ r. refl) in
    let errors = h error_one (λ r. refl) in
    let sizes = h ok_size (λ r. refl) in
    let size : length l ≡ length m = length-total l ∙ ap₂ ◌+◌ ones errors ∙ sym (length-total m) in
    rw (size, ones, errors, sizes) refl

-- The two clients, over the same targets: the program in C++ that gets as far as it can (see
-- `Completes`), with a handle for every thread, and the Go client with a worker at least, in any state
-- in which `run` has closed `results`. If the server responds to every target, with the same status and
-- payload to libcurl and to `net/http` (see `Gives`), then a reader of the report in C++ gets the
-- records of the Go client in the order of the Go client, but for their times, and the numbers of its
-- footer. Conditions: the sorts keep their contract, and `crypto/sha256` is SHA-256.
pub main-summarize :
    (serve : Bytes → Reply) (targets : List Bytes) (c : Curl) (world : World c.Handle)
    (args : List Bytes) (cfg : Config) (m : ℕ)
    → Completes c world args cfg targets m
    → IsServed c (setup_of world cfg) targets serve
    → HasHandles (setup_of world cfg)
    → (sha256_hex : Bytes → Bytes) → IsSha256Hex sha256_hex
    → (get : Bytes → Answer) (base_url : Bytes) → Answers get base_url serve
    → (sort : Sort) → IsStdSort sort
    → (k n : ℕ) (s : Channels) → 1 ≤ k
    → Steps (Brings sha256_hex get base_url) (start k targets) n s
    → s.results_closed ≡ true
    → (out : Bytes) × (rs : List Record) × (last : Bytes) × (main c world args
        ≡ some (record { code = exit_ok; out = out; err = [] }))
      × (read_records (length targets) out ≡ some (rs, last))
      × (map untimed rs ≡ map untimed (sort_records sort s.records))
      × (let sum = summarize (sort_records sort s.records) in
          last ≡ summary_line sum.total sum.ok sum.errors sum.total_bytes)
main-summarize serve targets c world args cfg m h served handles sha256_hex sha get base_url answers
      sort std k n s some_worker steps closed =
    let left = main-Reported serve targets c world args cfg m h served handles in
    let (perm, are_sized) =
      collected-answers serve sha256_hex sha get base_url answers targets k n s some_worker steps
        closed in
    let same : Perm (map untimed left.records) (map untimed s.records) =
      subst (λ l. Perm l (map untimed s.records)) (sym left.answers) (Perm.symm perm) in
    let sorted : Perm (sort_records sort s.records) s.records =
      rw (sort_records-same sort s.records)
        (unfold Report.sort_records in std.rearranges before s.records before-IsStrictWeakOrder) in
    let totals : (w : Record → ℕ)
        → ((r : Record) → w (untimed r) ≡ w r)
        → total w left.records ≡ total w (sort_records sort s.records) =
      λ w e.
        sym (total-untimed w e left.records)
        ∙ total-perm w same
        ∙ total-untimed w e s.records
        ∙ sym (total-perm w sorted) in
    let count = length-total left.records in
    (
      left.out,
      Report.sort_records world.sort left.records,
      footer left.records,
      left.ends,
      left.reads,
      sort_records_deterministic h.std std left.records s.records same
            (subst KeysDistinct (sym left.answers) (answers-KeysDistinct serve targets))
          ∙ ap (map untimed) (sym (sort_records-same sort s.records)),
      rw
          (summarize_lem (sort_records sort s.records) (IsSized-perm sorted are_sized)
            (omega (arith, totals ok_one (λ r. refl), left.few, count))
            (omega (arith, totals error_one (λ r. refl), left.few, count))
            (omega (arith, totals ok_size (λ r. refl), left.small)))
          (footer_same left.records (sort_records sort s.records) totals),
    )
