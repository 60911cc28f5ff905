-- ===== src/Main/Complete.antt =====
-- The program from end to end: from the command line and the targets file to the report.
use mathlib.Core.List.{Mem}
use polyfetch.Base.{
  ℕ, suc, ◌+◌, ◌-◌, ◌*◌, ◌^◌, ◌≤◌, ◌<◌, ◌≡◌, refl, sym, ◌∙◌, ap, subst, arith, true, List, [], ◌∷◌,
  ◌++◌, flatten, Option, some, length, get_or, Bytes, All,
}
use polyfetch.Base.Int.{ℤ, pos, negsuc, pos_part, ◌≤ℤ◌}
use polyfetch.Base.Result.{◌>>=◌}
use polyfetch.Fetch.{Record, Curl}
use polyfetch.Report.{sort_records, summary_line, write_report}
use polyfetch.Report.Line.{IsPrintable, IsPrintable-prop}
use polyfetch.Report.Sorted.{IsStdSort}
use polyfetch.Report.Summary.{
  ok_one, error_one, ok_size, total, lines, IsSized, mem-All, write_report_lem, read_records,
  read_records-write_report,
}
use polyfetch.Targets.{read_targets}
use polyfetch.Args.{Config, proceed, exit_ok, parse_args}
use polyfetch.Args.Valid.{IsValid, IsOutcome, parse_args-IsOutcome}
use polyfetch.Run.{empty_record, thread_count, run}
use polyfetch.Run.Results.{length-run, run_complete}
use polyfetch.Run.Fair.{IsRound, run_terminates}
use polyfetch.Threads.{run_threads}
use polyfetch.Threads.Refine.{run_threads-run}
use polyfetch.Threads.Whole.{IsBounded, HasBuffers, IsRecordOf, fetches-AreGood}
use polyfetch.Main.{World, setup_of, main_run, main_with, main}

module _ (P : Record → Type 0) where
  All-slots :
      (rs : List Record) → ((i : ℕ) → i < length rs → P (get_or rs i empty_record)) → All P rs
  All-slots [] h = tt
  All-slots (r ∷ rs) h = (h 0 (omega arith), All-slots rs (λ i lt. h (suc i) (omega arith)))

abbrev IsReportable : Record → Type 0
IsReportable r = IsSized r × IsPrintable r

IsReportable-prop : (r : Record) → IsProp (IsReportable r)
IsReportable-prop r = hlevel (IsPrintable-prop r)

total_bound :
    (m : ℕ) (rs : List Record) → All (λ r. ok_size r ≤ m) rs → total ok_size rs ≤ length rs * m
total_bound m [] h = omega arith
total_bound m (r ∷ rs) (le, h) =
    let one_more : suc (length rs) * m ≡ m + length rs * m = grind arith in
    omega (arith, total_bound m rs h, one_more)

pos_part-le : (k : ℤ) (n : ℕ) → k ≤ℤ pos n → pos_part k ≤ n
pos_part-le (pos k) n h = omega arith
pos_part-le (negsuc k) n h = omega arith

-- The program gets as far as it can: the arguments are parsed to `cfg`, the file is read to `targets`,
-- fewer than 2 ^ 31, `curl_global_init` succeeds, `std::sort` keeps its contract, the schedule has
-- `2 * n + k` rounds or more for `n` targets and `k` threads, and a payload has at most `m` bytes.
pub record Completes (c : Curl) (world : World c.Handle) (args : List Bytes) (cfg : Config)
    (targets : List Bytes) (m : ℕ) : Type 0 where
  pub content : Bytes
  pub blocks : List (List ℕ)
  pub parsed : parse_args args ≡ proceed cfg
  pub opened : world.open_file cfg.targets_path ≡ some content
  pub read : read_targets (some content) [] ≡ (true, targets)
  pub few : length targets < 2 ^ 31
  pub ready : world.global_init ≡ true
  pub std : IsStdSort world.sort
  pub in_rounds : world.schedule ≡ flatten blocks
  pub fair : All (IsRound (thread_count (pos_part cfg.concurrency) (length targets))) blocks
  pub enough :
      2 * length targets + thread_count (pos_part cfg.concurrency) (length targets) ≤ length blocks
  pub calm : IsBounded c m
  pub buffers : HasBuffers (setup_of world cfg)
  pub small : m * 8 < 2 ^ 64
  pub total_small : length targets * m < 2 ^ 63

module _ (c : Curl) (world : World c.Handle) (args : List Bytes) (cfg : Config)
    (targets : List Bytes) (m : ℕ) (h : Completes c world args cfg targets m) where
  abbrev concurrency : ℕ
  concurrency = pos_part cfg.concurrency

  valid : IsValid cfg
  valid = subst IsOutcome h.parsed (parse_args-IsOutcome args)

  threads_bounds : (1 ≤ concurrency) × (length targets + concurrency < 2 ^ 64)
  threads_bounds = (
    omega (arith, valid.some_thread),
    omega (arith, h.few, pos_part-le cfg.concurrency (2 ^ 31 - 1) valid.fits_int),
  )

  -- The threads return, with a record of each target in its place.
  pub run_threads_complete :
      (rs : List Record) × (run_threads c (setup_of world cfg) targets concurrency world.schedule
        ≡ some rs)
      × (length rs ≡ length targets)
      × ((i : ℕ)
          → i < length targets
          → IsRecordOf c (setup_of world cfg) targets m i (get_or rs i empty_record))
  run_threads_complete =
      let (pos_threads, few_threads) = threads_bounds in
      let (env, (good, same)) =
        run_threads-run c (setup_of world cfg) targets (IsRecordOf c (setup_of world cfg) targets m)
          (fetches-AreGood c (setup_of world cfg) targets m h.calm h.small h.buffers) concurrency
          world.schedule pos_threads few_threads in
      let (rs, ended) =
        run_terminates env targets concurrency h.blocks pos_threads few_threads h.fair h.enough in
      let returned : run env targets concurrency world.schedule ≡ some rs =
        ap (run env targets concurrency) h.in_rounds ∙ ended in
      (
        rs,
        same ∙ returned,
        length-run env targets concurrency world.schedule pos_threads few_threads returned,
        λ i lt.
            let (size, (w, w_lt, got)) =
              run_complete env targets concurrency world.schedule pos_threads few_threads returned i
                lt in
            rw got (good w i),
      )

  -- The counter of the bytes does not overflow.
  pub total_small :
      (rs : List Record)
      → length rs ≡ length targets
      → ((i : ℕ)
          → i < length targets
          → IsRecordOf c (setup_of world cfg) targets m i (get_or rs i empty_record))
      → total ok_size rs < 2 ^ 63
  total_small rs size records = omega (
    arith,
    h.total_small,
    ap (λ (n : ℕ). n * m) size,
    total_bound m rs
        (All-slots (λ r. ok_size r ≤ m) rs (λ i lt. (records i (omega (arith, size))).bounded)),
  )

  main_eq :
      {rs : List Record} {report : Bytes}
      → run_threads c (setup_of world cfg) targets concurrency world.schedule ≡ some rs
      → write_report world.sort rs ≡ some report
      → main c world args ≡ some (record { code = exit_ok; out = report; err = [] })
  unfolding main main_with main_run
  main_eq ran reported = rw (h.parsed, main, h.opened, h.read, h.ready, ran, reported)

  -- When the program gets as far as it can (see `Completes`), it ends with exit code 0, nothing on the
  -- error stream, and a report that stands for one record of each target: what a fetch of the target
  -- returned, or the record of a thread without a handle. The report is the lines of the sorted records
  -- and the footer that counts them, and a JSON reader gets both back. Errors of targets change neither
  -- the exit code nor the number of lines.
  pub main-report :
      (rs : List Record) × (out : Bytes) × (length rs ≡ length targets)
      × ((i : ℕ)
          → i < length targets
          → IsRecordOf c (setup_of world cfg) targets m i (get_or rs i empty_record))
      × (main c world args ≡ some (record { code = exit_ok; out = out; err = [] }))
      × (out
          ≡ lines (sort_records world.sort rs)
            ++ summary_line
                (length rs)
                (pos (total ok_one rs))
                (pos (total error_one rs))
                (pos (total ok_size rs)))
      × (read_records (length rs) out
          ≡ some (
            sort_records world.sort rs,
            summary_line
                (length rs)
                (pos (total ok_one rs))
                (pos (total error_one rs))
                (pos (total ok_size rs)),
          ))
  main-report =
      let (rs, ran, size, records) = run_threads_complete in
      let good : (r : Record) → Mem r rs → IsReportable r =
        mem-All IsReportable IsReportable-prop rs (
          All-slots IsReportable rs
            (λ i lt. let meets = (records i (omega (arith, size))).meets in (meets.0, meets.1))) in
      let bounded = total_small rs size records in
      let few : length rs < 2 ^ 31 = omega (arith, size, h.few) in
      let reported = write_report_lem h.std rs (λ r mem. (good r mem).0) few bounded in
      (
        rs,
        _,
        size,
        records,
        main_eq ran reported,
        refl,
        sym (ap (λ (o : Option Bytes). o >>= read_records (length rs)) reported)
            ∙ read_records-write_report h.std rs good few bounded,
      )
