-- ===== src/Tests/Main.antt =====
-- Examples for the theorems on the whole program: two targets, and two threads or one.
use polyfetch.Base.{
  ℕ, zero, suc, ◌+◌, ◌*◌, ◌≤◌, ◌<◌, ◌≡◌, refl, arith, inl, inr, true, List, [], ◌∷◌, ◌++◌, flatten,
  map, some, length, get_or, replicate, Bytes, codes,
}
use polyfetch.Base.Int.{pos}
use polyfetch.Args.{
  Config, default_config, proceed, exit_ok, is_digit, is_space, skip_spaces, scan_digits, scan_sign,
  starts_digit, clamp, strtol, is_more, set_concurrency, need_value, apply_flag, parse_from,
  parse_args,
}
use polyfetch.Fetch.{Record, request_url}
use polyfetch.Fetch.Outcome.{body}
use polyfetch.Main.{World, setup_of, main}
use polyfetch.Main.Complete.{Completes, main-report}
use polyfetch.Main.Deterministic.{main_deterministic}
use polyfetch.Report.{sort_records, summary_line}
use polyfetch.Report.Expected.{Reply}
use polyfetch.Report.Sorted.{untimed}
use polyfetch.Report.Summary.{ok_one, error_one, ok_size, total, lines, read_records}
use polyfetch.Run.{empty_record, thread_count}
use polyfetch.Run.Fair.{IsRound}
use polyfetch.Targets as Targets
use polyfetch.Targets.{
  find_first_not_of, find_last_not_of, substr, get_line, is_skipped, add_line, read_lines,
  read_targets,
}
use polyfetch.Threads.Whole.{IsRecordOf}
use polyfetch.Tests.InsertionSort.{insertion_sort, insertion_sort-IsStdSort}
use polyfetch.Tests.Samples.{fresh, steady, status_for, two_deliveries, targets_file}

-- A handle for every thread, and fetches that take `ms` milliseconds.
abbrev world : ℕ → List ℕ → World Bytes
world ms schedule = record {
  open_file = λ path. some targets_file;
  global_init = true;
  easy_init = λ w. some [];
  memory = λ w i. fresh;
  begins = λ w i. 0;
  ends = λ w i. ms * 1_000_000;
  schedule = schedule;
  sort = insertion_sort;
}

abbrev pub config : ℕ → Config
config k = record default_config { concurrency = pos k }

abbrev pub read : List Bytes
read = codes "t/1?delay=5" ∷ codes "t/2" ∷ []

pub file_read : read_targets (some targets_file) [] ≡ (true, read)
unfolding Targets.is_space find_first_not_of find_last_not_of substr get_line is_skipped add_line
    read_lines read_targets
file_read = refl

-- Two threads in turn.
abbrev two_rounds : List (List ℕ)
two_rounds = replicate 6 (0 ∷ 1 ∷ [])

abbrev pub two_world : World Bytes
two_world = world 7 (flatten two_rounds)

abbrev pub two_args : List Bytes
two_args = codes "--concurrency" ∷ codes "2" ∷ []

two_parsed : parse_args two_args ≡ proceed (config 2)
unfolding is_digit is_space skip_spaces scan_digits scan_sign starts_digit clamp strtol is_more
    set_concurrency need_value apply_flag parse_from parse_args
two_parsed = refl

both : IsRound (thread_count 2 2) (0 ∷ 1 ∷ [])
unfolding thread_count
both zero lt = inl refl
both (suc zero) lt = inr (inl refl)
both (suc (suc w)) lt = absurd (omega arith)

six : 2 * 2 + thread_count 2 2 ≤ 6
unfolding thread_count
six = omega arith

pub two-Completes : Completes steady two_world two_args (config 2) read 4
two-Completes = record {
  content = targets_file;
  blocks = two_rounds;
  parsed = two_parsed;
  opened = refl;
  read = file_read;
  few = omega arith;
  ready = refl;
  std = insertion_sort-IsStdSort;
  in_rounds = refl;
  fair = (both, (both, (both, (both, (both, (both, tt))))));
  enough = six;
  calm = λ handle. ((refl, (refl, tt)), omega arith, omega arith);
  buffers = λ w i. refl;
  small = omega arith;
  total_small = omega arith;
}

-- One thread.
abbrev one_rounds : List (List ℕ)
one_rounds = replicate 5 (0 ∷ [])

abbrev one_world : World Bytes
one_world = world 90 (flatten one_rounds)

abbrev one_args : List Bytes
one_args = codes "--concurrency" ∷ codes "1" ∷ []

one_parsed : parse_args one_args ≡ proceed (config 1)
unfolding is_digit is_space skip_spaces scan_digits scan_sign starts_digit clamp strtol is_more
    set_concurrency need_value apply_flag parse_from parse_args
one_parsed = refl

alone : IsRound (thread_count 1 2) (0 ∷ [])
unfolding thread_count
alone zero lt = inl refl
alone (suc w) lt = absurd (omega arith)

five : 2 * 2 + thread_count 1 2 ≤ 5
unfolding thread_count
five = omega arith

one-Completes : Completes steady one_world one_args (config 1) read 4
one-Completes = record {
  content = targets_file;
  blocks = one_rounds;
  parsed = one_parsed;
  opened = refl;
  read = file_read;
  few = omega arith;
  ready = refl;
  std = insertion_sort-IsStdSort;
  in_rounds = refl;
  fair = (alone, (alone, (alone, (alone, (alone, tt)))));
  enough = five;
  calm = λ handle. ((refl, (refl, tt)), omega arith, omega arith);
  buffers = λ w i. refl;
  small = omega arith;
  total_small = omega arith;
}

main-report_example :
    (rs : List Record) × (out : Bytes) × (length rs ≡ 2)
    × ((i : ℕ)
        → i < 2
        → IsRecordOf steady (setup_of two_world (config 2)) read 4 i (get_or rs i empty_record))
    × (main steady two_world two_args ≡ some (record { code = exit_ok; out = out; err = [] }))
    × (out
        ≡ lines (sort_records insertion_sort rs)
          ++ summary_line
              (length rs)
              (pos (total ok_one rs))
              (pos (total error_one rs))
              (pos (total ok_size rs)))
    × (read_records (length rs) out
        ≡ some (
          sort_records insertion_sort rs,
          summary_line
              (length rs)
              (pos (total ok_one rs))
              (pos (total error_one rs))
              (pos (total ok_size rs)),
        ))
main-report_example = main-report steady two_world two_args (config 2) read 4 two-Completes

-- How the server answers.
abbrev pub replies : Bytes → Reply
replies target = record {
  code = 0;
  reason = codes "No error";
  status = status_for (request_url (codes "http://localhost:8080") target);
  payload = body two_deliveries;
}

main_deterministic_example :
    (out out' : Bytes) × (rs rs' : List Record) × (last : Bytes) × (main steady two_world two_args
      ≡ some (record { code = exit_ok; out = out; err = [] }))
    × (main steady one_world one_args ≡ some (record { code = exit_ok; out = out'; err = [] }))
    × (read_records 2 out ≡ some (rs, last))
    × (read_records 2 out' ≡ some (rs', last))
    × (map untimed rs ≡ map untimed rs')
main_deterministic_example =
    main_deterministic replies read steady two_world two_args (config 2) 4 steady one_world one_args
      (config 1) 4 two-Completes one-Completes (λ i handle. refl) (λ i handle. refl) (λ w e. cc e)
      (λ w e. cc e)
