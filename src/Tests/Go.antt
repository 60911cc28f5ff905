-- ===== src/Tests/Go.antt =====
-- Examples for the theorems on the Go client: one worker, two targets.
use polyfetch.Base.{
  inl, some, ◌+◌, ◌*◌, ◌≡◌, refl, arith, true, false, [], ◌∷◌, map, none, flatten, Bytes, codes,
  All,
}
use mathlib.Core.List.{Perm}
use polyfetch.Base.Int.{pos}
use polyfetch.Sha256.Standard.{fips_digest}
use polyfetch.Fetch.{Record, request_url}
use polyfetch.Report.Expected.{expected}
use polyfetch.Report.Sorted.{untimed}
use polyfetch.Go.Fetch.{Answer, answered, fetch_and_process}
use polyfetch.Go.Pool.{
  done, Channels, start, Step, take_job, fetch, deliver, close_jobs, leave, close_results, Steps,
  here, next,
}
use polyfetch.Go.Progress.{steps_left, Steps-steps_left, Step-progress}
use polyfetch.Go.Complete.{Steps-complete}
use polyfetch.Go.Report.{write_report}
use polyfetch.Go.Agree.{untimed-fetch_and_process}
use polyfetch.Go.Served.{Brings, Answers, names}
use polyfetch.Go.Conforms.{write_report-IsReport}
use polyfetch.Json.{plain_quote}
use polyfetch.Contract.{IsReport}
use polyfetch.Args.{exit_ok}
use polyfetch.Targets.Split.{split}
use polyfetch.Go.Main.{Config, set_flags, System, milliseconds, check_flags, main}
use polyfetch.Go.Program.{IsSystem, Completes, main_reports}
use polyfetch.Tests.Trim.{trim, trim-IsTrim}
use polyfetch.Tests.TypeScript.{file-IsPrintable}
use polyfetch.Tests.InsertionSort.{insertion_sort, insertion_sort-IsStdSort}
use polyfetch.Tests.Main.{replies, read, file_read}
use polyfetch.Tests.Samples.{status_for, chunks, targets_file}

abbrev base_url : Bytes
base_url = codes "http://localhost:8080"

abbrev get : Bytes → Answer
get address = answered (status_for address) chunks none

answers : Answers get base_url replies
unfolding flatten request_url
answers t = record {
  chunks = chunks;
  whole = refl;
  same_payload = refl;
  responds = refl;
  bytes = omega arith;
  small = omega arith;
}

abbrev fetched : Bytes → Record
fetched t = fetch_and_process fips_digest get base_url t (pos 3)

abbrev Brought : Bytes → Record → Type 0
Brought = Brings fips_digest get base_url

abbrev first : Bytes
first = codes "t/1?delay=5"

abbrev second : Bytes
second = codes "t/2"

abbrev ended : Channels
ended = record {
  feed = [];
  jobs_closed = true;
  workers = done ∷ [];
  results_closed = true;
  records = fetched first ∷ fetched second ∷ [];
}

one_by_one : Steps Brought (start 1 read) 9 ended
unfolding start
one_by_one =
    next
      (next
        (next
          (next
            (next
              (next
                (next
                  (next (next here (take_job _ [] [] first (second ∷ []) refl refl))
                    (fetch _ [] [] first (fetched first) (pos 3, refl) refl))
                  (deliver _ [] [] (fetched first) refl refl))
                (take_job _ [] [] second [] refl refl))
              (fetch _ [] [] second (fetched second) (pos 3, refl) refl))
            (deliver _ [] [] (fetched second) refl refl))
          (close_jobs _ refl refl))
        (leave _ [] [] refl refl))
      (close_results _ (refl, tt) refl)

untimed-fetch_and_process_example : untimed (fetched first) ≡ expected first (replies first)
untimed-fetch_and_process_example =
    untimed-fetch_and_process fips_digest (λ m h. refl) get base_url first (replies first) (pos 3)
      (answers first)

Steps-steps_left_example : 9 + steps_left ended ≡ 3 * 2 + 1 + 2
Steps-steps_left_example = Steps-steps_left Brought 1 read 9 ended one_by_one

still_open : (start 1 read).results_closed ≡ false
unfolding start
still_open = refl

Step-progress_example : (u : Channels) × Step Brought (start 1 read) u
Step-progress_example =
    Step-progress Brought (λ t. (fetched t, (pos 3, refl))) (start 1 read) still_open

Steps-complete_example :
    Perm (map (λ (r : Record). r.target) ended.records) read
    × All (λ r. Brought r.target r) ended.records
Steps-complete_example =
    Steps-complete Brought (names replies fips_digest (λ m h. refl) get base_url answers) 1 read 9
      ended (omega arith) one_by_one refl

write_report-IsReport_example :
    IsReport replies read (write_report plain_quote insertion_sort ended.records)
unfolding request_url
write_report-IsReport_example =
    write_report-IsReport replies read fips_digest (λ m h. refl) get base_url answers insertion_sort
      insertion_sort-IsStdSort plain_quote (λ s h. refl) (λ t failed. absurd (failed refl))
      (omega arith) (omega arith) (omega arith) 1 9 ended (omega arith) one_by_one refl

abbrev cfg : Config
cfg = record {
  concurrency = pos 1;
  targets_path = codes "targets.txt";
  base_url = base_url;
  timeout = milliseconds (pos 30000);
}

abbrev system : System
system = record {
  parse = λ args. set_flags (record {
    concurrency = pos 1;
    targets = codes "targets.txt";
    base_url = base_url;
    timeout_ms = pos 30000;
  });
  open_file = λ path. some targets_file;
  open_error = λ path. codes "no such file";
  scan = λ content. (split content, none);
  trim_space = trim;
  quoted = plain_quote;
  quote = plain_quote;
  sort = insertion_sort;
  run = λ cfg targets. ended.records;
}

system-IsSystem : IsSystem system fips_digest
system-IsSystem = record {
  trims = trim-IsTrim;
  encoder = λ s h. refl;
  sorts = insertion_sort-IsStdSort;
  hashes = λ m h. refl;
}

system-Completes : Completes system fips_digest get [] cfg read
unfolding check_flags
system-Completes = record {
  content = targets_file;
  lines = split targets_file;
  n = 9;
  channels = ended;
  parsed = refl;
  some_worker = omega arith;
  opened = refl;
  printable = file-IsPrintable;
  small = omega arith;
  scanned = (refl, inl refl);
  found = file_read;
  ran = one_by_one;
  closed = refl;
  collected = refl;
}

main_reports_example :
    (out : Bytes) × (main system [] ≡ record { code = exit_ok; out = out; err = [] })
    × IsReport replies read out
unfolding request_url
main_reports_example =
    main_reports replies system fips_digest get [] cfg read system-IsSystem system-Completes answers
      (λ t failed. absurd (failed refl)) (omega arith) (omega arith) (omega arith)
