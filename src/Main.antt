-- ===== src/Main.antt =====
-- `main` of clients/cpp/src/main.cpp: arguments, targets file, `curl_global_init`, the threads, the
-- report. The result has the exit code and what is written to the two streams; `none` is a schedule
-- that leaves a thread inside its loop, or the overflow of a signed counter.
pub mod Exit
pub mod Complete
pub mod Served
pub mod Prints
pub mod Conforms
pub mod Deterministic
use polyfetch.Base.{
  ℕ, Bool, true, false, List, [], ◌∷◌, ◌++◌, Option, some, none, Bytes, codes, if◌then◌else◌,
}
use polyfetch.Base.Int.{ℤ, pos_part}
use polyfetch.Base.Result.{◌>>=◌}
use polyfetch.Sha256.{Sha256}
use polyfetch.Fetch.{Record, Curl}
use polyfetch.Report.{Sort, write_report}
use polyfetch.Targets.{read_targets}
use polyfetch.Args.{Config, Outcome, proceed, exits, exit_ok, exit_run_fail, exit_usage, parse_args}
use polyfetch.Threads.{Setup, run_threads}

-- What the program meets: the files, whether `curl_global_init` succeeds, what `curl_easy_init` gives
-- each thread, storage and clock of each fetch, the order of the threads' steps, and `std::sort`.
pub record World (Handle : Type 0) : Type 0 where
  pub open_file : Bytes → Option Bytes
  pub global_init : Bool
  pub easy_init : ℕ → Option Handle
  pub memory : (w i : ℕ) → Sha256
  pub begins : (w i : ℕ) → ℕ
  pub ends : (w i : ℕ) → ℕ
  pub schedule : List ℕ
  pub sort : Sort

pub record Result : Type 0 where
  pub code : ℕ
  pub out : Bytes
  pub err : Bytes

-- What the threads are given under a configuration.
abbrev pub setup_of : {Handle : Type 0} → World Handle → Config → Setup Handle
setup_of world cfg = record {
  base_url = cfg.base_url;
  timeout = cfg.timeout_ms;
  easy_init = world.easy_init;
  memory = world.memory;
  begins = world.begins;
  ends = world.ends;
}

module _ (c : Curl) (world : World c.Handle) where
  -- From the threads on.
  unfoldable pub main_run : Config → List Bytes → Option Result
  main_run cfg targets = do
    records ← run_threads c (setup_of world cfg) targets (pos_part cfg.concurrency) world.schedule
    report ← write_report world.sort records
    some (record { code = exit_ok; out = report; err = [] })

  -- With a configuration.
  unfoldable pub main_with : Config → Option Result
  main_with cfg =
      let (opened, targets) = read_targets (world.open_file cfg.targets_path) [] in
      if opened
      then (if world.global_init
          then main_run cfg targets
          else some (record {
            code = exit_run_fail;
            out = [];
            err = codes "polyfetch: curl_global_init failed\n";
          }))
      else some (record {
        code = exit_usage;
        out = [];
        err = codes "polyfetch: cannot read targets file: " ++ (cfg.targets_path ++ codes "\n");
      })

  unfoldable pub main : List Bytes → Option Result
  main args = elim (parse_args args) [
    | proceed cfg ↦ main_with cfg
    | exits code out err ↦ some (record { code = code; out = out; err = err })
  ]
