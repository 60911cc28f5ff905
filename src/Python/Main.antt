-- ===== src/Python/Main.antt =====
-- `parse_args` and `main` of clients/python/polyfetch.py. `argparse` is a parameter: what it makes of the
-- arguments, and what its `error` writes. A result has the exit code and the two streams, and a
-- configuration the fields, as in C++.
use polyfetch.Base.{List, [], ◌∷◌, ◌++◌, Option, none, some, if◌then◌else◌, Bytes, codes}
use polyfetch.Base.Int.{pos, ltb_ℤ}
use polyfetch.Fetch.{Record}
use polyfetch.Json.{Quote}
use polyfetch.Args.{Config, Outcome, proceed, exits, exit_ok, exit_run_fail, exit_usage}
use polyfetch.Main.{Result}
use polyfetch.Python.Targets.{Lines, unreadable, raised, read, read_targets}
use polyfetch.Python.Report.{KeySort, write_report}
use polyfetch.Python.Run.{PoolMap, Ran, ran, failed, run}

-- What the program uses: `parse_args` and `error` of `argparse`, `strip`, text files, the strings of
-- `json.dumps`, `list.sort`, and the map of the pool, for a configuration. An exception that nobody
-- catches ends in code 1 and a traceback.
pub record System : Type 0 where
  pub argparse : List Bytes → Outcome
  pub error : Bytes → Bytes
  pub strip : Bytes → Bytes
  pub decode : Bytes → Option Bytes
  pub quote : Quote
  pub sort : KeySort
  pub read_file : Bytes → Option Bytes
  pub pool_map : Config → PoolMap
  pub traceback : Bytes

-- The records of a list without `None`.
abbrev pub all_some : List (Option Record) → Option (List Record)
all_some [] = some []
all_some (none ∷ results) = none
all_some (some r ∷ results) = elim (all_some results) [ none ↦ none | some rs ↦ some (r ∷ rs) ]

module _ (system : System) where
  -- The checks behind `p.parse_args`.
  unfoldable pub check_args : Outcome → Outcome
  check_args (exits code out err) = exits code out err
  check_args (proceed cfg) =
      if ltb_ℤ cfg.concurrency (pos 1)
      then exits exit_usage [] (system.error (codes "--concurrency must be >= 1"))
      else if ltb_ℤ cfg.timeout_ms (pos 0)
      then exits exit_usage [] (system.error (codes "--timeout must be >= 0"))
      else proceed cfg

  unfoldable pub parse_args : List Bytes → Outcome
  parse_args argv = check_args (system.argparse argv)

  abbrev crashed : Result
  crashed = record { code = 1; out = []; err = system.traceback }

  unfoldable pub report_records : Option (List Record) → Result
  report_records none = crashed
  report_records (some records) = record {
    code = exit_ok;
    out = write_report system.quote system.sort records;
    err = [];
  }

  -- Behind `run`.
  unfoldable pub finish : Ran → Result
  finish (ran results) = report_records (all_some results)
  finish (failed e) = record {
    code = exit_run_fail;
    out = [];
    err = codes "polyfetch: run failed: " ++ (e ++ codes "\n");
  }

  unfoldable pub main_lines : Config → Lines → Result
  main_lines cfg unreadable = record {
    code = exit_usage;
    out = [];
    err = codes "polyfetch: cannot read targets file: " ++ (cfg.targets_path ++ codes "\n");
  }
  main_lines cfg raised = crashed
  main_lines cfg (read targets) = finish (run (system.pool_map cfg) cfg.concurrency targets)

  unfoldable pub main : List Bytes → Result
  main argv = elim (parse_args argv) [
    | proceed cfg ↦
        main_lines cfg (read_targets system.strip system.decode (system.read_file cfg.targets_path))
    | exits code out err ↦ record { code = code; out = out; err = err }
  ]
