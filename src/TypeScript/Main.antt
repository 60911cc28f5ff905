-- ===== src/TypeScript/Main.antt =====
-- `main` of clients/typescript/src/polyfetch.ts. Files are a parameter, and so is how the promise of `run` is
-- settled. A result has the exit code and the two streams, as in C++.
use polyfetch.Base.{List, [], ◌++◌, Option, none, some, Bytes, codes}
use polyfetch.Base.Int.{ℤ}
use polyfetch.Fetch.{Record}
use polyfetch.Json.{Quote}
use polyfetch.Args.{Config, proceed, exits, exit_ok, exit_run_fail, exit_usage}
use polyfetch.Main.{Result}
use polyfetch.TypeScript.Fetch.{Numbers}
use polyfetch.TypeScript.Args.{parse_args}
use polyfetch.TypeScript.Targets.{read_targets}
use polyfetch.TypeScript.Report.{ArraySort, write_report}

-- The promise of `run`, with its records or the message of its error.
pub data Settled : Type 0 where
  resolved_with : List Record → Settled
  rejected_with : Option Bytes → Settled

-- What the program uses: `Number`, `trim`, the arithmetic of numbers, the strings of `JSON.stringify`,
-- `Array.sort`, the files, and the workers.
pub record System : Type 0 where
  pub number : Bytes → Option ℤ
  pub trim : Bytes → Bytes
  pub numbers : Numbers
  pub quote : Quote
  pub sort : ArraySort
  pub read_file : Bytes → Option Bytes
  pub settle : Config → List Bytes → Settled

abbrev message_of : Option Bytes → Bytes
message_of none = codes "error"
message_of (some message) = message

module _ (system : System) where
  -- Behind `await`.
  unfoldable pub finish : Settled → Result
  finish (resolved_with records) = record {
    code = exit_ok;
    out = write_report system.numbers system.quote system.sort records;
    err = [];
  }
  finish (rejected_with message) = record {
    code = exit_run_fail;
    out = [];
    err = codes "polyfetch: run failed: " ++ (message_of message ++ codes "\n");
  }

  unfoldable pub main_targets : Config → Option (List Bytes) → Result
  main_targets cfg none = record {
    code = exit_usage;
    out = [];
    err = codes "polyfetch: cannot read targets file: " ++ (cfg.targets_path ++ codes "\n");
  }
  main_targets cfg (some targets) = finish (system.settle cfg targets)

  unfoldable pub main : List Bytes → Result
  main argv = elim (parse_args system.number argv) [
    | proceed cfg ↦ main_targets cfg (read_targets system.trim (system.read_file cfg.targets_path))
    | exits code out err ↦ record { code = code; out = out; err = err }
  ]
