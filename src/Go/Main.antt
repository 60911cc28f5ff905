-- ===== src/Go/Main.antt =====
-- clients/go/parseargs.go, and `readTargets` and `main` of clients/go/main.go. The packages `flag`, `bufio`,
-- `strings` and `os` are parameters, and so is what `run` collects. A result has the exit code and the two
-- streams, as in C++.
use polyfetch.Base.{
  ◌*◌, Bool, true, List, [], ◌∷◌, ◌++◌, foldl, Option, none, some, ◌==◌, if◌then◌else◌, Bytes,
  codes,
}
use polyfetch.Base.Int.{ℤ, pos, ltb_ℤ, to_i64}
use polyfetch.Base.Decimal.{show_ℤ}
use polyfetch.Fetch.{Record}
use polyfetch.Json.{Quote}
use polyfetch.Report.{Sort}
use polyfetch.Args.{exit_ok, exit_usage}
use polyfetch.Main.{Result}
use polyfetch.Go.Report.{bits_of, write_report}

-- The values of the flags, and the configuration, with the time limit in nanoseconds.
pub record Flags : Type 0 where
  pub concurrency : ℤ
  pub targets : Bytes
  pub base_url : Bytes
  pub timeout_ms : ℤ

pub record Config : Type 0 where
  pub concurrency : ℤ
  pub targets_path : Bytes
  pub base_url : Bytes
  pub timeout : ℤ

-- `fs.Parse` refuses the arguments, with what it has written, or has set the flags.
pub data Parsed : Type 0 where
  refused : (err : Bytes) → Parsed
  set_flags : Flags → Parsed

pub data Outcome : Type 0 where
  proceed : Config → Outcome
  exits : (err : Bytes) → Outcome

-- A product of 64 bits, which wraps.
unfoldable pub milliseconds : ℤ → ℤ
milliseconds ms = to_i64 (bits_of ms * 1_000_000)

unfoldable pub check_flags : Parsed → Outcome
check_flags (refused err) = exits err
check_flags (set_flags flags) =
    if ltb_ℤ flags.concurrency (pos 1)
    then exits (
        codes "polyfetch: --concurrency must be >= 1 (got "
        ++ (show_ℤ flags.concurrency ++ codes ")\n"))
    else if ltb_ℤ flags.timeout_ms (pos 0)
    then exits (
        codes "polyfetch: --timeout must be >= 0 (got " ++ (show_ℤ flags.timeout_ms ++ codes ")\n"))
    else proceed (record {
      concurrency = flags.concurrency;
      targets_path = flags.targets;
      base_url = flags.base_url;
      timeout = milliseconds flags.timeout_ms;
    })

-- What the program uses: `fs.Parse`, `os.Open` with the text of its error, the lines of `bufio.Scanner`
-- with its error, `strings.TrimSpace`, `%q`, the strings of `encoding/json`, `sort.Slice`, and what `run`
-- collects.
pub record System : Type 0 where
  pub parse : List Bytes → Parsed
  pub open_file : Bytes → Option Bytes
  pub open_error : Bytes → Bytes
  pub scan : Bytes → List Bytes × Option Bytes
  pub trim_space : Bytes → Bytes
  pub quoted : Bytes → Bytes
  pub quote : Quote
  pub sort : Sort
  pub run : Config → List Bytes → List Record

abbrev pub is_skipped : Bytes → Bool
is_skipped [] = true
is_skipped (c ∷ line) = c == b'#'

-- The body of the loop, for a line without white space at its ends.
unfoldable pub add_trimmed : List Bytes → Bytes → List Bytes
add_trimmed targets line = if is_skipped line then targets else targets ++ line ∷ []

-- The targets, or the text of the error.
pub data Targets : Type 0 where
  got : List Bytes → Targets
  wrong : (err : Bytes) → Targets

module _ (system : System) where
  unfoldable pub scanned_targets : Bytes → List Bytes × Option Bytes → Targets
  scanned_targets path (lines, none) =
      got (foldl (λ targets line. add_trimmed targets (system.trim_space line)) [] lines)
  scanned_targets path (lines, some e) =
      wrong (codes "reading targets file " ++ (system.quoted path ++ (codes ": " ++ e)))

  unfoldable pub file_targets : Bytes → Option Bytes → Targets
  file_targets path none = wrong (
      codes "opening targets file "
      ++ (system.quoted path ++ (codes ": " ++ system.open_error path)))
  file_targets path (some content) = scanned_targets path (system.scan content)

  unfoldable pub read_targets : Bytes → Targets
  read_targets path = file_targets path (system.open_file path)

  unfoldable pub main_targets : Config → Targets → Result
  main_targets cfg (got targets) = record {
    code = exit_ok;
    out = write_report system.quote system.sort (system.run cfg targets);
    err = [];
  }
  main_targets cfg (wrong err) = record {
    code = exit_usage;
    out = [];
    err = codes "polyfetch: " ++ (err ++ codes "\n");
  }

  unfoldable pub main : List Bytes → Result
  main args = elim (check_flags (system.parse args)) [
    | proceed cfg ↦ main_targets cfg (read_targets cfg.targets_path)
    | exits err ↦ record { code = exit_usage; out = []; err = err }
  ]
