-- ===== src/Python/Program.antt =====
-- The Python client from end to end, for the files of the client in C++.
use polyfetch.Base.{
  ◌<◌, ◌^◌, ◌≡◌, ◌≢◌, refl, arith, true, false, List, [], ◌∷◌, some, map, length, Bytes, All,
}
use polyfetch.Base.Int.{pos, ltb_ℤ}
use polyfetch.Fetch.{Record}
use polyfetch.Json.{IsPlain, IsEncoder}
use polyfetch.Args.{Config, proceed, exit_ok}
use polyfetch.Targets as Targets
use polyfetch.Targets.Split.{IsPrintable, IsTrim}
use polyfetch.Report.Expected.{Reply}
use polyfetch.Contract.{IsReport}
use polyfetch.Contract.Plain.{IsPlainReply}
use polyfetch.Go.Agree.{IsSha256Hex}
use polyfetch.Python.Fetch.{HttpClient}
use polyfetch.Python.Order.{IsKeySort}
use polyfetch.Python.Reads.{IsTextMode, read_targets_alike}
use polyfetch.Python.Run.{ran, run}
use polyfetch.Python.Report.{write_report}
use polyfetch.Python.Conforms.{IsPoolMap, HasMapped, Answers, run-IsReport}
use polyfetch.Python.Main.{
  System, all_some, check_args, parse_args, report_records, finish, main_lines, main,
}

-- What the program uses keeps its contract.
pub record IsSystem (system : System) (http : HttpClient) (sha256_hex : Bytes → Bytes)
    (cfg : Config) : Type 0 where
  pub strips : IsTrim system.strip
  pub text_mode : IsTextMode system.decode
  pub encoder : IsEncoder system.quote
  pub sorts : IsKeySort system.sort
  pub hashes : IsSha256Hex sha256_hex
  pub maps : IsPoolMap http sha256_hex (system.pool_map cfg)

-- The program gets as far as it can: `argparse` gives `cfg`, whose numbers are valid, the file is printable
-- ASCII without carriage returns, in which the client in C++ finds `targets`, and the pool raises no
-- exception.
pub record Completes (system : System) (argv : List Bytes) (cfg : Config) (targets : List Bytes)
    : Type 0 where
  pub content : Bytes
  pub made : List Record
  pub parsed : system.argparse argv ≡ proceed cfg
  pub some_worker : ltb_ℤ cfg.concurrency (pos 1) ≡ false
  pub some_time : ltb_ℤ cfg.timeout_ms (pos 0) ≡ false
  pub opened : system.read_file cfg.targets_path ≡ some content
  pub printable : All IsPrintable content
  pub no_return : All (λ c. c ≢ b'\r') content
  pub small : length content < 2 ^ 64
  pub found : Targets.read_targets (some content) [] ≡ (true, targets)
  pub has_mapped : HasMapped (system.pool_map cfg) cfg.concurrency targets made

all_some-map : (rs : List Record) → all_some (map some rs) ≡ some rs
all_some-map [] = refl
all_some-map (r ∷ rs) = rw (all_some-map rs) refl

main_eq :
    (system : System) (argv : List Bytes) (cfg : Config) (targets : List Bytes) (rs : List Record)
    → IsTrim system.strip
    → IsTextMode system.decode
    → Completes system argv cfg targets
    → run (system.pool_map cfg) cfg.concurrency targets ≡ ran (map some rs)
    → main system argv
      ≡ record { code = exit_ok; out = write_report system.quote system.sort rs; err = [] }
unfolding main parse_args check_args main_lines finish report_records
main_eq system argv cfg targets rs strips text_mode h ended =
    let (ts, cpp, python) =
      read_targets_alike system.strip strips system.decode text_mode h.content h.printable
        h.no_return h.small in
    let same : ts ≡ targets = cc (cpp, h.found) in
    let parsed : parse_args system argv ≡ proceed cfg =
      rw (h.parsed, h.some_worker, h.some_time) refl in
    rw (parsed, main, h.opened, python, same, ended, all_some-map rs) refl

-- When the program gets as far as it can (see `Completes`), it ends with exit code 0, nothing on the error
-- stream, and on the output stream a report of the contract on the targets that the client in C++ finds in the
-- file. Conditions: the server responds to every target with one status and payload (see `Gives`), what the
-- program uses keeps its contract (see `IsSystem`), and the targets are plain ASCII without `"` and `\`.
pub main_conforms :
    (serve : Bytes → Reply) (system : System) (http : HttpClient) (sha256_hex : Bytes → Bytes)
    (argv : List Bytes) (cfg : Config) (targets : List Bytes)
    → IsSystem system http sha256_hex cfg
    → Completes system argv cfg targets
    → Answers http serve
    → ((t : Bytes) → IsPlainReply (serve t))
    → All IsPlain targets
    → (out : Bytes) × (main system argv ≡ record { code = exit_ok; out = out; err = [] })
      × IsReport serve targets out
main_conforms serve system http sha256_hex argv cfg targets keeps h answers reasons plain =
    let (rs, ended, report) =
      run-IsReport serve targets http answers sha256_hex keeps.hashes (system.pool_map cfg)
        keeps.maps system.sort keeps.sorts system.quote keeps.encoder reasons plain cfg.concurrency
        h.made (ground (arith, h.some_worker)) h.has_mapped in
    (
      write_report system.quote system.sort rs,
      main_eq system argv cfg targets rs keeps.strips keeps.text_mode h ended,
      report,
    )
