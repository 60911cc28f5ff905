-- ===== src/TypeScript/Program.antt =====
-- The TypeScript client from end to end, for the command lines and files of the client in C++.
use polyfetch.Base.{
  ◌<◌, ◌≤◌, ◌^◌, ◌≡◌, refl, sym, ◌∙◌, subst, ℕ, true, List, [], some, map, length, Bytes, All,
}
use polyfetch.Base.Int.{pos_part}
use polyfetch.Fetch.{Record}
use polyfetch.Json.{IsPlain, IsEncoder}
use polyfetch.Args.{Config, proceed, exit_ok}
use polyfetch.Args as Args
use polyfetch.Targets as Targets
use polyfetch.Targets.Split.{IsPrintable, IsTrim}
use polyfetch.Report.Expected.{Reply, answer}
use polyfetch.Report.Summary.{ok_size, total}
use polyfetch.Contract.{IsReport}
use polyfetch.Contract.Plain.{IsPlainReply}
use polyfetch.Go.Agree.{IsSha256Hex}
use polyfetch.TypeScript.Fetch.{IsDouble, Answer}
use polyfetch.TypeScript.Pool.{Pool, resolved, start, Steps}
use polyfetch.TypeScript.Complete.{map-some_injective}
use polyfetch.TypeScript.Order.{IsArraySort}
use polyfetch.TypeScript.Conforms.{Brings, Answers, Steps-IsReport}
use polyfetch.TypeScript.Args.{parse_args}
use polyfetch.TypeScript.Reads.{read_targets-same}
use polyfetch.TypeScript.Flags.{IsLineAlike, parse_args-same}
use polyfetch.TypeScript.Report.{write_report}
use polyfetch.TypeScript.Main.{System, resolved_with, finish, main_targets, main}

-- What the program uses keeps its contract.
pub record IsSystem (system : System) (sha256_hex : Bytes → Bytes) : Type 0 where
  pub trims : IsTrim system.trim
  pub double : IsDouble system.numbers
  pub encoder : IsEncoder system.quote
  pub sorts : IsArraySort system.sort
  pub hashes : IsSha256Hex sha256_hex

-- The program gets as far as it can: the client in C++ takes the arguments and the file as `cfg` and
-- `targets`, `Number` takes its numbers as `strtol` does, the file is printable ASCII, and the workers
-- run until the promise is resolved.
pub record Completes (system : System) (sha256_hex : Bytes → Bytes) (get : Bytes → Answer)
    (argv : List Bytes) (cfg : Config) (targets : List Bytes) : Type 0 where
  pub content : Bytes
  pub m : ℕ
  pub pool : Pool
  pub records : List Record
  pub alike : IsLineAlike system.number argv
  pub parsed : Args.parse_args argv ≡ proceed cfg
  pub opened : system.read_file cfg.targets_path ≡ some content
  pub printable : All IsPrintable content
  pub small : length content < 2 ^ 64
  pub read : Targets.read_targets (some content) [] ≡ (true, targets)
  pub ran :
      Steps
        (Brings system.numbers sha256_hex get cfg.base_url)
        targets
        (start (pos_part cfg.concurrency) (length targets))
        m
        pool
  pub done : pool.outcome ≡ resolved
  pub full : pool.results ≡ map some records
  pub settled : system.settle cfg targets ≡ resolved_with records

main_eq :
    (system : System) (sha256_hex : Bytes → Bytes) (get : Bytes → Answer) (argv : List Bytes)
    (cfg : Config) (targets : List Bytes)
    → IsTrim system.trim
    → (h : Completes system sha256_hex get argv cfg targets)
    → main system argv ≡ record {
      code = exit_ok;
      out = write_report system.numbers system.quote system.sort h.records;
      err = [];
    }
unfolding main main_targets finish
main_eq system sha256_hex get argv cfg targets trims h =
    let (ts, cpp, typescript) = read_targets-same system.trim trims h.content h.printable h.small in
    let same : ts ≡ targets = cc (cpp, h.read) in
    let parsed : parse_args system.number argv ≡ proceed cfg =
      parse_args-same system.number argv h.alike ∙ h.parsed in
    rw (parsed, main, h.opened, typescript, same, h.settled) refl

-- When the program gets as far as it can (see `Completes`), for a command line and a targets file that the
-- client in C++ takes as a configuration and its targets, it ends with exit code 0, nothing on the error
-- stream, and on the output stream a report of the contract on these targets. Conditions: the server responds to
-- every target with one status and payload (see `Gives`), what the program uses keeps its contract (see
-- `IsSystem`), the targets are plain ASCII without `"` and `\`, and there are at most 2 ^ 53 of them, and of
-- bytes in the payloads together.
pub main_report :
    (serve : Bytes → Reply) (system : System) (sha256_hex : Bytes → Bytes) (get : Bytes → Answer)
    (argv : List Bytes) (cfg : Config) (targets : List Bytes)
    → IsSystem system sha256_hex
    → Completes system sha256_hex get argv cfg targets
    → Answers get cfg.base_url serve
    → ((t : Bytes) → IsPlainReply (serve t))
    → All IsPlain targets
    → length targets ≤ 2 ^ 53
    → total ok_size (map (answer serve) targets) ≤ 2 ^ 53
    → (out : Bytes) × (main system argv ≡ record { code = exit_ok; out = out; err = [] })
      × IsReport serve targets out
main_report serve system sha256_hex get argv cfg targets keeps h answers reasons plain few small =
    let (rs, full, report) =
      Steps-IsReport serve targets system.numbers keeps.double sha256_hex keeps.hashes get
        cfg.base_url answers system.sort keeps.sorts system.quote keeps.encoder reasons plain few
        small (pos_part cfg.concurrency) h.m h.pool h.ran h.done in
    let same : rs ≡ h.records = map-some_injective rs h.records (sym full ∙ h.full) in
    (
      _,
      main_eq system sha256_hex get argv cfg targets keeps.trims h,
      subst (λ rs. IsReport serve targets (write_report system.numbers system.quote system.sort rs))
          same report,
    )
