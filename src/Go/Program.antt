-- ===== src/Go/Program.antt =====
-- The Go client from end to end, for the files of the client in C++.
use polyfetch.Base.{
  ℕ, ◌<◌, ◌≤◌, ◌^◌, ◌≡◌, ◌⊎◌, inl, inr, refl, sym, ◌∙◌, ap, true, ◌||◌, List, [], ◌∷◌, ◌++◌, none,
  some, map, foldl, length, Bytes, All,
}
use polyfetch.Base.Int.{pos_part}
use polyfetch.Json.{IsPlain, IsEncoder}
use polyfetch.Args.{exit_ok}
use polyfetch.Targets as Targets
use polyfetch.Targets.Split.{split, IsPrintable, IsTrim}
use polyfetch.Report.Expected.{Reply, answer}
use polyfetch.Report.Sorted.{IsStdSort}
use polyfetch.Report.Summary.{ok_size, total}
use polyfetch.Contract.{IsReport}
use polyfetch.Contract.Plain.{IsPlainReply}
use polyfetch.TypeScript.Targets as TypeScript
use polyfetch.TypeScript.Reads.{read_targets-same}
use polyfetch.Go.Fetch.{Answer}
use polyfetch.Go.Agree.{IsSha256Hex}
use polyfetch.Go.Pool.{Channels, start, Steps}
use polyfetch.Go.Served.{Brings, Answers}
use polyfetch.Go.Report.{write_report}
use polyfetch.Go.Conforms.{write_report-IsReport}
use polyfetch.Go.Main.{
  Config, proceed, System, is_skipped, add_trimmed, check_flags, got, scanned_targets, file_targets,
  read_targets, main_targets, main,
}

-- What `bufio.Scanner` and `strings.TrimSpace` make of a text of printable ASCII: no error, and the lines
-- between the line feeds without the white space at their ends, of which the last is left out if the text ends
-- in a line feed or is empty.
abbrev pub IsScanned : System → Bytes → List Bytes → Type 0
IsScanned system content lines =
    (system.scan content ≡ (lines, none))
    × ((map system.trim_space lines ≡ map system.trim_space (split content))
        ⊎ (map system.trim_space lines ++ [] ∷ [] ≡ map system.trim_space (split content)))

skipped-same :
    (line : Bytes) → (TypeScript.is_empty line || TypeScript.starts_comment line) ≡ is_skipped line
skipped-same [] = refl
skipped-same (c ∷ line) = refl

foldl-trimmed :
    (trim : Bytes → Bytes) (lines out : List Bytes)
    → foldl (λ targets line. add_trimmed targets (trim line)) out lines
      ≡ foldl add_trimmed out (map trim lines)
foldl-trimmed trim [] out = refl
foldl-trimmed trim (line ∷ lines) out = foldl-trimmed trim lines (add_trimmed out (trim line))

foldl-add_line :
    (trim : Bytes → Bytes) (lines out : List Bytes)
    → foldl (TypeScript.add_line trim) out lines ≡ foldl add_trimmed out (map trim lines)
unfolding TypeScript.add_line add_trimmed
foldl-add_line trim [] out = refl
foldl-add_line trim (line ∷ lines) out =
    rw (skipped-same (trim line)) (foldl-add_line trim lines (add_trimmed out (trim line)))

foldl-last :
    (lines out : List Bytes)
    → foldl add_trimmed out (lines ++ [] ∷ []) ≡ foldl add_trimmed out lines
unfolding add_trimmed
foldl-last [] out = refl
foldl-last (line ∷ lines) out = foldl-last lines (add_trimmed out line)

-- What the program uses keeps its contract.
pub record IsSystem (system : System) (sha256_hex : Bytes → Bytes) : Type 0 where
  pub trims : IsTrim system.trim_space
  pub encoder : IsEncoder system.quote
  pub sorts : IsStdSort system.sort
  pub hashes : IsSha256Hex sha256_hex

-- The program gets as far as it can: the flags are set to valid values, the file is printable ASCII, in which
-- the client in C++ finds `targets`, and the goroutines run until `results` is closed.
pub record Completes (system : System) (sha256_hex : Bytes → Bytes) (get : Bytes → Answer)
    (args : List Bytes) (cfg : Config) (targets : List Bytes) : Type 0 where
  pub content : Bytes
  pub lines : List Bytes
  pub n : ℕ
  pub channels : Channels
  pub parsed : check_flags (system.parse args) ≡ proceed cfg
  pub some_worker : 1 ≤ pos_part cfg.concurrency
  pub opened : system.open_file cfg.targets_path ≡ some content
  pub printable : All IsPrintable content
  pub small : length content < 2 ^ 64
  pub scanned : IsScanned system content lines
  pub found : Targets.read_targets (some content) [] ≡ (true, targets)
  pub ran :
      Steps
        (Brings sha256_hex get cfg.base_url)
        (start (pos_part cfg.concurrency) targets)
        n
        channels
  pub closed : channels.results_closed ≡ true
  pub collected : system.run cfg targets ≡ channels.records

module _ (system : System) where
  scanned-same :
      (content : Bytes) (lines : List Bytes)
      → IsScanned system content lines
      → foldl add_trimmed [] (map system.trim_space lines)
        ≡ foldl add_trimmed [] (map system.trim_space (split content))
  scanned-same content lines (scanned, inl same) = ap (foldl add_trimmed []) same
  scanned-same content lines (scanned, inr same) =
      sym (foldl-last (map system.trim_space lines) []) ∙ ap (foldl add_trimmed []) same

  read_eq :
      (path content : Bytes) (lines targets : List Bytes)
      → IsTrim system.trim_space
      → system.open_file path ≡ some content
      → All IsPrintable content
      → length content < 2 ^ 64
      → IsScanned system content lines
      → Targets.read_targets (some content) [] ≡ (true, targets)
      → read_targets system path ≡ got targets
  unfolding read_targets file_targets scanned_targets TypeScript.read_targets
  read_eq path content lines targets trims opened printable small scanned found =
      let (ts, cpp, split_targets) =
        read_targets-same system.trim_space trims content printable small in
      let same : ts ≡ targets = cc (cpp, found) in
      let all : some (foldl (TypeScript.add_line system.trim_space) [] (split content))
          ≡ some targets =
        split_targets ∙ ap some same in
      let all_targets : foldl (TypeScript.add_line system.trim_space) [] (split content) ≡ targets =
        some-injective all in
      rw (opened, scanned.0)
        (ap got (
          foldl-trimmed system.trim_space lines []
          ∙ scanned-same content lines scanned
          ∙ sym (foldl-add_line system.trim_space (split content) [])
          ∙ all_targets))
    where
      some-injective : {a b : List Bytes} → some a ≡ some b → a ≡ b
      some-injective e = cc e

-- When the program gets as far as it can (see `Completes`), it ends with exit code 0, nothing on the error
-- stream, and on the output stream a report of the contract on the targets that the client in C++ finds in the
-- file. Conditions: the server responds to every target with one status and payload (see `Gives`), what the
-- program uses keeps its contract (see `IsSystem` and `IsScanned`), the targets are plain ASCII without `"` and
-- `\`, and there are fewer than 2 ^ 63 of them, and of bytes in the payloads together.
pub main_reports :
    (serve : Bytes → Reply) (system : System) (sha256_hex : Bytes → Bytes) (get : Bytes → Answer)
    (args : List Bytes) (cfg : Config) (targets : List Bytes)
    → IsSystem system sha256_hex
    → Completes system sha256_hex get args cfg targets
    → Answers get cfg.base_url serve
    → ((t : Bytes) → IsPlainReply (serve t))
    → All IsPlain targets
    → length targets < 2 ^ 63
    → total ok_size (map (answer serve) targets) < 2 ^ 63
    → (out : Bytes) × (main system args ≡ record { code = exit_ok; out = out; err = [] })
      × IsReport serve targets out
unfolding main main_targets
main_reports serve system sha256_hex get args cfg targets keeps h answers reasons plain few small =
    (
      write_report system.quote system.sort h.channels.records,
      rw
          (
            h.parsed,
            main,
            read_eq system cfg.targets_path h.content h.lines targets keeps.trims h.opened
                h.printable h.small h.scanned h.found,
            h.collected,
          )
          refl,
      write_report-IsReport serve targets sha256_hex keeps.hashes get cfg.base_url answers
          system.sort keeps.sorts system.quote keeps.encoder reasons plain few small
          (pos_part cfg.concurrency) h.n h.channels h.some_worker h.ran h.closed,
    )
