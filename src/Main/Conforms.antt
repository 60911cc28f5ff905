-- ===== src/Main/Conforms.antt =====
-- The program in C++ and the contract of README.md, sections 7 and 8.
use mathlib.Core.List.{Perm}
use mathlib.Core.List.Perm
use polyfetch.Base.{◌≡◌, ◌∙◌, ap, ap₂, subst, List, ◌++◌, map, some, [], Bytes, ℕ, All}
use polyfetch.Fetch.{Curl}
use polyfetch.Json.{IsPlain}
use polyfetch.Report.{sort_records}
use polyfetch.Report.Expected.{Reply, answer}
use polyfetch.Report.Sorted.{untimed, sort_records-InOrder}
use polyfetch.Args.{Config, exit_ok}
use polyfetch.Main.{World, setup_of, main}
use polyfetch.Main.Complete.{Completes}
use polyfetch.Main.Served.{IsServed, HasHandles, main-Reported}
use polyfetch.Main.Prints.{lines-record_lines, summary_line-print_line}
use polyfetch.Contract.{IsReport, print_line}
use polyfetch.Contract.Plain.{IsPlainReply, records-IsPlain}
use polyfetch.Contract.Unique.{footer_object-perm}

-- When the program gets as far as it can (see `Completes`), with a handle for every thread, against a
-- server that answers each target in one way, it ends with exit code 0, nothing on the error stream,
-- and on the output stream a report of the contract: of every target one line with the expected
-- record, in the order of the contract, and the footer. Conditions: targets, and libcurl's texts of
-- the fetches that fail, are plain ASCII without `"` and `\`.
pub main-IsReport :
    (serve : Bytes → Reply) (targets : List Bytes) (c : Curl) (world : World c.Handle)
    (args : List Bytes) (cfg : Config) (m : ℕ)
    → Completes c world args cfg targets m
    → IsServed c (setup_of world cfg) targets serve
    → HasHandles (setup_of world cfg)
    → ((t : Bytes) → IsPlainReply (serve t))
    → All IsPlain targets
    → (out : Bytes) × (main c world args ≡ some (record { code = exit_ok; out = out; err = [] }))
      × IsReport serve targets out
main-IsReport serve targets c world args cfg m h served handles reasons plain =
    let left = main-Reported serve targets c world args cfg m h served handles in
    let (sorted, ordered) = sort_records-InOrder h.std left.records in
    let answers : Perm (map untimed (sort_records world.sort left.records))
        (map (answer serve) targets) =
      subst (λ l. Perm (map untimed (sort_records world.sort left.records)) l) left.answers
        (Perm.map untimed sorted) in
    (
      left.out,
      left.ends,
      record {
        records = sort_records world.sort left.records;
        answers = answers;
        ordered = ordered;
        prints =
            left.whole
            ∙ ap₂ ◌++◌
                (lines-record_lines (sort_records world.sort left.records)
                  (records-IsPlain serve targets reasons plain _ answers))
                (summary_line-print_line left.records
                  ∙ ap print_line (footer_object-perm (Perm.symm sorted)));
      },
    )
