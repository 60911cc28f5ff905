-- ===== src/Main/Deterministic.antt =====
-- Two programs against servers that answer each target in one way.
use mathlib.Core.List.{Perm}
use mathlib.Core.List.Perm
use polyfetch.Base.{ℕ, ◌≡◌, sym, ◌∙◌, ap, subst, List, [], map, some, length, Bytes}
use polyfetch.Fetch.{Record, Curl}
use polyfetch.Report.{sort_records}
use polyfetch.Report.Expected.{Reply}
use polyfetch.Report.Sorted.{untimed, KeysDistinct, sort_records_deterministic}
use polyfetch.Report.Summary.{read_records}
use polyfetch.Args.{Config, exit_ok}
use polyfetch.Main.{World, setup_of, main}
use polyfetch.Contract.Unique.{answers-KeysDistinct}
use polyfetch.Main.Complete.{Completes}
use polyfetch.Main.Served.{IsServed, HasHandles, main-Reported, footer, footer-untimed}

-- Two programs that get as far as they can (see `Completes`) over the same targets, each with its own
-- command line, concurrency, schedule, times and `std::sort`, and with a handle for every thread,
-- against servers that answer every request for a target in the same way: both end with exit code 0,
-- and a reader gets from their reports the same footer and the same records in the same order, but for
-- the times.
pub main_deterministic :
    (serve : Bytes → Reply) (targets : List Bytes) (c : Curl) (world : World c.Handle)
    (args : List Bytes) (cfg : Config) (m : ℕ) (c' : Curl) (world' : World c'.Handle)
    (args' : List Bytes) (cfg' : Config) (m' : ℕ)
    → Completes c world args cfg targets m
    → Completes c' world' args' cfg' targets m'
    → IsServed c (setup_of world cfg) targets serve
    → IsServed c' (setup_of world' cfg') targets serve
    → HasHandles (setup_of world cfg)
    → HasHandles (setup_of world' cfg')
    → (out out' : Bytes) × (rs rs' : List Record) × (last : Bytes) × (main c world args
        ≡ some (record { code = exit_ok; out = out; err = [] }))
      × (main c' world' args' ≡ some (record { code = exit_ok; out = out'; err = [] }))
      × (read_records (length targets) out ≡ some (rs, last))
      × (read_records (length targets) out' ≡ some (rs', last))
      × (map untimed rs ≡ map untimed rs')
main_deterministic serve targets c world args cfg m c' world' args' cfg' m' h h' served served'
      handles handles' =
    let left = main-Reported serve targets c world args cfg m h served handles in
    let right = main-Reported serve targets c' world' args' cfg' m' h' served' handles' in
    let same : map untimed left.records ≡ map untimed right.records =
      left.answers ∙ sym right.answers in
    let last : footer left.records ≡ footer right.records =
      sym (footer-untimed left.records) ∙ ap footer same ∙ footer-untimed right.records in
    (
      left.out,
      right.out,
      sort_records world.sort left.records,
      sort_records world'.sort right.records,
      footer left.records,
      left.ends,
      right.ends,
      left.reads,
      right.reads ∙ ap (λ (l : Bytes). some (sort_records world'.sort right.records, l)) (sym last),
      sort_records_deterministic h.std h'.std left.records right.records
          (subst (Perm (map untimed left.records)) same Perm.rfl)
          (subst KeysDistinct (sym left.answers) (answers-KeysDistinct serve targets)),
    )
