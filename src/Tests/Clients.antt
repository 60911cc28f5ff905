-- ===== src/Tests/Clients.antt =====
-- Examples for the theorems on what every client prints: two targets.
use polyfetch.Base.{◌≡◌, refl, arith, List, [], ◌∷◌, some, Bytes}
use polyfetch.Args.{exit_ok}
use polyfetch.Fetch.{Record}
use polyfetch.Main.{main}
use polyfetch.Main.Conforms.{main-IsReport}
use polyfetch.Contract.{IsReport}
use polyfetch.Tests.Main.{replies, read, config, two_world, two_args, two-Completes}
use polyfetch.Tests.Samples.{steady}
use polyfetch.Tests.TypeScript.{fetched, target_a, target_b}

main-IsReport_example :
    (out : Bytes) × (main steady two_world two_args
      ≡ some (record { code = exit_ok; out = out; err = [] }))
    × IsReport replies read out
main-IsReport_example =
    main-IsReport replies read steady two_world two_args (config 2) 4 two-Completes
      (λ i handle. refl) (λ w e. cc e) (λ t failed. absurd (failed refl)) (omega arith)

abbrev got : List Record
got = fetched target_a ∷ fetched target_b ∷ []
