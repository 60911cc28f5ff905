-- ===== src/Main/Exit.antt =====
-- The exit codes of the program, for every command line and everything it may meet.
use polyfetch.Base.{◌≡◌, ◌⊎◌, Bool, true, false, [], ◌++◌, Option, some, none, Bytes, codes}
use polyfetch.Args.{Config, Outcome, proceed, exits, help_text}
use polyfetch.Main.{World, Result}

-- A result that is `none` says nothing.
abbrev pub EveryResult : (Result → Type 0) → Option Result → Type 0
EveryResult P none = Unit
EveryResult P (some r) = P r

-- Arguments that are refused, or a call for help.
abbrev pub IsLeft : Result → Type 0
IsLeft r =
    ((r.code ≡ 0) × (r.out ≡ help_text) × (r.err ≡ []))
    ⊎ ((r.code ≡ 2)
        × (r.out ≡ [])
        × ((msg : Bytes) × (r.err ≡ codes "polyfetch: " ++ (msg ++ codes "\n"))))

-- With a configuration: what becomes of the targets file, and of `curl_global_init`, decides.
abbrev pub IsRun : Config → Option Bytes → Bool → Option Result → Type 0
IsRun cfg none ready result =
    result
    ≡ some (record {
      code = 2;
      out = [];
      err = codes "polyfetch: cannot read targets file: " ++ (cfg.targets_path ++ codes "\n");
    })
IsRun cfg (some file) false result =
    result
    ≡ some (record { code = 1; out = []; err = codes "polyfetch: curl_global_init failed\n" })
IsRun cfg (some file) true result = EveryResult (λ r. (r.code ≡ 0) × (r.err ≡ [])) result

-- How the program ends, by what came of its arguments.
abbrev pub IsExit : {Handle : Type 0} → World Handle → Outcome → Option Result → Type 0
IsExit world (exits code out err) result = (r : Result) × (result ≡ some r) × IsLeft r
IsExit world (proceed cfg) result =
    IsRun cfg (world.open_file cfg.targets_path) world.global_init result
