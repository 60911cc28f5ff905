-- ===== src/TypeScript/Args.antt =====
-- `parseArgs` of clients/typescript/src/polyfetch.ts. `Number` is a parameter: the integer that a text stands
-- for, or `none` for what `Number.isInteger` refuses. A configuration has the fields of the one in C++,
-- and so has the way the program leaves.
use polyfetch.Base.{◌||◌, List, [], ◌∷◌, ◌++◌, Option, none, some, if◌then◌else◌, Bytes, codes}
use polyfetch.Base.Int.{ℤ, pos, ltb_ℤ}
use polyfetch.Report.{str_eq}
use polyfetch.Args.{Config, Outcome, proceed, exits, exit_ok, exit_usage}

abbrev pub default_config : Config
default_config = record {
  concurrency = pos 8;
  targets_path = codes "shared/targets.txt";
  base_url = codes "http://localhost:8080";
  timeout_ms = pos 30000;
}

unfoldable pub usage_error : Bytes → Outcome
usage_error msg = exits exit_usage [] (codes "polyfetch: " ++ (msg ++ codes "\n"))

-- `needValue`: the argument behind a flag, for what the flag does with it.
unfoldable pub need_value : Bytes → Option Bytes → (Bytes → Outcome) → Outcome
need_value name none use_value = usage_error (codes "missing value for " ++ name)
need_value name (some v) use_value = use_value v

-- A number that is an integer and not below a bound, for what the flag does with it.
unfoldable pub at_least : Option ℤ → ℤ → Bytes → (ℤ → Outcome) → Outcome
at_least none bound msg use_number = usage_error msg
at_least (some n) bound msg use_number = if ltb_ℤ n bound then usage_error msg else use_number n

module _ (number : Bytes → Option ℤ) where
  unfoldable pub set_concurrency : Config → Bytes → Outcome
  set_concurrency cfg v =
      at_least (number v) (pos 1) (codes "--concurrency must be an integer >= 1")
        (λ n. proceed (record cfg { concurrency = n }))

  unfoldable pub set_timeout : Config → Bytes → Outcome
  set_timeout cfg v =
      at_least (number v) (pos 0) (codes "--timeout must be an integer >= 0")
        (λ n. proceed (record cfg { timeout_ms = n }))

  -- The `switch`, for a flag and the argument behind it. A flag that goes on takes the argument.
  unfoldable pub apply_flag : Config → Bytes → Option Bytes → Outcome
  apply_flag cfg arg value =
      if str_eq arg (codes "--concurrency")
      then need_value (codes "--concurrency") value (set_concurrency cfg)
      else if str_eq arg (codes "--targets")
      then need_value (codes "--targets") value (λ v. proceed (record cfg { targets_path = v }))
      else if str_eq arg (codes "--base-url")
      then need_value (codes "--base-url") value (λ v. proceed (record cfg { base_url = v }))
      else if str_eq arg (codes "--timeout")
      then need_value (codes "--timeout") value (set_timeout cfg)
      else if str_eq arg (codes "-h") || str_eq arg (codes "--help")
      then exits exit_ok
          (codes
            "usage: polyfetch [--concurrency K] [--targets PATH] [--base-url URL] [--timeout MS]\n")
          []
      else usage_error (codes "unknown flag: " ++ arg)

  -- The loop.
  unfoldable pub parse_from : Config → List Bytes → Outcome
  parse_from cfg [] = proceed cfg
  parse_from cfg (arg ∷ []) = apply_flag cfg arg none
  parse_from cfg (arg ∷ v ∷ rest) = elim (apply_flag cfg arg (some v)) [
    | proceed cfg' ↦ parse_from cfg' rest
    | exits code out err ↦ exits code out err
  ]

  unfoldable pub parse_args : List Bytes → Outcome
  parse_args argv = parse_from default_config argv
