-- ===== src/Tests/Args.antt =====
-- Examples for the theorems on the command line.
use polyfetch.Base.{◌≡◌, refl, arith, [], ◌∷◌, codes}
use polyfetch.Base.Int.{pos}
use polyfetch.Args.{
  default_config, proceed, exits, usage_error, is_digit, is_space, skip_spaces, scan_digits,
  scan_sign, starts_digit, clamp, strtol, is_more, set_concurrency, set_timeout, need_value,
  apply_flag, parse_from, parse_args,
}
use polyfetch.Args.RoundTrip.{arguments, parse_args-arguments}
use polyfetch.Args.Valid.{IsValid, IsOutcome, parse_args-IsOutcome}

-- `--concurrency 0` leaves with 2.
no_threads :
    parse_args (codes "--concurrency" ∷ codes "0" ∷ [])
    ≡ exits 2 [] (codes "polyfetch: --concurrency must be an integer >= 1\n")
unfolding usage_error is_digit is_space skip_spaces scan_digits scan_sign starts_digit clamp strtol
    is_more set_concurrency need_value apply_flag parse_from parse_args
no_threads = refl

-- An empty timeout is taken as 0.
empty_timeout :
    parse_args (codes "--timeout" ∷ [] ∷ [])
    ≡ proceed (record default_config { timeout_ms = pos 0 })
unfolding skip_spaces scan_digits scan_sign starts_digit clamp strtol is_more set_timeout need_value
    apply_flag parse_from parse_args
empty_timeout = refl

parse_args-IsOutcome_example : IsOutcome (parse_args (codes "--timeout" ∷ codes "5x" ∷ []))
parse_args-IsOutcome_example = parse_args-IsOutcome (codes "--timeout" ∷ codes "5x" ∷ [])

default-IsValid : IsValid default_config
default-IsValid = record {
  some_thread = omega arith;
  fits_int = omega arith;
  no_past = omega arith;
  fits_long = omega arith;
}

parse_args-arguments_example : parse_args (arguments default_config) ≡ proceed default_config
parse_args-arguments_example = parse_args-arguments default_config default-IsValid
