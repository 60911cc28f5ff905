-- ===== src/Args/Valid.antt =====
-- Every command line: a valid configuration, or an exit code of the contract.
use polyfetch.Base.{
  ◌-◌, ◌^◌, ◌≡◌, refl, arith, ◌⊎◌, inl, inr, Bool, true, false, ◌||◌, List, [], ◌∷◌, ◌++◌, Option,
  none, some, if◌then◌else◌, Bytes, codes, Bool-cases,
}
use polyfetch.Base.Int.{pos, ltb_ℤ, ◌≤ℤ◌}
use polyfetch.Report.{str_eq}
use polyfetch.Args.{
  Config, default_config, Outcome, proceed, exits, exit_ok, exit_usage, usage_error, clamp, strtol,
  is_more, set_concurrency, set_timeout, need_value, help_text, apply_flag, parse_from, parse_args,
}

-- An `int` from 1 on, and a `long` from 0 on.
pub record IsValid (cfg : Config) : Type 0 where
  pub some_thread : pos 1 ≤ℤ cfg.concurrency
  pub fits_int : cfg.concurrency ≤ℤ pos (2 ^ 31 - 1)
  pub no_past : pos 0 ≤ℤ cfg.timeout_ms
  pub fits_long : cfg.timeout_ms ≤ℤ pos (2 ^ 63 - 1)

-- The program goes on with a valid configuration, or it leaves: with 0 and the help, or with 2 and a
-- message.
abbrev pub IsOutcome : Outcome → Type 0
IsOutcome (proceed cfg) = IsValid cfg
IsOutcome (exits code out err) =
    ((code ≡ exit_ok) × (out ≡ help_text) × (err ≡ []))
    ⊎ ((code ≡ exit_usage)
        × (out ≡ [])
        × ((msg : Bytes) × (err ≡ codes "polyfetch: " ++ (msg ++ codes "\n"))))

usage_error-IsOutcome : (msg : Bytes) → IsOutcome (usage_error msg)
unfolding usage_error
usage_error-IsOutcome msg = inr (refl, refl, (msg, refl))

strtol-bound : (v : Bytes) → (strtol v).0 ≤ℤ pos (2 ^ 63 - 1)
unfolding strtol clamp
strtol-bound v = ground arith

set_concurrency-IsOutcome :
    (cfg : Config) (v : Bytes) → IsValid cfg → IsOutcome (set_concurrency cfg v)
unfolding set_concurrency
set_concurrency-IsOutcome cfg v h =
    elim (Bool-cases (
      is_more (strtol v).1
      || (ltb_ℤ (strtol v).0 (pos 1) || ltb_ℤ (pos (2 ^ 31 - 1)) (strtol v).0))) [
        | inl bad ↦ rw bad (usage_error-IsOutcome _)
        | inr good ↦ rw good (record {
          some_thread = ground arith;
          fits_int = ground arith;
          no_past = h.no_past;
          fits_long = h.fits_long;
        })
      ]

set_timeout-IsOutcome : (cfg : Config) (v : Bytes) → IsValid cfg → IsOutcome (set_timeout cfg v)
unfolding set_timeout
set_timeout-IsOutcome cfg v h =
    elim (Bool-cases (is_more (strtol v).1 || ltb_ℤ (strtol v).0 (pos 0))) [
      | inl bad ↦ rw bad (usage_error-IsOutcome _)
      | inr good ↦ rw good (record {
        some_thread = h.some_thread;
        fits_int = h.fits_int;
        no_past = ground arith;
        fits_long = strtol-bound v;
      })
    ]

need_value-IsOutcome :
    (name : Bytes) (value : Option Bytes) (use_value : Bytes → Outcome)
    → ((v : Bytes) → IsOutcome (use_value v))
    → IsOutcome (need_value name value use_value)
unfolding need_value
need_value-IsOutcome name none use_value h =
    usage_error-IsOutcome (codes "missing value for " ++ name)
need_value-IsOutcome name (some v) use_value h = h v

if-IsOutcome :
    (b : Bool) (x y : Outcome) → IsOutcome x → IsOutcome y → IsOutcome (if b then x else y)
if-IsOutcome true x y hx hy = hx
if-IsOutcome false x y hx hy = hy

apply_flag-IsOutcome :
    (cfg : Config) (arg : Bytes) (value : Option Bytes)
    → IsValid cfg
    → IsOutcome (apply_flag cfg arg value)
unfolding apply_flag
apply_flag-IsOutcome cfg arg value h =
    if-IsOutcome (str_eq arg (codes "--concurrency")) _ _
      (need_value-IsOutcome _ value (set_concurrency cfg) (λ v. set_concurrency-IsOutcome cfg v h))
      (if-IsOutcome (str_eq arg (codes "--targets")) _ _
        (need_value-IsOutcome _ value _ (λ v. same_numbers h))
        (if-IsOutcome (str_eq arg (codes "--base-url")) _ _
          (need_value-IsOutcome _ value _ (λ v. same_numbers h))
          (if-IsOutcome (str_eq arg (codes "--timeout")) _ _
            (need_value-IsOutcome _ value (set_timeout cfg) (λ v. set_timeout-IsOutcome cfg v h))
            (if-IsOutcome (str_eq arg (codes "-h") || str_eq arg (codes "--help")) _ _
              (inl (refl, refl, refl)) (usage_error-IsOutcome (codes "unknown flag: " ++ arg))))))
  where
    same_numbers :
        {path address : Bytes}
        → IsValid cfg
        → IsValid (record cfg { targets_path = path; base_url = address })
    same_numbers valid = record {
      some_thread = valid.some_thread;
      fits_int = valid.fits_int;
      no_past = valid.no_past;
      fits_long = valid.fits_long;
    }

parse_from-IsOutcome :
    (cfg : Config) (args : List Bytes) → IsValid cfg → IsOutcome (parse_from cfg args)
unfolding parse_from
parse_from-IsOutcome cfg [] h = h
parse_from-IsOutcome cfg (arg ∷ []) h = apply_flag-IsOutcome cfg arg none h
parse_from-IsOutcome cfg (arg ∷ v ∷ rest) h =
    next (apply_flag cfg arg (some v)) (apply_flag-IsOutcome cfg arg (some v) h)
      (λ cfg' h'. parse_from-IsOutcome cfg' rest h')
  where
    next :
        (o : Outcome)
        → IsOutcome o
        → ((cfg' : Config) → IsValid cfg' → IsOutcome (parse_from cfg' rest))
        → IsOutcome (elim o [
          | proceed cfg' ↦ parse_from cfg' rest
          | exits code out err ↦ exits code out err
        ])
    next (proceed cfg') h' go = go cfg' h'
    next (exits code out err) h' go = h'

-- For every command line, `parse_args` gives a configuration with a concurrency from 1 to 2 ^ 31 - 1
-- and a timeout from 0 to 2 ^ 63 - 1, or it leaves with code 0, the help and no message, or with
-- code 2, no output and a message.
pub parse_args-IsOutcome : (args : List Bytes) → IsOutcome (parse_args args)
unfolding parse_args
parse_args-IsOutcome args = parse_from-IsOutcome default_config args (record {
  some_thread = omega arith;
  fits_int = omega arith;
  no_past = omega arith;
  fits_long = omega arith;
})
