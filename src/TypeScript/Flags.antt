-- ===== src/TypeScript/Flags.antt =====
-- The command line of the TypeScript client, beside that of the client in C++.
use polyfetch.Base.{
  ◌^◌, ◌-◌, ◌≡◌, refl, ◌∙◌, ap, ◌⊎◌, inl, inr, Bool, true, false, List, [], ◌∷◌, Option, none, some,
  Bytes, Bool-cases, codes, if◌then◌else◌,
}
use polyfetch.Base.Int.{ℤ, pos, ltb_ℤ}
use polyfetch.Report.{str_eq}
use polyfetch.Args.{Config, Outcome, proceed, exits, strtol, is_more}
use polyfetch.Args as Args
use polyfetch.TypeScript.Args.{
  usage_error, need_value, at_least, set_concurrency, set_timeout, apply_flag, parse_from,
  parse_args,
}

-- `Number` and `strtol` take a text alike: both refuse it, or both read one integer.
abbrev pub IsReadAlike : (Bytes → Option ℤ) → Bytes → Type 0
IsReadAlike number v =
    ((number v ≡ none) × (is_more (strtol v).1 ≡ true))
    ⊎ ((n : ℤ) × (number v ≡ some n) × (strtol v ≡ (n, [])))

-- What `Number` reads in a text is no larger than an `int` can be.
abbrev pub FitsInt : (Bytes → Option ℤ) → Bytes → Type 0
FitsInt number v = (n : ℤ) → number v ≡ some n → ltb_ℤ (pos (2 ^ 31 - 1)) n ≡ false

-- Every value of `--concurrency` and of `--timeout` is taken alike, and what is read for `--concurrency`
-- fits an `int`.
abbrev pub IsLineAlike : (Bytes → Option ℤ) → List Bytes → Type 0
IsLineAlike number [] = Unit
IsLineAlike number (arg ∷ []) = Unit
IsLineAlike number (arg ∷ v ∷ rest) =
    (str_eq arg (codes "--concurrency") ≡ true → IsReadAlike number v × FitsInt number v)
    × (str_eq arg (codes "--timeout") ≡ true → IsReadAlike number v)
    × IsLineAlike number rest

module _ (number : Bytes → Option ℤ) where
  set_concurrency-same :
      (cfg : Config) (v : Bytes)
      → IsReadAlike number v
      → FitsInt number v
      → set_concurrency number cfg v ≡ Args.set_concurrency cfg v
  unfolding set_concurrency Args.set_concurrency at_least usage_error Args.usage_error is_more
  set_concurrency-same cfg v (inl (refused, more)) fits = rw (refused, more) refl
  set_concurrency-same cfg v (inr (n, read, same)) fits = elim (Bool-cases (ltb_ℤ n (pos 1))) [
    | inl low ↦ rw (read, same, low) refl
    | inr high ↦ rw (read, same, high, fits n read) refl
  ]

  set_timeout-same :
      (cfg : Config) (v : Bytes)
      → IsReadAlike number v
      → set_timeout number cfg v ≡ Args.set_timeout cfg v
  unfolding set_timeout Args.set_timeout at_least usage_error Args.usage_error is_more
  set_timeout-same cfg v (inl (refused, more)) = rw (refused, more) refl
  set_timeout-same cfg v (inr (n, read, same)) = elim (Bool-cases (ltb_ℤ n (pos 0))) [
    | inl low ↦ rw (read, same, low) refl
    | inr high ↦ rw (read, same, high) refl
  ]

  apply_flag-none :
      (cfg : Config) (arg : Bytes) → apply_flag number cfg arg none ≡ Args.apply_flag cfg arg none
  unfolding apply_flag Args.apply_flag need_value Args.need_value usage_error Args.usage_error
  apply_flag-none cfg arg = refl

  if-same :
      (b : Bool) {x x' : Outcome} (y : Outcome)
      → (b ≡ true → x ≡ x')
      → (if b then x else y) ≡ (if b then x' else y)
  if-same true y same = same refl
  if-same false y same = refl

  else-same :
      (b : Bool) (x : Outcome) {y y' : Outcome}
      → y ≡ y'
      → (if b then x else y) ≡ (if b then x else y')
  else-same b x {y} {y'} same = ap (λ (o : Outcome). if b then x else o) same

  apply_flag-some :
      (cfg : Config) (arg v : Bytes)
      → (str_eq arg (codes "--concurrency") ≡ true → IsReadAlike number v × FitsInt number v)
      → (str_eq arg (codes "--timeout") ≡ true → IsReadAlike number v)
      → apply_flag number cfg arg (some v) ≡ Args.apply_flag cfg arg (some v)
  unfolding apply_flag Args.apply_flag need_value Args.need_value usage_error Args.usage_error
  apply_flag-some cfg arg v threads time =
      if-same (str_eq arg (codes "--concurrency")) _
        (λ e. let (alike, fits) = threads e in set_concurrency-same cfg v alike fits)
      ∙ else-same (str_eq arg (codes "--concurrency")) _ (
          else-same (str_eq arg (codes "--targets")) _ (
            else-same (str_eq arg (codes "--base-url")) _
              (if-same (str_eq arg (codes "--timeout")) _ (λ e. set_timeout-same cfg v (time e)))))

  parse_from-same :
      (cfg : Config) (argv : List Bytes)
      → IsLineAlike number argv
      → parse_from number cfg argv ≡ Args.parse_from cfg argv
  unfolding parse_from Args.parse_from
  parse_from-same cfg [] h = refl
  parse_from-same cfg (arg ∷ []) h = apply_flag-none cfg arg
  parse_from-same cfg (arg ∷ v ∷ rest) (threads, time, h) =
      rw (parse_from, apply_flag-some cfg arg v threads time)
        (by_flag (λ cfg'. parse_from-same cfg' rest h) (Args.apply_flag cfg arg (some v)))
    where
      by_flag :
          ((cfg' : Config) → parse_from number cfg' rest ≡ Args.parse_from cfg' rest)
          → (o : Outcome)
          → (elim o as (λ o. Outcome) [
            | proceed cfg' ↦ parse_from number cfg' rest
            | exits code out err ↦ exits code out err
          ])
            ≡ (elim o as (λ o. Outcome) [
              | proceed cfg' ↦ Args.parse_from cfg' rest
              | exits code out err ↦ exits code out err
            ])
      by_flag same (proceed cfg') = same cfg'
      by_flag same (exits code out err) = refl

  -- The TypeScript client and the client in C++ take a command line alike, with the same configuration, or
  -- the same exit code and the same texts on both streams. Conditions: every value of `--concurrency` and
  -- of `--timeout` is refused by both `Number` and `strtol`, or read by both as the same integer, and what
  -- is read for `--concurrency` is at most 2 ^ 31 - 1.
  pub parse_args-same :
      (argv : List Bytes) → IsLineAlike number argv → parse_args number argv ≡ Args.parse_args argv
  unfolding parse_args Args.parse_args
  parse_args-same argv h = parse_from-same _ argv h
