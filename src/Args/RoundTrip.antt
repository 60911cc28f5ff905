-- ===== src/Args/RoundTrip.antt =====
-- A configuration, written as arguments and parsed.
use polyfetch.Base.{
  ℕ, ◌+◌, ◌-◌, ◌*◌, ◌^◌, ◌<◌, ◌≡◌, refl, ◌∙◌, arith, true, false, List, [], ◌∷◌, some, length,
  Bytes, codes, All,
}
use polyfetch.Base.Int.{ℤ, pos, negsuc, ◌≤ℤ◌}
use polyfetch.Base.Decimal.{
  show_ℕ, show_ℤ, IsDigit, value, show_ℕ-IsDigit, value-show_ℕ, length-show_ℕ_pos,
}
use polyfetch.Args.{
  Config, default_config, proceed, is_digit, is_space, skip_spaces, scan_digits, scan_sign,
  starts_digit, clamp, strtol, is_more, set_concurrency, set_timeout, need_value, apply_flag,
  parse_from, parse_args,
}
use polyfetch.Args.Valid.{IsValid}

IsDigit-is_digit : (c : ℕ) → IsDigit c → is_digit c ≡ true
unfolding is_digit
IsDigit-is_digit c h = ground (arith, h)

scan_digits-value : (n : ℕ) (ds : Bytes) → All IsDigit ds → scan_digits n ds ≡ (value n ds, [])
unfolding scan_digits
scan_digits-value n [] h = refl
scan_digits-value n (d ∷ ds) h =
    rw (IsDigit-is_digit d h.0, scan_digits) (scan_digits-value (n * 10 + (d - b'0')) ds h.1)

strtol_digits :
    (ds : Bytes) → 0 < length ds → All IsDigit ds → strtol ds ≡ (clamp false (value 0 ds), [])
unfolding strtol skip_spaces scan_sign starts_digit
strtol_digits [] lt h = absurd (omega arith)
strtol_digits (d ∷ ds) lt h =
    let no_space : is_space d ≡ false = unfold is_space in ground (arith, h.0) in
    let no_sign : scan_sign (d ∷ ds) ≡ (false, d ∷ ds) = unfold scan_sign in ground (arith, h.0) in
    rw (no_space, skip_spaces, no_sign, scan_digits-value 0 (d ∷ ds) h, IsDigit-is_digit d h.0)

-- `strtol` inverts the decimal notation of a number below 2 ^ 63.
strtol-show_ℤ : (n : ℕ) → n < 2 ^ 63 → strtol (show_ℤ (pos n)) ≡ (pos n, [])
unfolding show_ℤ
strtol-show_ℤ n h =
    strtol_digits (show_ℕ n) (length-show_ℕ_pos n) (show_ℕ-IsDigit n)
    ∙ rw (value-show_ℕ n) (unfold clamp in ground arith)

-- The arguments that say all of a configuration.
abbrev pub arguments : Config → List Bytes
arguments cfg =
    codes "--concurrency"
    ∷ show_ℤ cfg.concurrency
    ∷ codes "--targets"
    ∷ cfg.targets_path
    ∷ codes "--base-url"
    ∷ cfg.base_url
    ∷ codes "--timeout"
    ∷ show_ℤ cfg.timeout_ms
    ∷ []

set_concurrency-show_ℤ :
    (cfg : Config) (k : ℤ)
    → pos 1 ≤ℤ k
    → k ≤ℤ pos (2 ^ 31 - 1)
    → set_concurrency cfg (show_ℤ k) ≡ proceed (record cfg { concurrency = k })
unfolding set_concurrency is_more
set_concurrency-show_ℤ cfg (negsuc n) lo hi = absurd (omega arith)
set_concurrency-show_ℤ cfg (pos n) lo hi = rw (strtol-show_ℤ n (omega arith)) (ground arith)

set_timeout-show_ℤ :
    (cfg : Config) (t : ℤ)
    → pos 0 ≤ℤ t
    → t ≤ℤ pos (2 ^ 63 - 1)
    → set_timeout cfg (show_ℤ t) ≡ proceed (record cfg { timeout_ms = t })
unfolding set_timeout is_more
set_timeout-show_ℤ cfg (negsuc n) lo hi = absurd (omega arith)
set_timeout-show_ℤ cfg (pos n) lo hi = rw (strtol-show_ℤ n (omega arith)) (ground arith)

parse_from_step :
    (cfg cfg' : Config) (arg v : Bytes) (rest : List Bytes)
    → apply_flag cfg arg (some v) ≡ proceed cfg'
    → parse_from cfg (arg ∷ v ∷ rest) ≡ parse_from cfg' rest
unfolding parse_from
parse_from_step cfg cfg' arg v rest e = rw (e, parse_from)

-- A valid configuration that is written as arguments, the numbers in decimal, is parsed back.
pub parse_args-arguments : (cfg : Config) → IsValid cfg → parse_args (arguments cfg) ≡ proceed cfg
unfolding parse_args
parse_args-arguments cfg h =
    parse_from_step default_config with_concurrency (codes "--concurrency") (show_ℤ cfg.concurrency)
      _
      (unfold apply_flag need_value in
        set_concurrency-show_ℤ default_config cfg.concurrency h.some_thread h.fits_int)
    ∙ parse_from_step with_concurrency with_path (codes "--targets") cfg.targets_path _
        (unfold apply_flag need_value in refl)
    ∙ parse_from_step with_path with_url (codes "--base-url") cfg.base_url _
        (unfold apply_flag need_value in refl)
    ∙ parse_from_step with_url cfg (codes "--timeout") (show_ℤ cfg.timeout_ms) [] (
        unfold apply_flag need_value in
        set_timeout-show_ℤ with_url cfg.timeout_ms h.no_past h.fits_long)
    ∙ unfold parse_from in refl
  where
    with_concurrency : Config
    with_concurrency = record default_config { concurrency = cfg.concurrency }

    with_path : Config
    with_path = record with_concurrency { targets_path = cfg.targets_path }

    with_url : Config
    with_url = record with_path { base_url = cfg.base_url }
