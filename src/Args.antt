-- ===== src/Args.antt =====
-- `parse_args` and its configuration, of clients/cpp/src/main.cpp. Where the program would leave,
-- the result has its exit code and what it has written to the two streams.
pub mod Valid
pub mod RoundTrip
use polyfetch.Base.{
  ℕ, ◌+◌, ◌-◌, ◌*◌, ◌^◌, Bool, true, false, ◌&&◌, ◌||◌, not, List, [], ◌∷◌, ◌++◌, Option, none,
  some, ltb, leb, ◌==◌, if◌then◌else◌, Bytes, codes,
}
use polyfetch.Base.Int.{ℤ, pos, negsuc, sub_ℕ, ltb_ℤ}
use polyfetch.Report.{str_eq}

pub record Config : Type 0 where
  pub concurrency : ℤ
  pub targets_path : Bytes
  pub base_url : Bytes
  pub timeout_ms : ℤ

abbrev pub default_config : Config
default_config = record {
  concurrency = pos 8;
  targets_path = codes "shared/targets.txt";
  base_url = codes "http://localhost:8080";
  timeout_ms = pos 30000;
}

pub data Outcome : Type 0 where
  proceed : Config → Outcome
  exits : (code : ℕ) → (out err : Bytes) → Outcome

abbrev pub exit_ok : ℕ
exit_ok = 0

abbrev pub exit_run_fail : ℕ
exit_run_fail = 1

abbrev pub exit_usage : ℕ
exit_usage = 2

unfoldable pub usage_error : Bytes → Outcome
usage_error msg = exits exit_usage [] (codes "polyfetch: " ++ (msg ++ codes "\n"))

unfoldable pub is_digit : ℕ → Bool
is_digit c = leb b'0' c && leb c b'9'

-- `isspace`
unfoldable pub is_space : ℕ → Bool
is_space c = c == b' ' || (leb 0x09 c && leb c 0x0d)

unfoldable pub skip_spaces : Bytes → Bytes
skip_spaces [] = []
skip_spaces (c ∷ s) = elim (is_space c) [ true ↦ skip_spaces s | false ↦ c ∷ s ]

-- The digits behind the number `n`, and what follows them.
unfoldable pub scan_digits : ℕ → Bytes → ℕ × Bytes
scan_digits n [] = (n, [])
scan_digits n (c ∷ s) = elim (is_digit c) [
  | true ↦ scan_digits (n * 10 + (c - b'0')) s
  | false ↦ (n, c ∷ s)
]

unfoldable pub starts_digit : Bytes → Bool
starts_digit [] = false
starts_digit (c ∷ s) = is_digit c

-- The sign, and what is behind it.
unfoldable pub scan_sign : Bytes → Bool × Bytes
scan_sign [] = (false, [])
scan_sign (c ∷ s) =
    if c == b'-' then (true, s) else if c == b'+' then (false, s) else (false, c ∷ s)

-- What does not fit in a `long` is its greatest or least value.
unfoldable pub clamp : Bool → ℕ → ℤ
clamp negative n =
    if negative
    then (if leb n (2 ^ 63) then sub_ℕ 0 n else negsuc (2 ^ 63 - 1))
    else if ltb n (2 ^ 63)
    then pos n
    else pos (2 ^ 63 - 1)

-- `std::strtol` with base 10: the number, and what `end` points to.
unfoldable pub strtol : Bytes → ℤ × Bytes
strtol v =
    let (negative, s) = scan_sign (skip_spaces v) in
    let (n, rest) = scan_digits 0 s in
    if starts_digit s then (clamp negative n, rest) else (pos 0, v)

-- `*end != '\0'`
unfoldable pub is_more : Bytes → Bool
is_more [] = false
is_more (c ∷ s) = true

unfoldable pub set_concurrency : Config → Bytes → Outcome
set_concurrency cfg v =
    let (n, end) = strtol v in
    if is_more end || (ltb_ℤ n (pos 1) || ltb_ℤ (pos (2 ^ 31 - 1)) n)
    then usage_error (codes "--concurrency must be an integer >= 1")
    else proceed (record cfg { concurrency = n })

unfoldable pub set_timeout : Config → Bytes → Outcome
set_timeout cfg v =
    let (n, end) = strtol v in
    if is_more end || ltb_ℤ n (pos 0)
    then usage_error (codes "--timeout must be an integer >= 0")
    else proceed (record cfg { timeout_ms = n })

-- `need_value`: the argument behind a flag, for what the flag does with it.
unfoldable pub need_value : Bytes → Option Bytes → (Bytes → Outcome) → Outcome
need_value name none use_value = usage_error (codes "missing value for " ++ name)
need_value name (some v) use_value = use_value v

abbrev pub help_text : Bytes
help_text =
    codes "usage: polyfetch [--concurrency K] [--targets PATH] [--base-url URL] [--timeout MS]\n"

-- The body of the loop, for a flag and the argument behind it. A flag that goes on takes the
-- argument.
unfoldable pub apply_flag : Config → Bytes → Option Bytes → Outcome
apply_flag cfg arg value =
    if str_eq arg (codes "--concurrency")
    then need_value (codes "--concurrency") value (set_concurrency cfg)
    else if str_eq arg (codes "--targets")
    then need_value (codes "--targets") value (λ v. proceed (record cfg { targets_path = v }))
    else if str_eq arg (codes "--base-url")
    then need_value (codes "--base-url") value (λ v. proceed (record cfg { base_url = v }))
    else if str_eq arg (codes "--timeout")
    then need_value (codes "--timeout") value (set_timeout cfg)
    else if str_eq arg (codes "-h") || str_eq arg (codes "--help")
    then exits exit_ok help_text []
    else usage_error (codes "unknown flag: " ++ arg)

-- The loop over the arguments behind the program's name.
unfoldable pub parse_from : Config → List Bytes → Outcome
parse_from cfg [] = proceed cfg
parse_from cfg (arg ∷ []) = apply_flag cfg arg none
parse_from cfg (arg ∷ v ∷ rest) = elim (apply_flag cfg arg (some v)) [
  | proceed cfg' ↦ parse_from cfg' rest
  | exits code out err ↦ exits code out err
]

unfoldable pub parse_args : List Bytes → Outcome
parse_args args = parse_from default_config args
