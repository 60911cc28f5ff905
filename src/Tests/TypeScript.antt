-- ===== src/Tests/TypeScript.antt =====
-- Examples for the theorems on the TypeScript client: one worker, two targets.
use polyfetch.Base.{
  ap, ◌^◌, ◌-◌, sym, true, inr, Option, All, if◌then◌else◌, ℕ, ◌+◌, ◌*◌, ◌≡◌, ◌<◌, refl, arith,
  List, [], ◌∷◌, map, min, none, some, flatten, length, get_or, ltb, Bytes, codes,
}
use polyfetch.Base.Int.{ℤ, pos, pos_part, neg_part, sub_ℕ, ◌+ℤ◌, ltb_ℤ}
use polyfetch.Sha256.Standard.{fips_digest}
use polyfetch.Fetch.{Record, request_url}
use polyfetch.Json.{plain_quote}
use polyfetch.Run.{empty_record}
use polyfetch.Contract.{IsReport}
use polyfetch.Report.Expected.{is_success}
use polyfetch.TypeScript.Fetch.{Numbers, IsDouble, Answer, answered, fetch_and_process}
use polyfetch.TypeScript.Pool.{
  idle, Pool, pending, resolved, start, kick_off, assign_next, on_message, fetch, message, Steps,
  here, next,
}
use polyfetch.TypeScript.Weights.{busy, weigh}
use polyfetch.TypeScript.Complete.{Steps-resolved, Steps-progress}
use polyfetch.TypeScript.Order.{IsArraySort}
use polyfetch.TypeScript.Report.{ArraySort, write_report}
use polyfetch.TypeScript.Conforms.{Brings, Answers, Steps-IsReport}
use polyfetch.Targets as Targets
use polyfetch.Targets.{is_space}
use polyfetch.Targets.Split.{IsPrintable}
use polyfetch.Args as Args
use polyfetch.Args.{
  proceed, exit_ok, is_digit, skip_spaces, scan_digits, scan_sign, starts_digit, clamp, strtol,
  is_more,
}
use polyfetch.TypeScript.Targets.{is_empty, read_targets}
use polyfetch.TypeScript.Reads.{read_targets-same}
use polyfetch.TypeScript.Args.{parse_args}
use polyfetch.TypeScript.Flags.{IsLineAlike, parse_args-same}
use polyfetch.TypeScript.Main.{System, resolved_with, main}
use polyfetch.TypeScript.Program.{IsSystem, Completes, main_report}
use polyfetch.Tests.Trim.{trim, trim-IsTrim}
use polyfetch.Tests.InsertionSort.{insertion_sort, insertion_sort-IsStdSort}
use polyfetch.Tests.Main.{replies, read, config, file_read}
use polyfetch.Tests.Samples.{status_for, chunks, targets_file}

abbrev pub numbers : Numbers
numbers = record {
  add = λ a b. a +ℤ b;
  subtract = λ a b. sub_ℕ (pos_part a + neg_part b) (pos_part b + neg_part a);
}

sub-negative : (m n : ℕ) → ltb_ℤ (sub_ℕ m n) (pos 0) ≡ ltb m n
sub-negative m n = ground arith

sub-positive : (m n : ℕ) → ltb_ℤ (pos 0) (sub_ℕ m n) ≡ ltb n m
sub-positive m n = ground arith

pub numbers-IsDouble : IsDouble numbers
numbers-IsDouble = record {
  exact = λ a b le. ground arith;
  negative = λ a b. sub-negative (pos_part a + neg_part b) (pos_part b + neg_part a);
  positive = λ a b. sub-positive (pos_part a + neg_part b) (pos_part b + neg_part a);
}

abbrev pub array_sort : ArraySort
array_sort cmp l = insertion_sort (λ a b. ltb_ℤ (cmp a b) (pos 0)) l

pub array_sort-IsArraySort : IsArraySort array_sort
array_sort-IsArraySort = record {
  sorts = λ cmp l order turns. (
    insertion_sort-IsStdSort.rearranges (λ a b. ltb_ℤ (cmp a b) (pos 0)) l order,
    insertion_sort-IsStdSort.orders (λ a b. ltb_ℤ (cmp a b) (pos 0)) l order,
  );
}

abbrev pub base_url : Bytes
base_url = codes "http://localhost:8080"

abbrev pub get : Bytes → Answer
get address = answered (is_success (status_for address)) (status_for address) chunks none

pub answers : Answers get base_url replies
unfolding flatten request_url
answers t = record {
  chunks = chunks;
  whole = refl;
  same_payload = refl;
  responds = refl;
  bytes = omega arith;
  small = omega arith;
}

abbrev pub fetched : Bytes → Record
fetched t = fetch_and_process numbers fips_digest get base_url t (pos 3)

abbrev Brought : Bytes → Record → Type 0
Brought = Brings numbers fips_digest get base_url

abbrev pub target_a : Bytes
target_a = codes "t/1?delay=5"

abbrev pub target_b : Bytes
target_b = codes "t/2"

abbrev pub settled : Pool
settled = record {
  next_index = 2;
  completed = 2;
  results = some (fetched target_a) ∷ some (fetched target_b) ∷ [];
  workers = idle ∷ [];
  outcome = resolved;
}

pub one_by_one : Steps Brought read (start 1 2) 4 settled
unfolding start on_message assign_next kick_off
one_by_one =
    next
      (next
        (next (next here (fetch _ [] [] 0 (fetched target_a) refl refl (pos 3, refl)))
          (message _ [] [] 0 (fetched target_a) refl refl))
        (fetch _ [] [] 1 (fetched target_b) refl refl (pos 3, refl)))
      (message _ [] [] 1 (fetched target_b) refl refl)

Steps-resolved_example :
    (4 ≡ 2 * 2)
    × ((rs : List Record) × (settled.results ≡ map some rs)
        × (length rs ≡ 2)
        × ((i : ℕ) → i < 2 → Brought (get_or read i []) (get_or rs i empty_record)))
Steps-resolved_example = Steps-resolved Brought read 1 4 settled one_by_one refl

waiting : (start 1 2).outcome ≡ pending
unfolding start
waiting = refl

Steps-progress_example :
    (0 < 2 * 2)
    × ((j : ℕ) × (u : Pool) × Steps Brought read (start 1 2) j u × (u.outcome ≡ resolved))
    × (length (start 1 2).workers ≡ min 1 2)
    × ((start 1 2).next_index < 2 → weigh busy (start 1 2).workers ≡ length (start 1 2).workers)
Steps-progress_example =
    Steps-progress Brought (λ t. (fetched t, (pos 3, refl))) read 1 0 (start 1 2) (omega arith) here
      waiting

Steps-IsReport_example :
    (rs : List Record) × (settled.results ≡ map some rs)
    × IsReport replies read (write_report numbers plain_quote array_sort rs)
unfolding request_url
Steps-IsReport_example =
    Steps-IsReport replies read numbers numbers-IsDouble fips_digest (λ m h. refl) get base_url
      answers array_sort array_sort-IsArraySort plain_quote (λ s h. refl)
      (λ t failed. absurd (failed refl)) (omega arith) (omega arith) (omega arith) 1 4 settled
      one_by_one refl

pub file-IsPrintable : All IsPrintable targets_file
unfolding is_space
file-IsPrintable = ground arith

read_targets-same_example :
    (ts : List Bytes) × (Targets.read_targets (some targets_file) [] ≡ (true, ts))
    × (read_targets trim (some targets_file) ≡ some ts)
read_targets-same_example =
    read_targets-same trim trim-IsTrim targets_file file-IsPrintable (omega arith)

-- `Number` for decimal numerals.
abbrev number : Bytes → Option ℤ
number v = let (n, end) = strtol v in if is_empty end then some n else none

abbrev argv : List Bytes
argv = codes "--concurrency" ∷ codes "1" ∷ []

some_one : (n : ℤ) → some (pos 1) ≡ some n → pos 1 ≡ n
some_one n e = cc e

argv-IsLineAlike : IsLineAlike number argv
unfolding is_digit Args.is_space skip_spaces scan_digits scan_sign starts_digit clamp strtol is_more
argv-IsLineAlike = (
  λ e. (inr (pos 1, refl, refl), λ n read. ap (ltb_ℤ (pos (2 ^ 31 - 1))) (sym (some_one n read))),
  λ e. inr (pos 1, refl, refl),
  tt,
)

parse_args-same_example : parse_args number argv ≡ Args.parse_args argv
parse_args-same_example = parse_args-same number argv argv-IsLineAlike

abbrev system : System
system = record {
  number = number;
  trim = trim;
  numbers = numbers;
  quote = plain_quote;
  sort = array_sort;
  read_file = λ path. some targets_file;
  settle = λ cfg targets. resolved_with (fetched target_a ∷ fetched target_b ∷ []);
}

system-IsSystem : IsSystem system fips_digest
system-IsSystem = record {
  trims = trim-IsTrim;
  double = numbers-IsDouble;
  encoder = λ s h. refl;
  sorts = array_sort-IsArraySort;
  hashes = λ m h. refl;
}

one_parsed : Args.parse_args argv ≡ proceed (config 1)
unfolding is_digit Args.is_space skip_spaces scan_digits scan_sign starts_digit clamp strtol is_more
    Args.set_concurrency Args.need_value Args.apply_flag Args.parse_from Args.parse_args
one_parsed = refl

system-Completes : Completes system fips_digest get argv (config 1) read
system-Completes = record {
  content = targets_file;
  m = 4;
  pool = settled;
  records = fetched target_a ∷ fetched target_b ∷ [];
  alike = argv-IsLineAlike;
  parsed = one_parsed;
  opened = refl;
  printable = file-IsPrintable;
  small = omega arith;
  read = file_read;
  ran = one_by_one;
  done = refl;
  full = refl;
  settled = refl;
}

main_report_example :
    (out : Bytes) × (main system argv ≡ record { code = exit_ok; out = out; err = [] })
    × IsReport replies read out
unfolding request_url
main_report_example =
    main_report replies system fips_digest get argv (config 1) read system-IsSystem system-Completes
      answers (λ t failed. absurd (failed refl)) (omega arith) (omega arith) (omega arith)
