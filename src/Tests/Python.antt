-- ===== src/Tests/Python.antt =====
-- Examples for the theorems on the Python client: two targets.
use polyfetch.Base.{
  true, All, ℕ, zero, suc, ◌<◌, ◌≡◌, refl, sym, ◌∙◌, ap, arith, ◌++◌, length, get_or, List, [], ◌∷◌,
  map, none, some, flatten, Bytes, codes,
}
use polyfetch.Base.Int.{pos}
use polyfetch.Sha256.Standard.{fips_digest}
use polyfetch.Fetch.{Record, request_url}
use polyfetch.Run.{empty_record}
use polyfetch.Json.{plain_quote}
use polyfetch.Contract.{IsReport}
use polyfetch.Python.Fetch.{answered, HttpClient, fetch}
use polyfetch.Python.Order.{IsKeySort}
use polyfetch.Python.Report.{KeySort, pair_lt, write_report}
use polyfetch.Python.Run.{PoolMap, mapped, ran, run}
use polyfetch.Python.Conforms.{IsPoolMap, Answers, run-IsReport}
use polyfetch.Targets as Targets
use polyfetch.Targets.{is_space}
use polyfetch.Targets.Split.{IsPrintable}
use polyfetch.Args.{proceed, exit_ok}
use polyfetch.Python.Main.{System, main}
use polyfetch.Python.Program.{IsSystem, Completes, main_conforms}
use polyfetch.Tests.Trim.{trim, trim-IsTrim}
use polyfetch.Tests.InsertionSort.{insertion_sort, insertion_sort-IsStdSort}
use polyfetch.Tests.Main.{replies, read, config}
use polyfetch.Tests.Samples.{status_for, chunks}

-- A connection with no state, to a server that answers as in the other examples.
abbrev http : HttpClient
http = record {
  Connection = Unit;
  connect = tt;
  request = λ conn path.
      (answered (status_for (codes "http://localhost:8080" ++ path)) chunks none, conn);
}

answers : Answers http replies
unfolding flatten request_url
answers conn t = record {
  chunks = chunks;
  whole = refl;
  same_payload = refl;
  responds = refl;
  bytes = omega arith;
}

abbrev fetched : Bytes → Record
fetched t = (fetch http fips_digest none t (pos 3)).0

-- Every target is fetched on a new connection.
abbrev pool_map : PoolMap
pool_map workers targets = mapped (map fetched targets)

get_or-fetched :
    (targets : List Bytes) (i : ℕ)
    → i < length targets
    → get_or (map fetched targets) i empty_record ≡ fetched (get_or targets i [])
get_or-fetched [] i lt = absurd (omega arith)
get_or-fetched (t ∷ targets) zero lt = refl
get_or-fetched (t ∷ targets) (suc i) lt = get_or-fetched targets i (omega arith)

length-fetched : (targets : List Bytes) → length (map fetched targets) ≡ length targets
length-fetched [] = refl
length-fetched (t ∷ targets) = ap suc (length-fetched targets)

mapped-injective : {l m : List Record} → mapped l ≡ mapped m → l ≡ m
mapped-injective e = cc e

pool_map-IsPoolMap : IsPoolMap http fips_digest pool_map
pool_map-IsPoolMap workers targets made some_worker e =
    let same : map fetched targets ≡ made = mapped-injective e in
    (
      ap length (sym same) ∙ length-fetched targets,
      λ i lt.
          (none, pos 3, ap (λ l. get_or l i empty_record) (sym same) ∙ get_or-fetched targets i lt),
    )

abbrev key_sort : KeySort
key_sort key l = insertion_sort (λ a b. pair_lt (key a) (key b)) l

key_sort-IsKeySort : IsKeySort key_sort
key_sort-IsKeySort = record {
  sorts = λ key l order. (
    insertion_sort-IsStdSort.rearranges (λ a b. pair_lt (key a) (key b)) l order,
    insertion_sort-IsStdSort.orders (λ a b. pair_lt (key a) (key b)) l order,
  );
}

run-IsReport_example :
    (rs : List Record) × (run pool_map (pos 8) read ≡ ran (map some rs))
    × IsReport replies read (write_report plain_quote key_sort rs)
run-IsReport_example =
    run-IsReport replies read http answers fips_digest (λ m h. refl) pool_map pool_map-IsPoolMap
      key_sort key_sort-IsKeySort plain_quote (λ s h. refl) (λ t failed. absurd (failed refl))
      (omega arith) (pos 8) (map fetched read) (omega arith) (λ more. refl)

abbrev unix_file : Bytes
unix_file = codes "# all\n t/1\n\tt/2"

unix_file-IsPrintable : All IsPrintable unix_file
unfolding is_space
unix_file-IsPrintable = ground arith

abbrev argv : List Bytes
argv = codes "--concurrency" ∷ codes "2" ∷ []

abbrev two : List Bytes
two = codes "t/1" ∷ codes "t/2" ∷ []

abbrev system : System
system = record {
  argparse = λ args. proceed (config 2);
  error = λ msg. codes "polyfetch: error: " ++ msg;
  strip = trim;
  decode = λ s. some s;
  quote = plain_quote;
  sort = key_sort;
  read_file = λ path. some unix_file;
  pool_map = λ cfg. pool_map;
  traceback = codes "Traceback";
}

system-IsSystem : IsSystem system http fips_digest (config 2)
system-IsSystem = record {
  strips = trim-IsTrim;
  text_mode = λ s h no_return. refl;
  encoder = λ s h. refl;
  sorts = key_sort-IsKeySort;
  hashes = λ m h. refl;
  maps = pool_map-IsPoolMap;
}

two_found : Targets.read_targets (some unix_file) [] ≡ (true, two)
unfolding Targets.is_space Targets.find_first_not_of Targets.find_last_not_of Targets.substr
    Targets.get_line Targets.is_skipped Targets.add_line Targets.read_lines Targets.read_targets
two_found = refl

system-Completes : Completes system argv (config 2) two
system-Completes = record {
  content = unix_file;
  made = map fetched two;
  parsed = refl;
  some_worker = refl;
  some_time = refl;
  opened = refl;
  printable = unix_file-IsPrintable;
  no_return = ground arith;
  small = omega arith;
  found = two_found;
  has_mapped = λ more. refl;
}

main_conforms_example :
    (out : Bytes) × (main system argv ≡ record { code = exit_ok; out = out; err = [] })
    × IsReport replies two out
main_conforms_example =
    main_conforms replies system http fips_digest argv (config 2) two system-IsSystem
      system-Completes answers (λ t failed. absurd (failed refl)) (omega arith)
