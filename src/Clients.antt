-- ===== src/Clients.antt =====
-- The four clients side by side: clients/cpp, clients/go, clients/typescript and clients/python.
use polyfetch.Base.{ℕ, ◌≤◌, ◌<◌, ◌^◌, ◌≡◌, true, List, [], map, some, length, Bytes}
use polyfetch.Base.Int.{ℤ, pos_part}
use polyfetch.Fetch.{Record, Curl}
use polyfetch.Json.{Quote, IsEncoder}
use polyfetch.Report.{Sort}
use polyfetch.Report.Expected.{Reply, answer}
use polyfetch.Report.Sorted.{IsStdSort}
use polyfetch.Report.Summary.{ok_size, total}
use polyfetch.Args.{Config, exit_ok}
use polyfetch.Main.{World, setup_of, main}
use polyfetch.Main.Complete.{Completes}
use polyfetch.Main.Served.{IsServed, HasHandles}
use polyfetch.Go.Agree.{IsSha256Hex}
use polyfetch.Go.Fetch as Go
use polyfetch.Go.Served as GoServed
use polyfetch.Go.Pool as GoPool
use polyfetch.Go.Report as GoReport
use polyfetch.TypeScript.Fetch as TypeScript
use polyfetch.TypeScript.Pool as Workers
use polyfetch.TypeScript.Report as TypeScriptReport
use polyfetch.TypeScript.Order.{IsArraySort}
use polyfetch.TypeScript.Conforms as TypeScriptConforms
use polyfetch.Python.Fetch.{HttpClient}
use polyfetch.Python.Run.{PoolMap, ran, run}
use polyfetch.Python.Report as PythonReport
use polyfetch.Python.Order.{IsKeySort}
use polyfetch.Python.Conforms as PythonConforms

-- What a client prints for the targets, where `serve` says what the server answers to each: the program
-- in C++ that gets as far as it can, the Go client when `results` is closed, the TypeScript client when its
-- promise is resolved, and the Python client when its pool raised no exception. For the last three,
-- `Answers` says that every target gets a response, with the status and the whole payload of `serve`; a
-- request that fails or runs out of time is in none of their cases. What the clients use of other code
-- keeps its contract, and the number of targets and the sum of the sizes are less than 2 ^ 63 for Go and at
-- most 2 ^ 53 for TypeScript.
pub data IsPrinted (serve : Bytes → Reply) (targets : List Bytes) : Bytes → Type 1 where
  by_cpp :
      (c : Curl) (world : World c.Handle) (args : List Bytes) (cfg : Config) (m : ℕ) (out : Bytes)
      → Completes c world args cfg targets m
      → IsServed c (setup_of world cfg) targets serve
      → HasHandles (setup_of world cfg)
      → main c world args ≡ some (record { code = exit_ok; out = out; err = [] })
      → IsPrinted serve targets out
  by_go :
      (sha256_hex : Bytes → Bytes) (get : Bytes → Go.Answer) (base_url : Bytes) (sort : Sort)
      (quote : Quote) (k n : ℕ) (s : GoPool.Channels)
      → IsSha256Hex sha256_hex
      → GoServed.Answers get base_url serve
      → IsStdSort sort
      → IsEncoder quote
      → length targets < 2 ^ 63
      → total ok_size (map (answer serve) targets) < 2 ^ 63
      → 1 ≤ k
      → GoPool.Steps (GoServed.Brings sha256_hex get base_url) (GoPool.start k targets) n s
      → s.results_closed ≡ true
      → IsPrinted serve targets (GoReport.write_report quote sort s.records)
  by_typescript :
      (numbers : TypeScript.Numbers) (sha256_hex : Bytes → Bytes) (get : Bytes → TypeScript.Answer)
      (base_url : Bytes) (sort : TypeScriptReport.ArraySort) (quote : Quote) (k m : ℕ)
      (s : Workers.Pool) (rs : List Record)
      → TypeScript.IsDouble numbers
      → IsSha256Hex sha256_hex
      → TypeScriptConforms.Answers get base_url serve
      → IsArraySort sort
      → IsEncoder quote
      → length targets ≤ 2 ^ 53
      → total ok_size (map (answer serve) targets) ≤ 2 ^ 53
      → Workers.Steps
          (TypeScriptConforms.Brings numbers sha256_hex get base_url)
          targets
          (Workers.start k (length targets))
          m
          s
      → s.outcome ≡ Workers.resolved
      → s.results ≡ map some rs
      → IsPrinted serve targets (TypeScriptReport.write_report numbers quote sort rs)
  by_python :
      (http : HttpClient) (sha256_hex : Bytes → Bytes) (pool_map : PoolMap)
      (sort : PythonReport.KeySort) (quote : Quote) (concurrency : ℤ) (made rs : List Record)
      → PythonConforms.Answers http serve
      → IsSha256Hex sha256_hex
      → PythonConforms.IsPoolMap http sha256_hex pool_map
      → IsKeySort sort
      → IsEncoder quote
      → 1 ≤ pos_part concurrency
      → PythonConforms.HasMapped pool_map concurrency targets made
      → run pool_map concurrency targets ≡ ran (map some rs)
      → IsPrinted serve targets (PythonReport.write_report quote sort rs)
