-- ===== src/Lib.antt =====
-- The clients of polyfetch, in clients/cpp, clients/go, clients/typescript and clients/python, and the
-- server, in server, that they read from. A client reads a list of targets, fetches them with a bounded
-- number of threads, goroutines or processes, hashes each payload while it streams in, and writes a
-- sorted report as JSON lines with a footer, which README.md pins to the byte. All four are
-- modelled from their arguments to their exit codes. The parts and their files:
--
-- - Sha256: clients/cpp/src/sha256.cpp and clients/cpp/include/sha256.hpp. `Sha256` is the object with
--   its hash value, bit count, buffer of 64 bytes and fill level; `reset`, `update`, `process_block`
--   and `hex_digest` are its member functions, with a helper for each of their loops. Buffer, Blocks,
--   Stream, Digest and Hex follow a message through buffer, blocks, padding and digits; Rotate,
--   Schedule and Rounds are about the arithmetic of a block. Fips, Constants and Standard define
--   SHA-256 as FIPS 180-4 does, from the primes to the digits, without the code; Words32 and Conforms
--   join the two.
-- - Process: clients/cpp/src/process.cpp and clients/cpp/include/process.hpp. `StreamProcessor` has a
--   hash and two counters, which `consume` keeps.
-- - Fetch: clients/cpp/src/fetch.cpp and clients/cpp/include/fetch.hpp. `fetch_and_process` makes one
--   request and turns its end into a `Record`; libcurl calls `write_cb`, which calls `consume`.
-- - Report: clients/cpp/src/report.cpp and clients/cpp/include/report.hpp. `write_report` sorts the
--   records, writes their lines with `write_record` and `json_escape`, and counts them. Reader is a
--   JSON reader that stands on its own; Escape, Line, Order, Sorted and Summary go from a character to
--   the whole report, and Contract is about the records that a fetch hands to it. Expected is the
--   record that the contract of the clients asks for, from the reply of the server alone.
-- - Args, Targets, Run, Threads and Main: clients/cpp/src/main.cpp. `parse_args` gives the
--   configuration, `read_targets` the targets, `run` the records, and `main` puts them together with
--   `write_report` and the exit codes. `run` is modelled twice. In Run, a step of a thread is one
--   access to what the threads share, the atomic counter or a slot of the results, a schedule is any
--   list of threads, and what a thread gets for an index is an argument. In Threads, each thread has
--   its libcurl handle as well, which its fetches change and which it gives up behind its loop; `main`
--   uses this one. A fetch and the write of its slot are one step, since the handle and the slot are
--   the thread's own. Refine joins the two, Whole says what libcurl and the network are taken to do,
--   Handles is about the handles. Main/Complete is the program from end to end, Main/Exit its exit
--   codes, and Main/Deterministic compares two runs of it.
--   Main/Served is about a server that answers each target in one way, Main/Prints and Main/Conforms
--   about the texts.
-- - Json and Contract: README.md, sections 7 and 8, in its own terms: the members of a line, compact JSON
--   for an encoder that is an argument, the order, the footer. `IsReport` says of a text that it is a
--   report on some targets, for a server that answers each target in one way; Contract/Unique is about two
--   reports, Contract/Plain about texts that need no escape, Contract/Joined about lines that are joined.
-- - Go: clients/go. Fetch is `fetchAndProcess` and `processStream`, Report is `writeReport`, Main is
--   `parseArgs`, `readTargets` and `main`. The goroutines and channels of `run` are a step relation, Pool;
--   Progress, Invariant, Steps and Complete are about its runs. Agree and SameReport compare it with the
--   client in C++, Served and Conforms with the contract, and Program is the whole.
-- - TypeScript: clients/typescript/src. Fetch is `fetchAndProcess` and `StreamProcessor`, Args, Targets and
--   Main are `parseArgs`, `readTargets` and `main`, and Report is `writeReport`. Pool is `run` and its
--   workers as a step relation, in which each handler of the main thread is one step; Weights, Invariant,
--   Runs and Complete are about its runs. Flags and Reads compare command line and targets file with those of
--   the client in C++; Agree, Order, Counts and Conforms compare record, order, footer and report with the
--   contract, and Program is the whole.
-- - Python: clients/python. Fetch is `Fetcher.fetch` with the connection that a worker keeps, Targets is
--   `read_targets`, Report is `write_report`, Run is `run`, and Main is `parse_args` and `main`. Reads,
--   Agree, Order, Counts, Conforms and Program are as for TypeScript.
-- - Clients: any two of the four side by side, for requests that all get a response.
-- - Server: `handlePayload` of server/main.go and what it calls, the other end of the connection.
--   Payload and Handler are about the bytes that it writes.
-- - Base: lists, octets, bits, signed integers, decimal notation and results, for all of them. Tests
--   runs the model on concrete inputs.
--
-- Machine integers: unsigned words are native numbers with their wrap written out; signed integers
-- have `none` for an overflow, which C++ leaves undefined. Bytes are numbers, and strings lists of
-- bytes.
--
-- Fuel: `process_blocks` has as much as its input is long, and needs one for 64 bytes; `pad_zeros` has
-- 64, and at most 63 zero bytes are missing; `read_lines` has as much as the file is long, and a line
-- takes at least one character; `digits` has one more than the number; `fill_buf` and `write_body`
-- have as much as there are bytes to fill or to write.
--
-- Parameters: libcurl (a handle, its options, a transfer as the deliveries it makes and its code, the
-- status), the clock, the files, `curl_global_init`, the schedule of the threads, and `std::sort`, of
-- which the theorems take the contract: a rearrangement in the order of a strict weak order. Of
-- libcurl they take that a delivery is as long as it says, and where it matters a bound on a payload.
-- For the other clients: their HTTP libraries, of which the theorems take that a response brings the
-- status and the payload of the server; their SHA-256, of which they take that it is the one of
-- FIPS 180-4; their sorts; their JSON encoders, of which they take that a text that needs no escape is
-- written as it is; `flag`, `bufio.Scanner` and `strings.TrimSpace` of Go; `Number`, the arithmetic and `trim` of TypeScript; `argparse`, `strip`, text files and
-- `ex.map` of Python. For the server: `strconv.Atoi`, `hash/fnv`,
-- `math/rand/v2`, and which calls of `Write` succeed.
--
-- Not modelled: stream flags, `curl_global_cleanup`, and what `curl_easy_cleanup` does with a handle
-- that a thread gives up, which have no result; the failure of an allocation or of the start of a
-- thread or a process; that a write of a client to its output stream fails; the
-- scripts; of the server, its start
-- and stop.
pub mod Base
pub mod Sha256
pub mod Process
pub mod Fetch
pub mod Report
pub mod Args
pub mod Targets
pub mod Run
pub mod Threads
pub mod Json
pub mod Contract
pub mod Main
pub mod Go
pub mod TypeScript
pub mod Python
pub mod Clients
pub mod Server
mod Tests
