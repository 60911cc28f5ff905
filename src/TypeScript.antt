-- ===== src/TypeScript.antt =====
-- The TypeScript client, clients/typescript/src: Args, Targets and Main are polyfetch.ts without `run`, Pool
-- is `run` and worker.ts, Fetch is fetch.ts and process.ts, Report is report.ts. Weights, Invariant, Runs
-- and Complete are about Pool, Flags and Reads about command line and targets file, Agree, Order, Counts,
-- Conforms and Program about the report.
pub mod Fetch
pub mod Pool
pub mod Report
pub mod Targets
pub mod Args
pub mod Flags
pub mod Reads
pub mod Weights
pub mod Invariant
pub mod Runs
pub mod Complete
pub mod Agree
pub mod Order
pub mod Counts
pub mod Conforms
pub mod Main
pub mod Program
