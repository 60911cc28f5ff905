-- ===== src/Go.antt =====
-- The Go client, clients/go: what it reads, fetches, collects, orders and prints. Fetch is one target, Pool
-- the goroutines and channels of `run`, Report the order, the lines and the footer, Main the flags, the
-- targets file and `main`. Progress, Invariant, Steps and Complete are about `run`, Counts about the footer,
-- Agree and SameReport compare a record and the whole report with those of the client in C++, and Served,
-- Conforms and Program are about the contract of the report.
pub mod Fetch
pub mod Pool
pub mod Report
pub mod Progress
pub mod Invariant
pub mod Steps
pub mod Complete
pub mod Counts
pub mod Agree
pub mod Served
pub mod SameReport
pub mod Conforms
pub mod Main
pub mod Program
