-- ===== src/Python.antt =====
-- The Python client, clients/python: Fetch is fetch.py and process.py, Report is report.py, Targets, Run and
-- Main are polyfetch.py. Reads, Agree, Order, Counts, Conforms and Program compare it with the client in C++
-- and with the contract.
pub mod Fetch
pub mod Report
pub mod Targets
pub mod Reads
pub mod Run
pub mod Agree
pub mod Order
pub mod Counts
pub mod Conforms
pub mod Main
pub mod Program
