-- ===== src/Tests.antt =====
-- The model on concrete inputs: test vectors, and for each theorem an input at which it applies.
mod Samples
mod InsertionSort
mod Trim
mod Sha256
mod Fetch
mod Report
mod Targets
mod Args
mod Run
mod Threads
mod Main
mod Go
mod TypeScript
mod Python
mod Clients
mod Server
