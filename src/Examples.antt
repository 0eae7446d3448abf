-- ===== src/Examples.antt =====
-- The theorems at concrete inputs: a job with one host, a host's files, and a log.
pub mod Fixtures
mod Raft
mod Machines
mod Hosts
