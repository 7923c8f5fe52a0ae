-- ===== src/Fuzzer/History.antt =====
-- The consistency checker, runner/src/bin/fuzzer/history.rs.
pub mod Spans
pub mod Check
pub mod Update
pub mod Trimming
pub mod Same
pub mod Minimum
pub mod Stable
pub mod Whole
pub mod Agrees
pub mod Refinement
pub mod Runs
pub mod Search
pub mod Linear
pub mod Scan
pub mod Complete
pub mod Online
pub mod Decides
pub mod Offline
pub mod Pushed
pub mod Sequential
pub mod Clients
pub mod Linearizable
pub mod NoAlarm
