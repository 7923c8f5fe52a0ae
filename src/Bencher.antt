-- ===== src/Bencher.antt =====
-- runner/src/bin/bencher: the YCSB benchmark.
pub mod Number
pub mod Calls
pub mod ScanCount
pub mod Words
pub mod Stats
pub mod Merge
pub mod Feeder
pub mod Inserted
pub mod Advances
pub mod Finishes
pub mod Bench
pub mod Phases
pub mod Failure
mod Tests
