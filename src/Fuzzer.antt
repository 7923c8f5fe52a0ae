-- ===== src/Fuzzer.antt =====
-- The fuzz tester, runner/src/bin/fuzzer/*.rs.
pub mod History
pub mod Outside
pub mod Random
pub mod KnownKeys
pub mod Driver
pub mod Forward
pub mod Main
pub mod Samples
mod Tests
mod Scenarios
