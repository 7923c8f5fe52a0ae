-- ===== src/Runner.antt =====
-- The library crate `runner` (runner/src/*.rs).
pub mod Error
pub mod Call
pub mod Resp
pub mod Proc
