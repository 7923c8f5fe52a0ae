-- ===== src/RefCli.antt =====
-- The reference client, refcli/src/main.rs.
pub mod Types
pub mod Input
pub mod Output
pub mod Main
pub mod Handler
mod Tests
