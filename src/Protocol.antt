-- ===== src/Protocol.antt =====
-- The line protocol between the runner and a client process: what one side writes, the other
-- side reads. `Calls`: runner to client; `Resps`: client to runner.
pub mod Wire
pub mod Calls
pub mod Lines
pub mod Resps
pub mod Blank
pub mod ScanEnd
pub mod Session
pub mod Values
pub mod System
pub mod Thread
mod Tests
mod SystemTests
