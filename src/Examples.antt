-- ===== src/Examples.antt =====
-- Each theorem at a concrete input, with the tests of the definitions.
pub mod Data
pub mod Sessions
pub mod Parsing
pub mod Queue
pub mod Commands
pub mod Archive
pub mod Sync
pub mod Reports
pub mod Pictures
