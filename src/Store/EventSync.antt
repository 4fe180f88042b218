-- ===== src/Store/EventSync.antt =====
-- The synchronisation of a terminal's own event archive: internal/store/access_event_sync.go. A run
-- reads the terminal's clock, then pages through the archive; each answer is a command's result.
pub mod Tables
pub mod Search
pub mod Pages
pub mod Complete
pub mod Touches
pub mod Results
pub mod Closed
pub mod Start
pub mod Progress
pub mod Steps
pub mod Reading
pub mod Rows
pub mod Outcome
pub mod Ends
