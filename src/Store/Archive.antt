-- ===== src/Store/Archive.antt =====
-- The archive of the events that terminals report: internal/store/store.go, InsertDeviceEventBatch and
-- the projections.
pub mod Tables
pub mod Insert
pub mod Batch
pub mod Again
pub mod Queues
pub mod Backfill
