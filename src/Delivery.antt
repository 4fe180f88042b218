-- ===== src/Delivery.antt =====
-- Event delivery: internal/delivery/worker.go and internal/store/event_deliveries.go.
pub mod Types
pub mod Backoff
pub mod Receipt
pub mod Queue
pub mod Worker
