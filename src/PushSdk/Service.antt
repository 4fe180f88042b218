-- ===== src/PushSdk/Service.antt =====
-- internal/pushsdk/service.go: the handlers, the maintenance and the recovery of sessions.
pub mod Types
pub mod Payload
pub mod Steps
pub mod AuthInfo
pub mod Login
pub mod Exchange
pub mod Maintenance
pub mod Http
