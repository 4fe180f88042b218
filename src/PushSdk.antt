-- ===== src/PushSdk.antt =====
-- internal/pushsdk: the terminal protocol.
pub mod Wire
pub mod Route
pub mod Events
pub mod Commands
pub mod Session
pub mod Envelope
pub mod World
pub mod Service
