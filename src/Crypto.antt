-- ===== src/Crypto.antt =====
-- internal/pushsdk/crypto.go
pub mod Padding
pub mod Random
