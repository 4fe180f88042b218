-- ===== src/Encoding.antt =====
-- The standard encodings that the gateway uses: lower-case hexadecimal (encoding/hex) and padded
-- standard base64 (encoding/base64, StdEncoding).
pub mod Hex
pub mod Base64
