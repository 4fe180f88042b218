-- ===== src/PushSdk/Envelope.antt =====
-- Keys, digests and the encrypted payload of internal/pushsdk/crypto.go. The hashes and the block
-- cipher are those of the platform.
pub mod RoundTrip
use face_recognition_proxy.Prelude.{
  ℕ, ◌%◌, Bool, true, false, not, ◌||◌, Option, none, some, List, [], ◌∷◌, ◌++◌, Bytes, String,
  codes, utf8, decimal, bytes_beq, nat_eq, string_eq, ◌==◌, ◌&&◌, if◌then◌else◌, length, all,
  is_hex,
}
use face_recognition_proxy.Result.{Result, ok, err, ◌>>=◌, ◌>>◌, refuse, require}
use face_recognition_proxy.Config.{Terminal}
use face_recognition_proxy.Crypto.Padding.{
  PaddingError, invalid_padded_plaintext_length, invalid_padding, block_size, pad_pkcs7,
  unpad_pkcs7,
}
use face_recognition_proxy.Encoding.Base64
use face_recognition_proxy.Encoding.Hex
use face_recognition_proxy.PushSdk.Wire.{Digest, sha1, sha256, Platform}

pub record EncryptionParameters : Type 0 where
  pub security_version : ℕ
  pub iv : Bytes
  pub random : String

unfoldable pub parse_encryption_parameters :
    String → String → String → ℕ → Result String EncryptionParameters
parse_encryption_parameters security iv random expected_security = do
  refuse (security == "" || iv == "" || random == "") "security, iv, and random must all be present"
  refuse (not (bytes_beq (utf8 security) (decimal expected_security)))
      "security version is not negotiated"
  refuse (not (length (codes iv) == 32 && all is_hex (codes iv)))
      "iv must be exactly 32 hexadecimal characters"
  refuse (not (length (utf8 random) == 16)) "random must be exactly 16 UTF-8 bytes"
  decoded ← require (Hex.decode (codes iv)) "decode iv"
  ok (record { security_version = expected_security; iv = decoded; random = random })

-- loginPasswordHash; `none` is its panic, which a validated configuration excludes.
unfoldable pub login_password_hash : String → Option Digest
login_password_hash digest =
    if digest == "sha1" then some sha1 else if digest == "sha256" then some sha256 else none

module _ (p : Platform) where
  unfoldable pub password_hash : Terminal → Bytes → Bytes
  password_hash terminal salt =
      Hex.encode (p.sha256_sum (utf8 terminal.username ++ (salt ++ utf8 terminal.password)))

  unfoldable pub expected_login_password : Terminal → Bytes → Bytes → ℕ → Option Bytes
  unfolding login_password_hash
  expected_login_password terminal salt challenge iterations =
      elim (login_password_hash terminal.login_password_digest) [
        | none ↦ none
        | some digest ↦ some (
            Hex.encode
              (p.pbkdf2_key digest (password_hash terminal salt ++ challenge) salt iterations 64))
      ]

  unfoldable pub expected_custom_auth : Terminal → Bytes → Bytes → Bytes
  expected_custom_auth terminal salt challenge =
      Hex.encode (p.sha256_sum (password_hash terminal salt ++ challenge))

  unfoldable pub derive_key : Terminal → Bytes → ℕ → EncryptionParameters → Bytes
  derive_key terminal salt iterations params =
      p.pbkdf2_key sha256 (password_hash terminal salt ++ utf8 params.random) salt iterations
        (if params.security_version == 4 then 32 else 16)

  abbrev padding_text : PaddingError → String
  padding_text invalid_padded_plaintext_length = "invalid padded plaintext length"
  padding_text invalid_padding = "invalid PKCS#7 padding"

  abbrev unpadded : Result PaddingError Bytes → Result String Bytes
  unpadded (ok plain) = ok plain
  unpadded (err e) = err (padding_text e)

  -- aes.NewCipher accepts a key of 16 or 32 bytes, which `derive_key` asks for.
  unfoldable pub decrypt : Terminal → Bytes → ℕ → EncryptionParameters → Bytes → Result String Bytes
  decrypt terminal salt iterations params body = do
    encoded ← require (Base64.decode body) (p.base64_error body)
    refuse (length encoded == 0 || not (length encoded % block_size == 0))
        "ciphertext has invalid AES-CBC length"
    unpadded
        (unpad_pkcs7 (p.cbc_decrypt (derive_key terminal salt iterations params) params.iv encoded))

  unfoldable pub encrypt : Terminal → Bytes → ℕ → EncryptionParameters → Bytes → Bytes
  encrypt terminal salt iterations params plain =
      Base64.encode
        (p.cbc_encrypt (derive_key terminal salt iterations params) params.iv (pad_pkcs7 plain))
