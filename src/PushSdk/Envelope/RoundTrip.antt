-- ===== src/PushSdk/Envelope/RoundTrip.antt =====
-- What the gateway encrypts, it decrypts.
use face_recognition_proxy.Prelude.{ℕ, ◌%◌, ◌≡◌, Bytes, length, All, arith}
use face_recognition_proxy.Result.{ok}
use face_recognition_proxy.Config.{Terminal}
use face_recognition_proxy.Crypto.Padding.{
  block_size, pad_pkcs7, unpad-pad, length-pad_pkcs7, pad_pkcs7-IsByte,
}
use face_recognition_proxy.Encoding.Base64
use face_recognition_proxy.Encoding.Hex
use face_recognition_proxy.PushSdk.Wire.{Platform}
use face_recognition_proxy.PushSdk.Envelope.{EncryptionParameters, derive_key, decrypt, encrypt}

-- The block cipher in CBC mode, on whole blocks: it gives bytes, keeps the length, and is undone.
pub record IsBlockCipher (p : Platform) : Type 0 where
  pub gives_bytes :
      (key iv plain : Bytes) → All Hex.IsByte plain → All Hex.IsByte (p.cbc_encrypt key iv plain)
  pub keeps_length :
      (key iv plain : Bytes)
      → length plain % block_size ≡ 0
      → length (p.cbc_encrypt key iv plain) ≡ length plain
  pub undone :
      (key iv plain : Bytes)
      → length plain % block_size ≡ 0
      → p.cbc_decrypt key iv (p.cbc_encrypt key iv plain) ≡ plain

-- With a block cipher that gives bytes, keeps the length of whole blocks and is undone by its
-- decryption: under one salt, iteration count and parameters, decryption gives back every byte
-- sequence that was encrypted.
pub decrypt-encrypt :
    (p : Platform)
    → IsBlockCipher p
    → (terminal : Terminal) (salt : Bytes) (iterations : ℕ) (params : EncryptionParameters)
      (plain : Bytes)
    → All Hex.IsByte plain
    → decrypt p terminal salt iterations params (encrypt p terminal salt iterations params plain)
      ≡ ok plain
unfolding decrypt encrypt
decrypt-encrypt p cipher terminal salt iterations params plain bytes =
    let key = derive_key p terminal salt iterations params in
    let (whole, longer, _) = length-pad_pkcs7 plain in
    ground (
      arith,
      Base64.decode-encode _
          (cipher.gives_bytes key params.iv (pad_pkcs7 plain) (pad_pkcs7-IsByte plain bytes)),
      cipher.keeps_length key params.iv (pad_pkcs7 plain) whole,
      cipher.undone key params.iv (pad_pkcs7 plain) whole,
      unpad-pad plain,
      whole,
      longer,
    )
