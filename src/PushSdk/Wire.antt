-- ===== src/PushSdk/Wire.antt =====
-- What encoding/json makes of the request bodies of internal/pushsdk, and the functions outside the
-- repository that the protocol code calls.
use face_recognition_proxy.Prelude.{ℕ, String, Bytes, Option, List}

-- A Go int.
pub data ℤ : Type 0 where
  pos : ℕ → ℤ
  negsuc : ℕ → ℤ

-- The body's one JSON value with no unknown field; a syntax or type error with its text; a value
-- that something follows.
pub data Decoded {ℓ} (A : Type ℓ) : Type ℓ where
  value : A → Decoded A
  malformed : String → Decoded A
  trailing : Decoded A

pub record EventItem : Type 0 where
  pub uuid : String
  pub data_format : String
  pub payload : Option String

pub record EventEnvelope : Type 0 where
  pub event_num : Option ℤ
  pub event_list : Option (List EventItem)

-- A json.RawMessage that should hold a text.
pub data RawFormat : Type 0 where
  null not_text : RawFormat
  text : String → RawFormat

pub record CommandResultItem : Type 0 where
  pub uuid : String
  pub data_format : Option RawFormat
  pub payload : Option String

pub record CommandResultEnvelope : Type 0 where
  pub command_num : Option ℤ
  pub command_list : Option (List CommandResultItem)

pub record LoginRequest : Type 0 where
  pub username : String
  pub login_password : String

pub data Digest : Type 0 where
  sha1 sha256 : Digest

-- Hashes, the block cipher's CBC mode, media types, query strings, JSON, and the text of a base64
-- error.
pub record Platform : Type 0 where
  pub sha256_sum : Bytes → Bytes
  pub pbkdf2_key : Digest → Bytes → Bytes → ℕ → ℕ → Bytes
  pub cbc_encrypt : Bytes → Bytes → Bytes → Bytes
  pub cbc_decrypt : Bytes → Bytes → Bytes → Bytes
  pub parse_media_type : String → Option String
  pub parse_query : String → List (String × List String)
  pub decode_auth_info : Bytes → Decoded (List ℤ)
  pub decode_login : Bytes → Decoded LoginRequest
  pub decode_events : Bytes → Decoded EventEnvelope
  pub decode_results : Bytes → Decoded CommandResultEnvelope
  pub base64_error : Bytes → String
