-- ===== src/PushSdk/Session.antt =====
-- The session of internal/pushsdk/session.go, its deadlines, its checkpoint, and what `Restore` asks
-- of a checkpoint. A zero time is `none`.
pub mod Checkpoint
use face_recognition_proxy.Prelude.{
  ℕ, ◌/◌, ◌+◌, ◌*◌, Bool, true, false, not, ◌&&◌, ◌||◌, Option, none, some, List, [], ◌∷◌, Bytes,
  String, leb, nat_eq, string_eq, ◌==◌, if◌then◌else◌, length, all, is_alphanumeric, is_lower_hex,
}
use face_recognition_proxy.Config.{Terminal, session_fingerprint}
use face_recognition_proxy.Store.Tables.{PushSdkSession}

pub data PayloadMode : Type 0 where
  plaintext encrypted : PayloadMode

abbrev pub is_encrypted : PayloadMode → Bool
is_encrypted plaintext = false
is_encrypted encrypted = true

-- `string(mode)` and `PayloadMode(text)`
abbrev pub mode_text : PayloadMode → String
mode_text plaintext = "plaintext"
mode_text encrypted = "encrypted"

abbrev pub mode_of : String → PayloadMode
mode_of mode = if mode == "encrypted" then encrypted else plaintext

pub record Session : Type 0 where
  pub terminal : Terminal
  pub salt : Bytes
  pub login_challenge : Bytes
  pub next_challenge : Bytes
  pub iterations : ℕ
  pub payload_mode : PayloadMode
  pub created_at : ℕ
  pub next_challenge_at : Option ℕ
  pub authenticated : Bool
  pub online : Bool

abbrev pub second : ℕ
second = 1_000_000_000

abbrev pub key_derivation_iterations : ℕ
key_derivation_iterations = 4096

-- One minute.
abbrev pub session_idle_timeout : ℕ
session_idle_timeout = 60 * second

-- `!now.Before(createdAt + 3 * commandInterval)`
unfoldable pub login_challenge_expired : Session → ℕ → Bool
login_challenge_expired s now =
    leb (s.created_at + s.terminal.command_interval_seconds * 3 * second) now

unfoldable pub is_idle : Session → ℕ → Bool
is_idle s now = elim s.next_challenge_at [
  | none ↦ true
  | some at ↦ leb (at + session_idle_timeout) now
]

unfoldable pub persistent_state : (Bytes → Bytes) → Session → PushSdkSession
persistent_state sha256 s = record {
  terminal_serial_number = s.terminal.serial_number;
  configuration_fingerprint = session_fingerprint sha256 s.terminal;
  payload_mode = mode_text s.payload_mode;
  salt = s.salt;
  login_challenge = s.login_challenge;
  next_challenge = s.next_challenge;
  iterations = s.iterations;
  created_at = s.created_at;
  next_challenge_at = s.next_challenge_at;
  authenticated = s.authenticated;
}

-- `^[0-9a-f]{64}$`
abbrev pub is_lower_hex_64 : Bytes → Bool
is_lower_hex_64 cs = length cs == 64 && all is_lower_hex cs

-- `^[0-9A-Za-z]{64}$`
abbrev pub is_alpha_numeric_64 : Bytes → Bool
is_alpha_numeric_64 cs = length cs == 64 && all is_alphanumeric cs

abbrev pub is_none {ℓ} : {A : Type ℓ} → Option A → Bool
is_none none = true
is_none (some _) = false

abbrev pub is_empty : Bytes → Bool
is_empty [] = true
is_empty (_ ∷ _) = false

unfoldable pub valid_stored_session : PushSdkSession → Bool
valid_stored_session s =
    if not (is_lower_hex_64 s.configuration_fingerprint)
      || (not (s.payload_mode == "plaintext") && not (s.payload_mode == "encrypted"))
      || not (is_alpha_numeric_64 s.salt)
      || not (is_alpha_numeric_64 s.login_challenge)
      || not (s.iterations == key_derivation_iterations)
    then false
    else if not s.authenticated
    then is_empty s.next_challenge && is_none s.next_challenge_at
    else is_lower_hex_64 s.next_challenge && not (is_none s.next_challenge_at)

-- A TIMESTAMPTZ column keeps whole microseconds, and the rest of a time is dropped.
abbrev pub to_microsecond : ℕ → ℕ
to_microsecond at = at / 1000 * 1000

abbrev pub to_microsecond_if_any : Option ℕ → Option ℕ
to_microsecond_if_any none = none
to_microsecond_if_any (some at) = some (to_microsecond at)

-- What `Restore` builds from a checkpoint as the columns have kept it; a restored session is offline.
unfoldable pub restored_session : Terminal → PushSdkSession → Session
restored_session terminal stored = record {
  terminal = terminal;
  salt = stored.salt;
  login_challenge = stored.login_challenge;
  next_challenge = stored.next_challenge;
  iterations = stored.iterations;
  payload_mode = mode_of stored.payload_mode;
  created_at = to_microsecond stored.created_at;
  next_challenge_at = to_microsecond_if_any stored.next_challenge_at;
  authenticated = stored.authenticated;
  online = false;
}
