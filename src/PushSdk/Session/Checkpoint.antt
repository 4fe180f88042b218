-- ===== src/PushSdk/Session/Checkpoint.antt =====
-- A session's checkpoint: what is written is what is read back.
use face_recognition_proxy.Prelude.{
  ℕ, ◌/◌, ◌*◌, Option, none, ◌≡◌, refl, true, false, not, ◌&&◌, some, Bytes, arith, if◌then◌else◌,
  nat_eq, string_eq, ◌==◌, Bool-cases, inl, inr,
}
use face_recognition_proxy.Prelude.Table.{get, get-put_same}
use face_recognition_proxy.Result.{ok}
use face_recognition_proxy.Config.{session_fingerprint}
use face_recognition_proxy.PushSdk.Session.{
  Session, PayloadMode, plaintext, encrypted, mode_text, mode_of, persistent_state,
  restored_session, to_microsecond_if_any, valid_stored_session, key_derivation_iterations,
  is_lower_hex_64, is_alpha_numeric_64, is_none, is_empty,
}
use face_recognition_proxy.Store.Tables.{Db}
use face_recognition_proxy.Store.Terminals.{upsert_push_sdk_session}
use face_recognition_proxy.Store.Terminals.Effects.{upsert-eq-ok}

-- The salt and the login challenge are 64 letters or digits, and the next challenge is 64
-- hexadecimal digits exactly when the session is logged in.
abbrev pub IsWellFormed : Session → Type 0
IsWellFormed s =
    (is_alpha_numeric_64 s.salt ≡ true)
    × (is_alpha_numeric_64 s.login_challenge ≡ true)
    × (s.iterations ≡ key_derivation_iterations)
    × ((if s.authenticated
          then is_lower_hex_64 s.next_challenge && not (is_none s.next_challenge_at)
          else is_empty s.next_challenge && is_none s.next_challenge_at)
        ≡ true)

-- A session after a restart: offline, and with its times to the microsecond.
abbrev pub read_back : Session → Session
read_back session = record session {
  created_at = session.created_at / 1000 * 1000;
  next_challenge_at = elim session.next_challenge_at [
    | none ↦ none
    | some at ↦ some (at / 1000 * 1000)
  ];
  online = false;
}

module _ (sha256 : Bytes → Bytes) where
  pub checkpoint_saved :
      {Q : Type 0} (session : Session) (now : ℕ) (db db' : Db Q) (a : Unit {0})
      → upsert_push_sdk_session (persistent_state sha256 session) now db ≡ ok (db', a)
      → get session.terminal.serial_number db'.pushsdk_sessions
        ≡ some (persistent_state sha256 session)
  unfolding persistent_state
  checkpoint_saved session now db db' a h =
      rw (upsert-eq-ok (persistent_state sha256 session) now db db' a h) (get-put_same _ _ _)

  mode_of-mode_text : (mode : PayloadMode) → mode_of (mode_text mode) ≡ mode
  mode_of-mode_text plaintext = refl
  mode_of-mode_text encrypted = refl

  times_kept :
      (at : Option ℕ)
      → to_microsecond_if_any at ≡ elim at [ none ↦ none | some t ↦ some (t / 1000 * 1000) ]
  times_kept none = refl
  times_kept (some t) = refl

  pub restored-persistent :
      (session : Session)
      → restored_session session.terminal (persistent_state sha256 session) ≡ read_back session
  unfolding restored_session persistent_state
  restored-persistent session =
      rw (mode_of-mode_text session.payload_mode, times_kept session.next_challenge_at)

  mode_known :
      (mode : PayloadMode)
      → (not (mode_text mode == "plaintext") && not (mode_text mode == "encrypted")) ≡ false
  mode_known plaintext = refl
  mode_known encrypted = refl

  pub valid-persistent :
      (session : Session)
      → is_lower_hex_64 (session_fingerprint sha256 session.terminal) ≡ true
      → IsWellFormed session
      → valid_stored_session (persistent_state sha256 session) ≡ true
  unfolding valid_stored_session persistent_state
  valid-persistent session hex (salt, login, iterations, next) =
      rw (hex, mode_known session.payload_mode, salt, login)
        (elim (Bool-cases session.authenticated) [ inl e ↦ ground arith | inr e ↦ ground arith ])
