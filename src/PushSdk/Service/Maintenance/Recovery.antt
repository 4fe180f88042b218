-- ===== src/PushSdk/Service/Maintenance/Recovery.antt =====
-- A restart: which checkpoints come back as sessions, and what a round of maintenance changes.
use face_recognition_proxy.Prelude.{
  ℕ, ◌≡◌, ◌⊎◌, true, false, some, List, Bytes, arith, length, All, bytes_beq_refl, nat_eq, inl, inr,
}
use face_recognition_proxy.Prelude.Table.{put}
use face_recognition_proxy.Result.{ok}
use face_recognition_proxy.Encoding.Hex
use face_recognition_proxy.Config.{Terminal, Config, session_fingerprint, terminal_by_serial_number}
use face_recognition_proxy.Crypto.Random.{
  random_alpha_numeric, random_alpha_numeric-IsAlphanumeric, random_custom_challenge,
  random_custom_challenge-IsLowerHex,
}
use face_recognition_proxy.PushSdk.Session.{
  Session, PayloadMode, persistent_state, restored_session, login_challenge_expired,
  is_lower_hex_64,
}
use face_recognition_proxy.PushSdk.Session.Checkpoint.{
  restored-persistent, read_back, valid-persistent, IsWellFormed,
}
use face_recognition_proxy.PushSdk.Service.AuthInfo.{new_session}
use face_recognition_proxy.PushSdk.Service.Login.{issued_session}
use face_recognition_proxy.PushSdk.Service.Maintenance.{matches, restore_session}
use face_recognition_proxy.PushSdk.Wire.{Platform}
use face_recognition_proxy.PushSdk.World.{Env, World}
use face_recognition_proxy.Store.Tables.{PushSdkSession}

-- A SHA-256 sum is 32 bytes.
abbrev pub IsSha256 : (Bytes → Bytes) → Type 0
IsSha256 sha256 = (input : Bytes) → (length (sha256 input) ≡ 32) × All Hex.IsByte (sha256 input)

digest_hex :
    (sha256 : Bytes → Bytes)
    → IsSha256 sha256
    → (input : Bytes) → is_lower_hex_64 (Hex.encode (sha256 input)) ≡ true
digest_hex sha256 digest input =
    let (size, bytes) = digest input in
    ground (arith, Hex.length-encode (sha256 input), Hex.encode-is_lower_hex (sha256 input) bytes)

fingerprint_hex :
    (sha256 : Bytes → Bytes)
    → IsSha256 sha256
    → (terminal : Terminal) → is_lower_hex_64 (session_fingerprint sha256 terminal) ≡ true
unfolding session_fingerprint
fingerprint_hex sha256 digest terminal = digest_hex sha256 digest _

-- The session that AuthInfo makes of 64 random letters for the salt and 64 for the challenge is
-- well formed.
pub new_session-IsWellFormed :
    (terminal : Terminal) (mode : PayloadMode) (now : ℕ) (blocks blocks' : List Bytes)
    (salt challenge : Bytes)
    → random_alpha_numeric 64 blocks ≡ some salt
    → random_alpha_numeric 64 blocks' ≡ some challenge
    → IsWellFormed (new_session terminal mode salt challenge now)
new_session-IsWellFormed terminal mode now blocks blocks' salt challenge h h' = ground (
  arith,
  random_alpha_numeric-IsAlphanumeric 64 blocks salt h,
  random_alpha_numeric-IsAlphanumeric 64 blocks' challenge h',
)

-- If the reader delivers blocks of 32 bytes, a well-formed session with a new random challenge is
-- well formed and logged in.
pub issued_session-IsWellFormed :
    (session : Session) (now : ℕ) (blocks : List Bytes) (next : Bytes)
    → IsWellFormed session
    → All (λ block. (length block ≡ 32) × All Hex.IsByte block) blocks
    → random_custom_challenge blocks ≡ some next
    → IsWellFormed (issued_session session next now)
issued_session-IsWellFormed session now blocks next good read h =
    ground (arith, random_custom_challenge-IsLowerHex blocks next read h)

module _ (p : Platform) (digest : IsSha256 p.sha256_sum) where
  checkpoint_matches :
      (session : Session)
      → IsWellFormed session
      → matches p session.terminal (persistent_state p.sha256_sum session) ≡ true
  unfolding persistent_state
  checkpoint_matches session good =
      rw (bytes_beq_refl (session_fingerprint p.sha256_sum session.terminal)) (
        valid-persistent p.sha256_sum session (fingerprint_hex p.sha256_sum digest session.terminal)
          good)

  module _ {Q : Type 0} (env : Env) (config : Config) (now : ℕ) (w : World Q) where
    abbrev Restores : Session → Type 0
    Restores session =
        (session.authenticated ≡ true) ⊎ (login_challenge_expired (read_back session) now ≡ false)

    restored :
        (stored : PushSdkSession) (terminal : Terminal)
        → terminal_by_serial_number config stored.terminal_serial_number ≡ some terminal
        → matches p terminal stored ≡ true
        → (session : Session) → restored_session terminal stored ≡ session
        → (session.authenticated ≡ true) ⊎ (login_challenge_expired session now ≡ false)
        → restore_session env p config now stored w
          ≡ (ok tt, record w { sessions = put terminal.push_sdk_serial session w.sessions })
    unfolding restore_session
    restored stored terminal known good session e (inl live) = ground arith
    restored stored terminal known good session e (inr live) = ground arith

    -- Where a SHA-256 sum is 32 bytes and the session's terminal is configured as it was: the
    -- checkpoint of a well-formed session that is logged in, or whose login challenge, counted
    -- from the whole microsecond of its creation, has not expired, is restored as the session
    -- that was saved, except that it is offline and that its two times are cut to whole
    -- microseconds, and nothing else changes.
    pub restore_session-persistent_state :
        (session : Session)
        → IsWellFormed session
        → Restores session
        → terminal_by_serial_number config session.terminal.serial_number ≡ some session.terminal
        → restore_session env p config now (persistent_state p.sha256_sum session) w ≡ (
          ok tt,
          record w {
            sessions = put session.terminal.push_sdk_serial (read_back session) w.sessions;
          },
        )
    unfolding persistent_state login_challenge_expired
    restore_session-persistent_state session good live known =
        restored (persistent_state p.sha256_sum session) session.terminal known
          (checkpoint_matches session good) (read_back session)
          (restored-persistent p.sha256_sum session) live
