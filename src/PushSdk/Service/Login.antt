-- ===== src/PushSdk/Service/Login.antt =====
-- `login` and `expireLoginChallenge`.
pub mod Replay
use face_recognition_proxy.Prelude.{
  ℕ, Bool, true, false, not, ◌||◌, Option, none, some, List, [], ◌∷◌, Bytes, String, concat, utf8,
  bytes_beq, string_eq, ◌==◌, if◌then◌else◌,
}
use face_recognition_proxy.Result.{Result, ok, err, refuse, require}
use face_recognition_proxy.Config.{Terminal}
use face_recognition_proxy.Crypto.Random.{random_custom_challenge}
use face_recognition_proxy.Protocol.{Failure, protocol, internal, bad_request, invalid_session}
use face_recognition_proxy.PushSdk.Envelope.{EncryptionParameters, expected_login_password}
use face_recognition_proxy.PushSdk.Session.{Session, login_challenge_expired}
use face_recognition_proxy.PushSdk.Service.Payload.{payload_for_session}
use face_recognition_proxy.PushSdk.Service.Steps.{
  event, negotiation_fields, lookup_session, persist_session, transition,
}
use face_recognition_proxy.PushSdk.Service.Types.{Request, Reply, logged_in}
use face_recognition_proxy.PushSdk.Wire.{
  Decoded, value, malformed, trailing, LoginRequest, Platform,
}
use face_recognition_proxy.PushSdk.World.{
  Env, Step, pure, raise, lift, attempt, save, forget, publish, active_inc, clock, random,
  transaction, ◌>>=◌, ◌>>◌,
}
use face_recognition_proxy.Store.Tables.{Activity}
use face_recognition_proxy.Store.Terminals.{expire_push_sdk_login_challenge}

abbrev pub expired_reason : String
expired_reason = "PushSDK login challenge expired; waiting for device authentication"

-- The credentials of a login, and why they are refused.
abbrev wrong_credentials : Failure
wrong_credentials =
    protocol
      (record { status = 401; code = ""; message = "Login credentials are invalid"; reason = "" })

-- hmac.Equal; without a digest `expectedLoginPassword` panics.
abbrev password_matches : Option Bytes → String → Bool
password_matches none password = false
password_matches (some expected) password = bytes_beq (utf8 password) expected

module _ (p : Platform) where
  pub check_login : Terminal → Session → Decoded LoginRequest → Result Failure (Unit {0})
  check_login terminal session (malformed e) = err (bad_request (concat ("Login body: " ∷ e ∷ [])))
  check_login terminal session trailing = err (bad_request "Login body: trailing JSON value")
  check_login terminal session (value login) =
      refuse
        (not (login.username == terminal.username)
          || not (
              password_matches
                (expected_login_password p terminal session.salt session.login_challenge
                  session.iterations)
                login.login_password))
        wrong_credentials

abbrev pub issued_session : Session → Bytes → ℕ → Session
issued_session session next now = record session {
  next_challenge = next;
  next_challenge_at = some now;
  authenticated = true;
}

abbrev pub rolled_back : Session → Session → Session
rolled_back session issued = record issued {
  next_challenge = session.next_challenge;
  next_challenge_at = session.next_challenge_at;
  authenticated = false;
}

abbrev logged_in_reply : Terminal → Session → Option EncryptionParameters → Reply
logged_in_reply terminal session params = record {
  body = logged_in terminal.command_interval_seconds terminal.error_delay_seconds;
  challenge = session.next_challenge;
  session = some session;
  params = params;
}

module _ {Q : Type 0} (env : Env) (p : Platform) where
  abbrev publish_option : Option Activity → Step Q (Unit {0})
  publish_option none = pure tt
  publish_option (some stored) = publish stored

  unfoldable pub expire_login_challenge : Terminal → Step Q (Unit {0})
  expire_login_challenge terminal = do
    stored ← transaction env (
        expire_push_sdk_login_challenge terminal.serial_number expired_reason
          (event "pushsdk.session_expired" terminal.serial_number expired_reason []))
    forget terminal.push_sdk_serial
    publish_option stored

  abbrev refuse_expired : Terminal → Bool → Step Q (Unit {0})
  refuse_expired terminal false = pure tt
  refuse_expired terminal true = do
    expire_login_challenge terminal
    raise (invalid_session "login_challenge_expired")

  abbrev go_online :
      Terminal
      → Session
      → Session
      → Option EncryptionParameters
      → Result Failure Activity
      → Step Q Reply
  go_online terminal session issued params (err e) = do
    save terminal.push_sdk_serial (rolled_back session issued)
    attempt (persist_session env p (rolled_back session issued))
    raise e
  go_online terminal session issued params (ok stored) = do
    let online_session = record issued { online = true }
    save terminal.push_sdk_serial online_session
    active_inc
    publish stored
    pure (logged_in_reply terminal online_session params)

  abbrev pub after_checkpoint :
      Terminal
      → Session
      → Session
      → Option EncryptionParameters
      → Result Failure (Unit {0})
      → Step Q Reply
  after_checkpoint terminal session issued params (err e) = do
    save terminal.push_sdk_serial (rolled_back session issued)
    raise e
  after_checkpoint terminal session issued params (ok _) = do
    online ← attempt (
        transition env terminal "online" (
          event "pushsdk.login" terminal.serial_number "terminal authenticated"
            (negotiation_fields issued.payload_mode terminal)))
    go_online terminal session issued params online

  -- From the accepted credentials on: the new challenge, its checkpoint, the online state.
  unfoldable pub complete_login : Terminal → Session → Option EncryptionParameters → Step Q Reply
  complete_login terminal session params = do
    next ← random env random_custom_challenge
    now ← clock env
    let issued = issued_session session next now
    save terminal.push_sdk_serial issued
    saved ← attempt (persist_session env p issued)
    after_checkpoint terminal session issued params saved

  unfoldable pub login : Terminal → Request → Step Q Reply
  unfolding check_login
  login terminal request = do
    found ← lookup_session terminal.push_sdk_serial
    session ← lift (require found (invalid_session "missing_session"))
    lift (refuse session.authenticated (invalid_session "login_already_completed"))
    now ← clock env
    refuse_expired terminal (login_challenge_expired session now)
    (payload, params) ←
        lift (payload_for_session p request terminal session "Login" request.body true)
    lift (check_login p terminal session (p.decode_login payload))
    complete_login terminal session params
