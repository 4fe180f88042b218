-- ===== src/PushSdk/Service/AuthInfo.antt =====
-- `authInfo`, with `Sessions.Start` of internal/pushsdk/session.go and `restoreReplacedSession`.
pub mod Start
use face_recognition_proxy.Prelude.{
  ℕ, Bool, true, false, Option, none, some, [], ◌∷◌, Bytes, if◌then◌else◌,
}
use face_recognition_proxy.Result.{Result, ok, err}
use face_recognition_proxy.Config.{Terminal}
use face_recognition_proxy.Crypto.Random.{random_alpha_numeric}
use face_recognition_proxy.Protocol.{Failure}
use face_recognition_proxy.PushSdk.Session.{
  Session, PayloadMode, is_encrypted, key_derivation_iterations,
}
use face_recognition_proxy.PushSdk.Service.Payload.{payload_mode_for_auth_info}
use face_recognition_proxy.PushSdk.Service.Steps.{
  event, negotiation_fields, lookup_session, persist_session, transition, delete_session,
}
use face_recognition_proxy.PushSdk.Service.Types.{Reply, AuthInfoResponseData, auth_info}
use face_recognition_proxy.PushSdk.Wire.{Platform}
use face_recognition_proxy.Store.Tables.{Activity}
use face_recognition_proxy.PushSdk.World.{
  Env, Step, pure, raise, lift, attempt, save, forget, publish, active_dec, clock, random, ◌>>=◌,
  ◌>>◌,
}

abbrev pub new_session : Terminal → PayloadMode → Bytes → Bytes → ℕ → Session
new_session terminal mode salt challenge now = record {
  terminal = terminal;
  salt = salt;
  login_challenge = challenge;
  next_challenge = [];
  iterations = key_derivation_iterations;
  payload_mode = mode;
  created_at = now;
  next_challenge_at = none;
  authenticated = false;
  online = false;
}

abbrev pub was_online : Option Session → Bool
was_online none = false
was_online (some previous) = previous.online

abbrev pub auth_info_data : Session → AuthInfoResponseData
auth_info_data session = record {
  challenge = session.login_challenge;
  salt = session.salt;
  iterations = session.iterations;
  is_data_encrypted = is_encrypted session.payload_mode;
  security_versions =
      if is_encrypted session.payload_mode then session.terminal.security_version ∷ [] else [];
}

module _ {Q : Type 0} (env : Env) (p : Platform) where
  -- Sessions.Replace
  abbrev pub replace : Terminal → Option Session → Step Q (Unit {0})
  replace terminal none = forget terminal.push_sdk_serial
  replace terminal (some previous) = save terminal.push_sdk_serial previous

  unfoldable pub restore_replaced_session : Terminal → Option Session → Step Q (Unit {0})
  restore_replaced_session terminal none = do
    delete_session env terminal
    forget terminal.push_sdk_serial
  restore_replaced_session terminal (some previous) = do
    persist_session env p previous
    save terminal.push_sdk_serial previous

  abbrev dec_if : Bool → Step Q (Unit {0})
  dec_if true = active_dec
  dec_if false = pure tt

  abbrev pub announce : Terminal → Option Session → Session → Result Failure Activity → Step Q Reply
  announce terminal previous session (err e) = do
    attempt (restore_replaced_session terminal previous)
    raise e
  announce terminal previous session (ok stored) = do
    dec_if (was_online previous)
    publish stored
    pure (record {
      body = auth_info (auth_info_data session);
      challenge = [];
      session = none;
      params = none;
    })

  abbrev pub checkpoint :
      Terminal → Option Session → Session → Result Failure (Unit {0}) → Step Q Reply
  checkpoint terminal previous session (err e) = do replace terminal previous; raise e
  checkpoint terminal previous session (ok _) = do
    started ← attempt (
        transition env terminal "authenticating" (
          event "pushsdk.auth_info" terminal.serial_number "terminal started authentication"
            (negotiation_fields session.payload_mode terminal)))
    announce terminal previous session started

  unfoldable pub auth_info_handler : Terminal → Bytes → Step Q Reply
  auth_info_handler terminal body = do
    mode ← lift (payload_mode_for_auth_info p terminal body)
    salt ← random env (random_alpha_numeric 64)
    challenge ← random env (random_alpha_numeric 64)
    now ← clock env
    let session = new_session terminal mode salt challenge now
    previous ← lookup_session terminal.push_sdk_serial
    save terminal.push_sdk_serial session
    saved ← attempt (persist_session env p session)
    checkpoint terminal previous session saved
