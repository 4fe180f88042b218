-- ===== src/PushSdk/Service/Maintenance.antt =====
-- `MaintainSessions`, `markSessionIdle`, `ExpireISAPICommandDeadlines`, and `Sessions.Restore` of
-- internal/pushsdk/session.go with `RestoreSessions`.
pub mod Recovery
pub mod Idle
use face_recognition_proxy.Prelude.{
  ℕ, Bool, true, false, not, ◌&&◌, ◌||◌, Option, none, some, List, [], ◌∷◌, map, Bytes, String,
  bytes_beq, if◌then◌else◌,
}
use face_recognition_proxy.Prelude.Table.{Table, get}
use face_recognition_proxy.Result.{Result, ok, err}
use face_recognition_proxy.Config.{Terminal, Config, session_fingerprint, terminal_by_serial_number}
use face_recognition_proxy.Protocol.{Failure}
use face_recognition_proxy.PushSdk.Session.{
  Session, login_challenge_expired, is_idle, valid_stored_session, restored_session,
}
use face_recognition_proxy.PushSdk.Service.Login.{expire_login_challenge}
use face_recognition_proxy.PushSdk.Service.Steps.{event, lookup_session, transition}
use face_recognition_proxy.PushSdk.Service.Types.{QueueStore}
use face_recognition_proxy.PushSdk.Wire.{Platform}
use face_recognition_proxy.PushSdk.World.{
  Env, Metrics, Step, pure, raise, attempt, save, publish, publish_all, active_dec, transaction,
  ◌>>=◌, ◌>>◌,
}
use face_recognition_proxy.Store.Tables.{PushSdkSession, Db}
use face_recognition_proxy.Store.Terminals.{delete_push_sdk_session}

abbrev failures_of : Result Failure (Unit {0}) → List Failure → List Failure
failures_of (ok _) failures = failures
failures_of (err e) failures = e ∷ failures

-- A checkpoint whose terminal is known, by the fingerprint and the form of the checkpoint.
abbrev pub matches : Platform → Terminal → PushSdkSession → Bool
matches p terminal stored =
    bytes_beq stored.configuration_fingerprint (session_fingerprint p.sha256_sum terminal)
    && valid_stored_session stored

abbrev rows : Table PushSdkSession → List PushSdkSession
rows table = map (λ row. row.1) table

module _ {Q : Type 0} (env : Env) (p : Platform) where
  -- Only a committed offline state changes the liveness in memory; the checkpoint stays.
  unfoldable pub mark_session_idle : Terminal → Session → Step Q (Unit {0})
  mark_session_idle terminal session = do
    stored ← transition env terminal "offline" (
        event "pushsdk.session_idle" terminal.serial_number
          "no authenticated PushSDK traffic for one minute; waiting for the terminal to resume" [])
    save terminal.push_sdk_serial (record session { online = false })
    active_dec
    publish stored

  maintain_session : Terminal → ℕ → Option Session → Step Q (Unit {0})
  maintain_session terminal now none = pure tt
  maintain_session terminal now (some session) =
      if session.authenticated && session.online && is_idle session now
      then mark_session_idle terminal session
      else if not session.authenticated && login_challenge_expired session now
      then expire_login_challenge env p terminal
      else pure tt

  -- One round of the loop; a terminal whose lock is taken is passed over.
  unfoldable pub maintain_terminal : Terminal → ℕ → Bool → Step Q (Unit {0})
  unfolding maintain_session
  maintain_terminal terminal now true = pure tt
  maintain_terminal terminal now false = do
    found ← lookup_session terminal.push_sdk_serial
    maintain_session terminal now found

  -- The failures are collected and the loop goes on.
  unfoldable pub maintain_sessions : List Terminal → ℕ → (Terminal → Bool) → Step Q (List Failure)
  maintain_sessions [] now locked = pure []
  maintain_sessions (terminal ∷ terminals) now locked = do
    outcome ← attempt (maintain_terminal terminal now (locked terminal))
    failures ← maintain_sessions terminals now locked
    pure (failures_of outcome failures)

  drop_checkpoint : PushSdkSession → Step Q (Unit {0})
  drop_checkpoint stored = transaction env (delete_push_sdk_session stored.terminal_serial_number)

  -- One round of the loop of `Restore`.
  unfoldable pub restore_session : Config → ℕ → PushSdkSession → Step Q (Unit {0})
  unfolding drop_checkpoint
  restore_session config now stored =
      elim (terminal_by_serial_number config stored.terminal_serial_number) [
        | none ↦ drop_checkpoint stored
        | some terminal ↦
            let session = restored_session terminal stored in
            if not (matches p terminal stored)
            then drop_checkpoint stored
            else if not session.authenticated && login_challenge_expired session now
            then drop_checkpoint stored
            else save terminal.push_sdk_serial session
      ]

  -- The first error ends the loop.
  unfoldable pub restore_each : Config → ℕ → List PushSdkSession → Step Q (Unit {0})
  restore_each config now [] = pure tt
  restore_each config now (stored ∷ sessions) = do
    restore_session config now stored
    restore_each config now sessions

  abbrev load_sessions : ℕ → Db Q → Result String (Db Q × List PushSdkSession)
  load_sessions now db = ok (db, rows db.pushsdk_sessions)

  abbrev reset_active : Step Q (Unit {0})
  reset_active w =
      (ok tt, record w { metrics = record (w.metrics) { active_up = 0; active_down = 0 } })

  unfoldable pub restore_sessions : Config → ℕ → Step Q (Unit {0})
  restore_sessions config now = do
    stored ← transaction env load_sessions
    restore_each config now stored
    reset_active

module _ (q : QueueStore) (env : Env) where
  open q use {Q}

  unfoldable pub expire_isapi_command_deadlines : Step Q (Unit {0})
  expire_isapi_command_deadlines = do
    activities ← transaction env q.expire_overdue_isapi_commands
    publish_all activities
