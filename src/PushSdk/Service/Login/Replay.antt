-- ===== src/PushSdk/Service/Login/Replay.antt =====
-- What a login leaves behind, on every branch.
use face_recognition_proxy.Prelude.{ℕ, ◌+◌, ◌≡◌, true, false, some, Bytes, string_eq}
use face_recognition_proxy.Prelude.Table.{get}
use face_recognition_proxy.Result.{Result, ok, err}
use face_recognition_proxy.Config.{Terminal}
use face_recognition_proxy.Protocol.{Failure, invalid_session}
use face_recognition_proxy.PushSdk.Session.{Session, persistent_state}
use face_recognition_proxy.PushSdk.Service.Login.{login, issued_session}
use face_recognition_proxy.PushSdk.Service.Steps.{event, negotiation_fields}
use face_recognition_proxy.PushSdk.Service.Types.{Request, Reply}
use face_recognition_proxy.PushSdk.Wire.{Platform}
use face_recognition_proxy.PushSdk.World.{Env, Metrics, World}
use face_recognition_proxy.Store.Tables.{Activity}
use face_recognition_proxy.Store.Terminals.Effects.{status_of}

-- The session that a completed login leaves: logged in, online, with the issued challenge.
abbrev pub live_session : Session → Bytes → ℕ → Session
live_session session next now = record (issued_session session next now) { online = true }

-- A session that is not logged in and expects the challenge that this one expects.
abbrev pub SameChallenge : Session → Session → Type 0
SameChallenge session after =
    (after.authenticated ≡ false)
    × (after.next_challenge ≡ session.next_challenge)
    × (after.next_challenge_at ≡ session.next_challenge_at)

abbrev online_event : Session → Activity
online_event session =
    event "pushsdk.login" session.terminal.serial_number "terminal authenticated"
      (negotiation_fields session.payload_mode session.terminal)

module _ {Q : Type 0} (p : Platform) (session : Session) where
  -- A login that goes through leaves the session logged in with the challenge of the answer, the
  -- same session as the checkpoint, and the terminal online; one that does not leaves a session
  -- that is not logged in and expects the challenge it expected before, and counts no session.
  abbrev pub Outcome : Metrics → Result Failure Reply × World Q → Type 0
  Outcome m (ok reply, w) =
      ((now : ℕ) × (get session.terminal.push_sdk_serial w.sessions
          ≡ some (live_session session reply.challenge now))
        × (get session.terminal.serial_number w.db.pushsdk_sessions
            ≡ some (persistent_state p.sha256_sum (live_session session reply.challenge now)))
        × (status_of (get session.terminal.serial_number w.db.terminals) ≡ "online")
        × (w.metrics.active_up ≡ m.active_up + 1)
        × (w.metrics.active_down ≡ m.active_down))
  Outcome m (err e, w) =
      ((after : Session) × (get session.terminal.push_sdk_serial w.sessions ≡ some after)
        × SameChallenge session after)
      × (w.metrics.active_up ≡ m.active_up)
      × (w.metrics.active_down ≡ m.active_down)

  -- A login for a session that is logged in is refused as completed already, and changes nothing.
  login-replayed :
      (env : Env) (terminal : Terminal) (request : Request) (w : World Q)
      → get terminal.push_sdk_serial w.sessions ≡ some session
      → session.authenticated ≡ true
      → login env p terminal request w ≡ (err (invalid_session "login_already_completed"), w)
  unfolding login
  login-replayed env terminal request w found done = simp (found, done)
