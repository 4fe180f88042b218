-- ===== src/PushSdk/Service/Maintenance/Idle.antt =====
-- A round of maintenance over the session of a terminal.
use face_recognition_proxy.Prelude.{
  ℕ, ◌+◌, ◌≡◌, refl, true, false, ◌&&◌, none, some, [], arith, if◌then◌else◌, Bool-cases, inl, inr,
}
use face_recognition_proxy.Prelude.Table.{get, get-put_same}
use face_recognition_proxy.Result.{Result, ok, err}
use face_recognition_proxy.Config.{Terminal}
use face_recognition_proxy.Protocol.{Failure}
use face_recognition_proxy.PushSdk.Session.{Session, is_idle}
use face_recognition_proxy.PushSdk.Service.Maintenance.{mark_session_idle, maintain_terminal}
use face_recognition_proxy.PushSdk.Service.Steps.{event}
use face_recognition_proxy.PushSdk.Wire.{Platform}
use face_recognition_proxy.PushSdk.World.{Env, World}
use face_recognition_proxy.PushSdk.World.Cases.{transaction-cases}
use face_recognition_proxy.Store.Tables.{Activity}
use face_recognition_proxy.Store.Terminals.{transition_terminal_state}
use face_recognition_proxy.Store.Terminals.Effects.{transition-eq-ok, status_of}

abbrev idle_event : Terminal → Activity
idle_event terminal =
    event "pushsdk.session_idle" terminal.serial_number
      "no authenticated PushSDK traffic for one minute; waiting for the terminal to resume" []

module _ {Q : Type 0} (env : Env) (p : Platform) (terminal : Terminal) where
  -- The session's challenge, its login and its checkpoint are as they were, and it is offline with
  -- one session fewer counted and the terminal's row offline, or nothing has changed but the number
  -- of questions.
  abbrev pub IsIdled : Session → World Q → World Q → Type 0
  IsIdled session w w' =
      (get terminal.push_sdk_serial w'.sessions ≡ some (record session { online = false }))
      × (status_of (get terminal.serial_number w'.db.terminals) ≡ "offline")
      × (w'.db.pushsdk_sessions ≡ w.db.pushsdk_sessions)
      × (w'.metrics.active_up ≡ w.metrics.active_up)
      × (w'.metrics.active_down ≡ w.metrics.active_down + 1)

  abbrev pub MarkOutcome : Session → World Q → Result Failure (Unit {0}) × World Q → Type 0
  MarkOutcome session w (ok _, w') = IsIdled session w w'
  MarkOutcome session w (err _, w') = w' ≡ record w { asked = w.asked + 1 }

  mark_session_idle-MarkOutcome :
      (session : Session) (w : World Q)
      → MarkOutcome session w (mark_session_idle env p terminal session w)
  unfolding mark_session_idle
  mark_session_idle-MarkOutcome session w =
      let serial = terminal.serial_number in
      elim (transaction-cases env w
        (transition_terminal_state serial "offline" none (idle_event terminal))) [
          | inl (e, h) ↦ rw h
          | inr (db, a, moved, h) ↦
              let (kept, status) =
                transition-eq-ok serial "offline" none (idle_event terminal) _ w.db db a moved in
              rw h (get-put_same _ _ _, status, kept, refl, refl)
        ]

  abbrev pub MaintainOutcome : Session → ℕ → World Q → Result Failure (Unit {0}) × World Q → Type 0
  MaintainOutcome session now w (r, w') =
      if session.online && is_idle session now
      then MarkOutcome session w (r, w')
      else ((r ≡ ok tt) × (w' ≡ w))

  maintain_live :
      (session : Session) (now : ℕ) (w : World Q)
      → get terminal.push_sdk_serial w.sessions ≡ some session
      → session.authenticated ≡ true
      → maintain_terminal env p terminal now false w ≡ (
          if session.online && is_idle session now
          then mark_session_idle env p terminal session w
          else (ok tt, w))
  unfolding maintain_terminal
  maintain_live session now w found live = ground arith

  -- A round of maintenance over a logged-in session: if the session is online and idle, either it
  -- becomes offline with the terminal's row offline and one session fewer counted, while its
  -- challenge, its login and all checkpoints stay, or the store failed and only a question was
  -- asked; otherwise the round succeeds and changes nothing.
  pub maintain_terminal-authenticated :
      (session : Session) (now : ℕ) (w : World Q)
      → get terminal.push_sdk_serial w.sessions ≡ some session
      → session.authenticated ≡ true
      → MaintainOutcome session now w (maintain_terminal env p terminal now false w)
  maintain_terminal-authenticated session now w found live =
      rw (maintain_live session now w found live)
        (elim (Bool-cases (session.online && is_idle session now)) [
          | inl e ↦ rw e (mark_session_idle-MarkOutcome session w)
          | inr e ↦ rw e (refl, refl)
        ])
