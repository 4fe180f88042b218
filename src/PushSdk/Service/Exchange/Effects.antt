-- ===== src/PushSdk/Service/Exchange/Effects.antt =====
-- What each part of an authenticated exchange changes, and what it leaves.
use face_recognition_proxy.Prelude.{
  ℕ, ◌+◌, ◌≡◌, ◌≢◌, refl, Bool, true, false, Option, none, some, List, [], ◌++◌, Bytes, String,
  arith, map, Bool-cases, inl, inr,
}
use face_recognition_proxy.Prelude.Table.{get, put, get-put_same}
use face_recognition_proxy.Result.{Result, ok, err, Result-cases}
use face_recognition_proxy.Config.{Terminal}
use face_recognition_proxy.Crypto.Random.{random_custom_challenge}
use face_recognition_proxy.Protocol.{Failure}
use face_recognition_proxy.PushSdk.Commands.{parse_command_result_batch}
use face_recognition_proxy.PushSdk.Envelope.{EncryptionParameters}
use face_recognition_proxy.PushSdk.Events.{parse_event_batch}
use face_recognition_proxy.PushSdk.Session.{Session, persistent_state}
use face_recognition_proxy.PushSdk.Session.Checkpoint.{checkpoint_saved}
use face_recognition_proxy.PushSdk.Service.Exchange.{
  Action, command_request, command_result, event_batch, logout, perform, conclude, resume, issue,
  save_checkpoint, events_handler, note_persisted,
}
use face_recognition_proxy.PushSdk.Service.Payload.{is_empty}
use face_recognition_proxy.PushSdk.Service.Steps.{event}
use face_recognition_proxy.PushSdk.Service.Types.{Reply, Body, QueueStore}
use face_recognition_proxy.PushSdk.Wire.{Platform}
use face_recognition_proxy.PushSdk.World.{Env, World, clock}
use face_recognition_proxy.PushSdk.World.Cases.{transaction-cases, random-cases}
use face_recognition_proxy.Store.Tables.{Activity, Db}
use face_recognition_proxy.Store.Terminals.{transition_terminal_state, upsert_push_sdk_session}
use face_recognition_proxy.Store.Terminals.Effects.{transition-eq-ok}

abbrev pub one_if : Bool → ℕ
one_if true = 1
one_if false = 0

-- A transaction of the queues writes no session checkpoint.
abbrev pub KeepsCheckpoints : {Q A : Type 0} → (ℕ → Db Q → Result String (Db Q × A)) → Type 0
KeepsCheckpoints {Q} {A} f =
    (now : ℕ) (db db' : Db Q) (a : A)
    → f now db ≡ ok (db', a)
    → db'.pushsdk_sessions ≡ db.pushsdk_sessions

pub record QueueLaws (q : QueueStore) : Type 0 where
  pub claim_keeps : (serial : String) (n : ℕ) → KeepsCheckpoints (q.claim_isapi_commands serial n)
  pub complete_keeps :
      (serial : String) (results : List _)
      → KeepsCheckpoints (q.complete_isapi_commands serial results)
  pub insert_keeps : (events : List _) → KeepsCheckpoints (q.insert_device_event_batch events)

-- The sessions, their checkpoints and the count of live sessions are the same.
abbrev pub SameSessions : {Q : Type 0} → World Q → World Q → Type 0
SameSessions w w' =
    (w'.sessions ≡ w.sessions)
    × (w'.db.pushsdk_sessions ≡ w.db.pushsdk_sessions)
    × (w'.metrics.active_up ≡ w.metrics.active_up)
    × (w'.metrics.active_down ≡ w.metrics.active_down)

module _ (q : QueueStore) (laws : QueueLaws q) (env : Env) (p : Platform)
    (terminal : Terminal) where
  open q use {Q}

  abbrev pub Performed : Session → World Q → Result Failure (Session × Body) × World Q → Type 0
  Performed session w (ok (acted, _), w') = (acted ≡ session) × SameSessions w w'
  Performed session w (err _, w') = SameSessions w w'

  events-Performed :
      (session : Session) (body : Bytes) (w : World Q)
      → Performed session w (perform q env p terminal event_batch session body w)
  unfolding perform events_handler note_persisted
  events-Performed session body w =
      elim (Result-cases (parse_event_batch p terminal.serial_number body)) [
        | inl (parsed, e) ↦
            let w1 = record w {
              metrics = record (w.metrics) {
                events_received = w.metrics.events_received ++ map (λ x. x.format) parsed;
              };
            } in
            elim (transaction-cases env w1
              (q.insert_device_event_batch (map (λ x. x.event) parsed))) [
                | inl (f, h) ↦ simp (e, h) (refl, refl, refl, refl)
                | inr (db, a, inserted, h) ↦
                    simp (e, h) (refl, (refl, laws.insert_keeps _ _ w.db db a inserted, refl, refl))
              ]
        | inr (f, e) ↦ simp e (refl, refl, refl, refl)
      ]

  pub perform-Performed :
      (action : Action) (session : Session) (body : Bytes) (w : World Q)
      → action ≢ logout
      → Performed session w (perform q env p terminal action session body w)
  unfolding perform
  perform-Performed event_batch session body w other = events-Performed session body w
  perform-Performed logout session body w other = absurd (other refl)
  perform-Performed command_request session body w other = elim (Bool-cases (is_empty body)) [
    | inl e ↦ elim (transaction-cases env w (q.claim_isapi_commands terminal.serial_number 20)) [
      | inl (f, h) ↦ simp (e, h) (refl, refl, refl, refl)
      | inr (db, a, claimed, h) ↦
          simp (e, h) (refl, (refl, laws.claim_keeps _ _ _ w.db db a claimed, refl, refl))
    ]
    | inr e ↦ simp e (refl, refl, refl, refl)
  ]
  perform-Performed command_result session body w other =
      elim (Result-cases (parse_command_result_batch p body)) [
        | inl (results, e) ↦
            elim (transaction-cases env w
              (q.complete_isapi_commands terminal.serial_number results)) [
                | inl (f, h) ↦ simp (e, h) (refl, refl, refl, refl)
                | inr (db, a, completed, h) ↦
                    simp (e, h)
                      (refl, (refl, laws.complete_keeps _ _ _ w.db db a completed, refl, refl))
              ]
        | inr (f, e) ↦ simp e (refl, refl, refl, refl)
      ]

  abbrev resumed_event : Activity
  resumed_event =
      event "pushsdk.session_resumed" terminal.serial_number
        "terminal resumed its authenticated PushSDK session" []

  -- The session is online, and one more is counted if it was not.
  abbrev pub Resumed : Session → World Q → Result Failure Session × World Q → Type 0
  Resumed session w (ok live, w') =
      (live ≡ record session { online = true })
      × (get terminal.push_sdk_serial w'.sessions ≡ some live)
      × (w'.db.pushsdk_sessions ≡ w.db.pushsdk_sessions)
      × (w'.metrics.active_up + one_if session.online ≡ w.metrics.active_up + 1)
      × (w'.metrics.active_down ≡ w.metrics.active_down)
  Resumed session w (err _, w') = SameSessions w w'

  live_again :
      (session : Session) (online : Bool)
      → session.online ≡ online
      → (w : World Q) → get terminal.push_sdk_serial w.sessions ≡ some session
      → Resumed session w (resume q env p terminal session online w)
  live_again session true e w found = (ground arith, found, refl, simp e, refl)
  live_again session false e w found =
      let serial = terminal.serial_number in
      elim (transaction-cases env w
        (transition_terminal_state serial "online" none resumed_event)) [
          | inl (f, h) ↦ simp h (refl, refl, refl, refl)
          | inr (db, a, moved, h) ↦
              let (kept, _) =
                transition-eq-ok serial "online" none resumed_event _ w.db db a moved in
              rw h (refl, get-put_same _ _ _, kept, simp e (omega arith), refl)
        ]

  pub resume-Resumed :
      (session : Session) (w : World Q)
      → get terminal.push_sdk_serial w.sessions ≡ some session
      → Resumed session w (resume q env p terminal session session.online w)
  resume-Resumed session w found = live_again session session.online refl w found

module _ (q : QueueStore) (env : Env) (p : Platform) (session : Session) where
  open q use {Q}

  -- The answer's challenge is the one that the session and its checkpoint now expect; a failure
  -- leaves both as they were.
  abbrev pub Concluded : World Q → Result Failure Reply × World Q → Type 0
  Concluded w (ok reply, w') =
      ((now : ℕ) × (get session.terminal.push_sdk_serial w'.sessions
          ≡ some (issue session reply.challenge now))
        × (get session.terminal.serial_number w'.db.pushsdk_sessions
            ≡ some (persistent_state p.sha256_sum (issue session reply.challenge now)))
        × (w'.metrics.active_up ≡ w.metrics.active_up)
        × (w'.metrics.active_down ≡ w.metrics.active_down))
  Concluded w (err _, w') =
      (get session.terminal.push_sdk_serial w'.sessions ≡ some session)
      × (w'.db.pushsdk_sessions ≡ w.db.pushsdk_sessions)
      × (w'.metrics.active_up ≡ w.metrics.active_up)
      × (w'.metrics.active_down ≡ w.metrics.active_down)

  not_logout :
      (terminal : Terminal) (issued : Session) (action : Action)
      → action ≢ logout
      → save_checkpoint q env p terminal action session issued
        ≡ save_checkpoint q env p terminal event_batch session issued
  not_logout terminal issued command_request other = refl
  not_logout terminal issued command_result other = refl
  not_logout terminal issued event_batch other = refl
  not_logout terminal issued logout other = absurd (other refl)

  module _ (body : Body) (params : Option EncryptionParameters) (w : World Q) where
    pub conclude-Concluded :
        (action : Action)
        → action ≢ logout
        → get session.terminal.push_sdk_serial w.sessions ≡ some session
        → Concluded w (conclude q env p session.terminal action session body params w)
    unfolding conclude clock
    conclude-Concluded action other found = elim (random-cases env w random_custom_challenge) [
      | inl (e, h) ↦ rw h (found, refl, refl, refl)
      | inr (next, _, h) ↦
          let issued = issue session next (env.now (w.asked + 1)) in
          let w1 = record w {
            sessions = put session.terminal.push_sdk_serial issued w.sessions;
            asked = w.asked + 1 + 1;
          } in
          let keeps = not_logout session.terminal issued action other in
          let state = persistent_state p.sha256_sum issued in
          elim (transaction-cases env w1 (upsert_push_sdk_session state)) [
            | inl (e, h') ↦ rw (h, keeps, h') (get-put_same _ _ _, refl, refl, refl)
            | inr (db, a, saved, h') ↦
                rw (h, keeps, h')
                  (
                    env.now (w.asked + 1),
                    get-put_same _ _ _,
                    checkpoint_saved p.sha256_sum issued _ w.db db a saved,
                    refl,
                    refl,
                  )
          ]
    ]
