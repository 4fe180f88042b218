-- ===== src/PushSdk/Service/Exchange/Leave.antt =====
-- The action Logout of `authenticated` in internal/pushsdk/service.go, branch by branch.
use face_recognition_proxy.Prelude.{
  ◌+◌, ◌≡◌, ◌⊎◌, refl, Bool, true, false, none, some, [], Bytes, arith, inl, inr, Bool-cases,
}
use face_recognition_proxy.Prelude.Table.{get, put, get-put_same, get-remove_same}
use face_recognition_proxy.Result.{Result, ok, err, Result-cases}
use face_recognition_proxy.Config.{Terminal}
use face_recognition_proxy.Crypto.Random.{random_custom_challenge}
use face_recognition_proxy.Protocol.{Failure}
use face_recognition_proxy.PushSdk.Session.{Session}
use face_recognition_proxy.PushSdk.Service.Exchange.{
  logout, action_text, admitted, resume, perform, conclude, answer_online, exchange, issue,
}
use face_recognition_proxy.PushSdk.Service.Exchange.Effects.{
  one_if, QueueLaws, SameSessions, Resumed, resume-Resumed,
}
use face_recognition_proxy.PushSdk.Service.Exchange.Guard.{Proves, admitted-eq-ok_iff}
use face_recognition_proxy.PushSdk.Service.Payload.{payload_for_session, is_empty}
use face_recognition_proxy.PushSdk.Service.Steps.{event}
use face_recognition_proxy.PushSdk.Service.Types.{Request, Reply, Body, QueueStore}
use face_recognition_proxy.PushSdk.Wire.{Platform}
use face_recognition_proxy.PushSdk.World.{Env, World, ◌>>=◌, clock}
use face_recognition_proxy.PushSdk.World.Cases.{transaction-cases, random-cases, bind_rule}
use face_recognition_proxy.Store.Tables.{Activity}
use face_recognition_proxy.Store.Terminals.{transition_terminal_state, delete_push_sdk_session}
use face_recognition_proxy.Store.Terminals.Effects.{transition-eq-ok, delete-eq-ok, status_of}

-- The gauge moved by as much as the session's share in it.
abbrev pub IsCounted : {Q : Type 0} → World Q → Bool → World Q → Bool → Type 0
IsCounted w before w' after =
    w'.metrics.active_up + (w.metrics.active_down + one_if before)
    ≡ w.metrics.active_up + (w'.metrics.active_down + one_if after)

-- The session as it was up to being online, or closed.
abbrev pub IsLeft : Session → Session → Type 0
IsLeft session after =
    (after ≡ record session { online = after.online })
    ⊎ ((after.authenticated ≡ false) × (after.online ≡ false))

abbrev pub Ended :
    {Q : Type 0} → Terminal → Session → Bool → World Q → Result Failure Reply × World Q → Type 0
Ended terminal session online w (ok _, w') =
    (get terminal.push_sdk_serial w'.sessions ≡ none)
    × (get terminal.serial_number w'.db.pushsdk_sessions ≡ none)
    × (status_of (get terminal.serial_number w'.db.terminals) ≡ "offline")
    × IsCounted w online w' false
Ended terminal session online w (err _, w') =
    (w'.db.pushsdk_sessions ≡ w.db.pushsdk_sessions)
    × ((after : Session) × (get terminal.push_sdk_serial w'.sessions ≡ some after)
        × IsLeft session after
        × IsCounted w online w' after.online)

-- The same, counted from an earlier state.
Ended-from :
    {Q : Type 0} (terminal : Terminal) (session : Session) (before online : Bool) (w w' : World Q)
    (x : Result Failure Reply × World Q)
    → (w'.db.pushsdk_sessions ≡ w.db.pushsdk_sessions)
    → IsCounted w before w' online
    → Ended terminal session online w' x
    → Ended terminal session before w x
Ended-from terminal session before online w w' (ok _, w'') kept counted (gone, cut, status, more) =
    (gone, cut, status, omega arith)
Ended-from terminal session before online w w' (err _, w'') kept counted
      (same, (after, here, is_left, more)) =
    (rw kept at same, (after, here, is_left, omega arith))

module _ (q : QueueStore) (env : Env) (p : Platform) (terminal : Terminal) where
  open q use {Q}

  abbrev logout_event : Activity
  logout_event = event "pushsdk.logout" terminal.serial_number "terminal logged out" []

  -- The session is closed and no longer counted, and its checkpoint is still there.
  abbrev Closed : World Q → Result Failure (Session × Body) × World Q → Type 0
  Closed w (ok (closed, _), w') =
      (get terminal.push_sdk_serial w'.sessions ≡ some closed)
      × ((closed.authenticated ≡ false) × (closed.online ≡ false))
      × (w'.db.pushsdk_sessions ≡ w.db.pushsdk_sessions)
      × (status_of (get terminal.serial_number w'.db.terminals) ≡ "offline")
      × IsCounted w true w' false
  Closed w (err _, w') = SameSessions w w'

  perform-Closed :
      (session : Session) (body : Bytes) (w : World Q)
      → Closed w (perform q env p terminal logout session body w)
  unfolding perform
  perform-Closed session body w = elim (Bool-cases (is_empty body)) [
    | inr e ↦ simp e (refl, refl, refl, refl)
    | inl e ↦
        let serial = terminal.serial_number in
        elim (transaction-cases env w
          (transition_terminal_state serial "offline" none logout_event)) [
            | inl (f, h) ↦ simp (e, h) (refl, refl, refl, refl)
            | inr (db, a, moved, h) ↦
                let (kept, status) =
                  transition-eq-ok serial "offline" none logout_event _ w.db db a moved in
                simp (e, h) (get-put_same _ _ _, (refl, refl), kept, status, omega arith)
          ]
  ]

  conclude-Ended :
      (session closed : Session) (body : Body) (params : _) (w : World Q)
      → get terminal.push_sdk_serial w.sessions ≡ some closed
      → (closed.authenticated ≡ false) × (closed.online ≡ false)
      → status_of (get terminal.serial_number w.db.terminals) ≡ "offline"
      → Ended terminal session false w (conclude q env p terminal logout closed body params w)
  unfolding conclude clock
  conclude-Ended session closed body params w here (shut, offline) status =
      elim (random-cases env w random_custom_challenge) [
        | inl (e, h) ↦ rw h (refl, (closed, here, inr (shut, offline), rw offline refl))
        | inr (next, _, h) ↦
            let w1 = record w {
              sessions =
                  put terminal.push_sdk_serial (issue closed next (env.now (w.asked + 1)))
                    w.sessions;
              asked = w.asked + 1 + 1;
            } in
            elim (transaction-cases env w1 (delete_push_sdk_session terminal.serial_number)) [
              | inl (e, h') ↦
                  rw (h, h')
                    (
                      refl,
                      (
                        issue closed next (env.now (w.asked + 1)),
                        get-put_same _ _ _,
                        inr (shut, offline),
                        rw offline refl,
                      ),
                    )
              | inr (db, a, deleted, h') ↦
                  let (gone, same) = delete-eq-ok terminal.serial_number _ w.db db a deleted in
                  rw (h, h') (get-remove_same _ _, gone, rw same status, refl)
            ]
      ]

module _ (q : QueueStore) (laws : QueueLaws q) (env : Env) (p : Platform) (request : Request) where
  open q use {Q}

  answer_online-Ended :
      (session : Session) (w : World Q)
      → session.online ≡ true
      → get session.terminal.push_sdk_serial w.sessions ≡ some session
      → Ended session.terminal session session.online w
          (answer_online q env p session.terminal logout request session w)
  unfolding answer_online
  answer_online-Ended session w online found =
      let terminal = session.terminal in
      elim (Result-cases
        (payload_for_session p request terminal session (action_text logout) request.body false)) [
          | inl ((payload, params), e) ↦ rw e (
              bind_rule (Closed q env p terminal w) (Ended terminal session session.online w)
                (perform q env p terminal logout session payload) _ w
                (perform-Closed q env p terminal session payload w)
                (λ (closed, body) w' (here, shut, kept, status, counted).
                  Ended-from terminal session session.online false w w' _ kept (rw online counted) (
                    conclude-Ended q env p terminal session closed body params w' here shut status))
                (λ f w' (same, kept, up, down).
                  (kept, (session, rw same found, inl refl, simp (up, down) refl))))
          | inr (f, e) ↦ rw e (refl, (session, found, inl refl, refl))
        ]

  -- What a logout promises of its outcome, in either case.
  abbrev pub LoggedOut : Session → World Q → Result Failure Reply × World Q → Type 0
  LoggedOut session w (ok reply, w') =
      Proves p session.terminal request session
      × Ended session.terminal session session.online w (ok reply, w')
  LoggedOut session w (err f, w') = Ended session.terminal session session.online w (err f, w')

  LoggedOut-Ended :
      (session : Session) (w : World Q) (x : Result Failure Reply × World Q)
      → Proves p session.terminal request session
      → Ended session.terminal session session.online w x
      → LoggedOut session w x
  LoggedOut-Ended session w (ok reply, w') proof ended = (proof, ended)
  LoggedOut-Ended session w (err f, w') proof ended = ended

  logout_admitted :
      (session admitted_session : Session) (w : World Q)
      → get session.terminal.push_sdk_serial w.sessions ≡ some session
      → some session ≡ some admitted_session
      → Proves p session.terminal request admitted_session
      → LoggedOut session w (
          (resume q env p session.terminal admitted_session admitted_session.online
              >>= answer_online q env p session.terminal logout request)
            w)
  logout_admitted session s w found same proof =
      let terminal = session.terminal in
      let s≡ : s ≡ session = cc in
      rw s≡ (
        bind_rule (Resumed q laws env p terminal session w) (LoggedOut session w)
          (resume q env p terminal session session.online)
          (answer_online q env p terminal logout request) w
          (resume-Resumed q laws env p terminal session w found)
          (λ live w' (live≡, here, kept, up, down). rw live≡ (
            LoggedOut-Ended session w _ (rw s≡ at proof) (
              Ended-from terminal session session.online true w w' _ kept (omega arith) (
                answer_online-Ended (record session { online = true }) w' refl
                  (rw live≡ at here)))))
          (λ f w' (same, kept, up, down).
            (kept, (session, rw same found, inl refl, simp (up, down) refl))))

  -- A Logout on the session under the terminal's key, with queue transactions that write no
  -- session checkpoint: if it is answered, the request proved the session's challenge, the
  -- session and its checkpoint are gone and the terminal is "offline"; if it fails, every
  -- checkpoint is as before, and the session held is the one before up to being online, or one
  -- that is neither authenticated nor online. In both cases the gauge of active sessions moved by
  -- what the session counts after less what it counted before.
  pub logout-LoggedOut :
      (session : Session) (w : World Q)
      → get session.terminal.push_sdk_serial w.sessions ≡ some session
      → LoggedOut session w (exchange q env p session.terminal logout request w)
  unfolding exchange
  logout-LoggedOut session w found =
      let terminal = session.terminal in
      elim (Result-cases (admitted p terminal request (some session))) [
        | inl (s, e) ↦
            let (same, proof) = (admitted-eq-ok_iff p terminal request (some session) s).0 e in
            simp (found, e) (logout_admitted session s w found same proof)
        | inr (f, e) ↦ simp (found, e) (refl, (session, refl, inl refl, refl))
      ]
