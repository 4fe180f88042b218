-- ===== src/PushSdk/Service/Exchange/Retry.antt =====
-- A failed exchange can be repeated with the same challenge; one that goes through hands out the
-- challenge that the session and its checkpoint then expect.
use face_recognition_proxy.Prelude.{ℕ, ◌+◌, ◌≡◌, ◌≢◌, refl, Bool, true, some, arith, inl, inr}
use face_recognition_proxy.Prelude.Table.{get}
use face_recognition_proxy.Result.{Result, ok, err, Result-cases}
use face_recognition_proxy.Protocol.{Failure}
use face_recognition_proxy.PushSdk.Session.{Session, persistent_state}
use face_recognition_proxy.PushSdk.Service.Exchange.{
  Action, logout, action_text, requires_body, admitted, resume, perform, answer_online, exchange,
}
use face_recognition_proxy.PushSdk.Service.Exchange.Effects.{
  one_if, QueueLaws, SameSessions, Performed, Resumed, Concluded, perform-Performed, resume-Resumed,
  conclude-Concluded,
}
use face_recognition_proxy.PushSdk.Service.Exchange.Guard.{Proves, admitted-eq-ok_iff}
use face_recognition_proxy.PushSdk.Service.Payload.{payload_for_session}
use face_recognition_proxy.PushSdk.Service.Types.{Request, Reply, QueueStore}
use face_recognition_proxy.PushSdk.Wire.{Platform}
use face_recognition_proxy.PushSdk.World.{Env, World, ◌>>=◌}
use face_recognition_proxy.PushSdk.World.Cases.{bind_rule}

module _ (q : QueueStore) (laws : QueueLaws q) (env : Env) (p : Platform) (request : Request)
    (action : Action) (other : action ≢ logout) where
  open q use {Q}

  Concluded-from :
      (session : Session) (w w' : World Q) (x : Result Failure Reply × World Q)
      → SameSessions w w'
      → Concluded q env p session w' x
      → Concluded q env p session w x
  Concluded-from session w w' (ok reply, w'') (_, _, up, down) (now, here, saved, up', down') =
      (now, here, saved, rw up at up', rw down at down')
  Concluded-from session w w' (err e, w'') (_, kept, up, down) (here, kept', up', down') =
      (here, rw kept at kept', rw up at up', rw down at down')

  answer_online-Concluded :
      (session : Session) (w : World Q)
      → get session.terminal.push_sdk_serial w.sessions ≡ some session
      → Concluded q env p session w
          (answer_online q env p session.terminal action request session w)
  unfolding answer_online
  answer_online-Concluded session w found =
      elim (Result-cases (
        payload_for_session p request session.terminal session (action_text action) request.body
          (requires_body action))) [
            | inl ((payload, params), e) ↦ rw e (
                bind_rule (Performed q laws env p session.terminal session w)
                  (Concluded q env p session w)
                  (perform q env p session.terminal action session payload) _ w
                  (perform-Performed q laws env p session.terminal action session payload w other)
                  (λ (acted, body) w' (e', same). rw e' (
                    Concluded-from session w w' _ same (
                      conclude-Concluded q env p session body params w' action other
                        (rw same.0 found))))
                  (λ f w' same. (rw same.0 found, same.1, same.2, same.3)))
            | inr (f, e) ↦ rw e (found, refl, refl, refl)
          ]

  -- What an exchange promises of its outcome, in either case.
  abbrev pub Exchanged : Session → World Q → Result Failure Reply × World Q → Type 0
  Exchanged session w (ok reply, w') =
      Proves p session.terminal request session
      × ((now : ℕ) × (get session.terminal.push_sdk_serial w'.sessions
            ≡ some (record session {
              online = true;
              next_challenge = reply.challenge;
              next_challenge_at = some now;
            }))
          × (get session.terminal.serial_number w'.db.pushsdk_sessions
              ≡ some (
                  persistent_state p.sha256_sum (record session {
                    next_challenge = reply.challenge;
                    next_challenge_at = some now;
                  })))
          × (w'.metrics.active_up + one_if session.online ≡ w.metrics.active_up + 1)
          × (w'.metrics.active_down ≡ w.metrics.active_down))
  Exchanged session w (err _, w') =
      (online : Bool) × (get session.terminal.push_sdk_serial w'.sessions
        ≡ some (record session { online = online }))
      × (w'.db.pushsdk_sessions ≡ w.db.pushsdk_sessions)
      × (w'.metrics.active_up + one_if session.online ≡ w.metrics.active_up + one_if online)
      × (w'.metrics.active_down ≡ w.metrics.active_down)

  Exchanged-from :
      (session : Session) (w w' : World Q) (x : Result Failure Reply × World Q)
      → Proves p session.terminal request session
      → (w'.db.pushsdk_sessions ≡ w.db.pushsdk_sessions)
      → (w'.metrics.active_up + one_if session.online ≡ w.metrics.active_up + 1)
      → (w'.metrics.active_down ≡ w.metrics.active_down)
      → Concluded q env p (record session { online = true }) w' x
      → Exchanged session w x
  unfolding persistent_state
  Exchanged-from session w w' (ok reply, w'') proof kept up down (now, here, saved, up', down') =
      (proof, (now, here, saved, omega arith, omega arith))
  Exchanged-from session w w' (err e, w'') proof kept up down (here, kept', up', down') =
      (true, here, rw kept at kept', omega arith, omega arith)

  exchange_admitted :
      (session admitted_session : Session) (w : World Q)
      → get session.terminal.push_sdk_serial w.sessions ≡ some session
      → some session ≡ some admitted_session
      → Proves p session.terminal request admitted_session
      → Exchanged session w (
          (resume q env p session.terminal admitted_session admitted_session.online
              >>= answer_online q env p session.terminal action request)
            w)
  exchange_admitted session s w found same proof =
      let s≡ : s ≡ session = cc in
      rw s≡ (
        bind_rule (Resumed q laws env p session.terminal session w) (Exchanged session w)
          (resume q env p session.terminal session session.online)
          (answer_online q env p session.terminal action request) w
          (resume-Resumed q laws env p session.terminal session w found)
          (λ live w' (live≡, here, kept, up, down).
            Exchanged-from session w w' _ (rw s≡ at proof) kept up down (
              rw live≡
                (answer_online-Concluded (record session { online = true }) w' (rw live≡ at here))))
          (λ f w' (here, kept, up, down). (session.online, rw here found, kept, rw up refl, down)))

  -- For an action other than Logout on the session under the terminal's key, with queue
  -- transactions that write no session checkpoint: if the exchange answers, the request proved
  -- the session's challenge, and the session and its checkpoint now expect the challenge of the
  -- answer, with the session online and counted once; if it fails, the session is the one before
  -- up to being online, every checkpoint is as before, and the counts agree with that, so that
  -- the terminal can repeat the request with the same challenge.
  pub exchange-Exchanged :
      (session : Session) (w : World Q)
      → get session.terminal.push_sdk_serial w.sessions ≡ some session
      → Exchanged session w (exchange q env p session.terminal action request w)
  unfolding exchange
  exchange-Exchanged session w found =
      let terminal = session.terminal in
      elim (Result-cases (admitted p terminal request (some session))) [
        | inl (s, e) ↦
            let (same, proof) = (admitted-eq-ok_iff p terminal request (some session) s).0 e in
            simp (found, e) (exchange_admitted session s w found same proof)
        | inr (f, e) ↦ simp (found, e) (session.online, refl, refl, refl, refl)
      ]
