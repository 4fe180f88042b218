-- ===== src/PushSdk/Service/Exchange/Guard.antt =====
-- Who is let into an authenticated exchange, and that a refusal changes nothing.
use face_recognition_proxy.Prelude.{
  ◌≡◌, ◌↔◌, ◌⊎◌, refl, true, Option, none, some, String, utf8, bytes_beq, bytes_beq_sound,
  bytes_beq_refl, arith, Bool-cases, inl, inr,
}
use face_recognition_proxy.Prelude.Table.{get}
use face_recognition_proxy.Result.{ok, err}
use face_recognition_proxy.Config.{Terminal}
use face_recognition_proxy.Protocol.{invalid_session}
use face_recognition_proxy.PushSdk.Envelope.{expected_custom_auth}
use face_recognition_proxy.PushSdk.Session.{Session}
use face_recognition_proxy.PushSdk.Service.Exchange.{Action, admitted, exchange}
use face_recognition_proxy.PushSdk.Service.Types.{Request, QueueStore}
use face_recognition_proxy.PushSdk.Wire.{Platform}
use face_recognition_proxy.PushSdk.World.{Env, World}

-- The session is logged in, and the request's header is the digest of its current challenge.
abbrev pub Proves : Platform → Terminal → Request → Session → Type 0
Proves p terminal request session =
    (session.authenticated ≡ true)
    × (utf8 request.custom_auth
        ≡ expected_custom_auth p terminal session.salt session.next_challenge)

module _ (p : Platform) (terminal : Terminal) (request : Request) where
  -- A session is admitted to an exchange exactly when it is the one that was found, it is logged
  -- in, and the request's header is the expected digest of that session's salt and current
  -- challenge.
  pub admitted-eq-ok_iff :
      (found : Option Session) (session : Session)
      → (admitted p terminal request found ≡ ok session)
        ↔ ((found ≡ some session) × Proves p terminal request session)
  unfolding admitted
  admitted-eq-ok_iff none session = (λ h. cc, λ h. cc)
  admitted-eq-ok_iff (some s) session =
      let given = utf8 request.custom_auth in
      let wanted = expected_custom_auth p terminal s.salt s.next_challenge in
      (
        λ h. ground (arith, bytes_beq_sound given wanted),
        λ h. ground (arith, bytes_beq_refl wanted),
      )

  -- Otherwise the refusal is the invalid-session error, with one of three reasons.
  refusal :
      (found : Option Session)
      → ((session : Session) × (admitted p terminal request found ≡ ok session))
        ⊎ ((reason : String) × (admitted p terminal request found ≡ err (invalid_session reason)))
  unfolding admitted
  refusal none = inr ("missing_session", refl)
  refusal (some s) = elim (Bool-cases s.authenticated) [
    | inl e ↦
        elim (Bool-cases (
          bytes_beq (utf8 request.custom_auth)
            (expected_custom_auth p terminal s.salt s.next_challenge))) [
              | inl same ↦ inl (s, ground arith)
              | inr differs ↦ inr ("custom_auth_mismatch", ground arith)
            ]
    | inr e ↦ inr ("not_authenticated", ground arith)
  ]

  -- If no session under the terminal's key is logged in and proved by the request's header, an
  -- exchange of any action is answered by the invalid-session error, and the sessions, the
  -- database, the counters and the published records stay exactly as they are.
  pub exchange_refused :
      (q : QueueStore) (env : Env) (action : Action) (w : World q.Q)
      → ((session : Session)
          → get terminal.push_sdk_serial w.sessions ≡ some session
          → ¬ Proves p terminal request session)
      → (reason : String) × (exchange q env p terminal action request w
          ≡ (err (invalid_session reason), w))
  unfolding exchange
  exchange_refused q env action w h =
      let found = get terminal.push_sdk_serial w.sessions in
      elim (refusal found) [
        | inl (session, e) ↦
            let proof = (admitted-eq-ok_iff found session).0 e in absurd (h session proof.0 proof.1)
        | inr (reason, e) ↦ (reason, rw e)
      ]
