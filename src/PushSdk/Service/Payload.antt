-- ===== src/PushSdk/Service/Payload.antt =====
-- `payloadForSession`, `encryptionFromRequest`, `requireContentType` and `payloadModeForAuthInfo`.
use face_recognition_proxy.Prelude.{
  ℕ, Bool, true, false, not, ◌&&◌, Option, none, some, List, [], ◌∷◌, Bytes, String, concat, nat_eq,
  string_eq, ◌==◌, if◌then◌else◌, length,
}
use face_recognition_proxy.Prelude.Table.{get}
use face_recognition_proxy.Result.{Result, ok, err, ◌>>=◌, ◌>>◌, refuse}
use face_recognition_proxy.Config.{Terminal}
use face_recognition_proxy.Protocol.{Failure, protocol, bad_request, unprocessable}
use face_recognition_proxy.PushSdk.Envelope.{
  EncryptionParameters, parse_encryption_parameters, decrypt,
}
use face_recognition_proxy.PushSdk.Session.{
  Session, PayloadMode, plaintext, encrypted, is_encrypted,
}
use face_recognition_proxy.PushSdk.Service.Types.{Request}
use face_recognition_proxy.PushSdk.Wire.{
  ℤ, pos, negsuc, Decoded, value, malformed, trailing, Platform,
}

abbrev pub is_empty {ℓ} : {A : Type ℓ} → List A → Bool
is_empty [] = true
is_empty (_ ∷ _) = false

-- `query[key]` when it has one value, `none` otherwise.
abbrev single : Option (List String) → Option String
single (some (text ∷ [])) = some text
single _ = none

abbrev renamed : String → Result String EncryptionParameters → Result Failure EncryptionParameters
renamed what (ok params) = ok params
renamed what (err e) = err (bad_request (concat (what ∷ e ∷ [])))

abbrev renamed_body : String → Result String Bytes → Result Failure Bytes
renamed_body what (ok plain) = ok plain
renamed_body what (err e) = err (bad_request (concat (what ∷ e ∷ [])))

module _ (p : Platform) where
  unfoldable pub require_content_type : Request → String → Result Failure (Unit {0})
  require_content_type request expected =
      let refused = protocol (record {
        status = 415;
        code = "";
        message = concat ("Content-Type must be " ∷ expected ∷ []);
        reason = "";
      }) in
      elim (p.parse_media_type request.content_type) [
        | none ↦ err refused
        | some content_type ↦ refuse (not (content_type == expected)) refused
      ]

  exactly_once : String → List (String × List String) → Result String String
  exactly_once key query = elim (single (get key query)) [
    | none ↦ err (concat (key ∷ " must appear exactly once" ∷ []))
    | some text ↦ ok text
  ]

  unfoldable pub encryption_from_request : Request → ℕ → Result String EncryptionParameters
  unfolding exactly_once
  encryption_from_request request security_version = do
    let query = p.parse_query request.raw_query
    refuse (not (length query == 3)) "only security, iv, and random query parameters are allowed"
    security ← exactly_once "security" query
    iv ← exactly_once "iv" query
    random ← exactly_once "random" query
    parse_encryption_parameters security iv random security_version

  encrypted_payload :
      Request
      → Terminal
      → Session
      → String
      → Bytes
      → Bool
      → Result Failure (Bytes × Option EncryptionParameters)
  unfolding encryption_from_request
  encrypted_payload request terminal session action body required = do
    params ←
        renamed (concat (action ∷ " encryption parameters: " ∷ []))
          (encryption_from_request request terminal.security_version)
    refuse (required && is_empty body) (bad_request (concat (action ∷ " body is required" ∷ [])))
    if is_empty body then ok (body, some params) else do
      require_content_type request "application/octet-stream"
      plain ←
          renamed_body (concat (action ∷ " decrypt: " ∷ []))
            (decrypt p terminal session.salt session.iterations params body)
      ok (plain, some params)

  plaintext_payload :
      Request → String → Bytes → Bool → Result Failure (Bytes × Option EncryptionParameters)
  plaintext_payload request action body required = do
    refuse (not (request.raw_query == "")) (
        bad_request (
          concat (action ∷ " does not permit query parameters without negotiated encryption" ∷ [])))
    (if required
        then (do
          require_content_type request "application/json"
          refuse (is_empty body) (bad_request (concat (action ∷ " body is required" ∷ []))))
        else ok tt)
    ok (body, none)

  unfoldable pub payload_for_session :
      Request
      → Terminal
      → Session
      → String
      → Bytes
      → Bool
      → Result Failure (Bytes × Option EncryptionParameters)
  unfolding encrypted_payload plaintext_payload
  payload_for_session request terminal session action body required =
      if is_encrypted session.payload_mode
      then encrypted_payload request terminal session action body required
      else plaintext_payload request action body required

  abbrev is_version : ℕ → ℤ → Bool
  is_version n (pos m) = m == n
  is_version n (negsuc _) = false

  -- The loop over the offered versions: the first unknown one refuses the request, the first that is
  -- the configured one settles it.
  unfoldable pub offered : ℕ → List ℤ → Result Failure PayloadMode
  offered configured [] = err (unprocessable "terminal does not offer configured security version")
  offered configured (version ∷ versions) =
      let rest = offered configured versions in
      if not (is_version 3 version) && not (is_version 4 version)
      then err (bad_request "AuthInfo securityVersion may contain only 3 or 4")
      else if is_version configured version
      then ok encrypted
      else rest

  negotiated : Terminal → Decoded (List ℤ) → Result Failure PayloadMode
  unfolding offered
  negotiated terminal (malformed e) = err (bad_request (concat ("AuthInfo body: " ∷ e ∷ [])))
  negotiated terminal trailing = err (bad_request "AuthInfo body: trailing JSON value")
  negotiated terminal (value []) =
      err (bad_request "AuthInfo must declare securityVersion when it has a body")
  negotiated terminal (value (version ∷ versions)) =
      offered terminal.security_version (version ∷ versions)

  unfoldable pub payload_mode_for_auth_info : Terminal → Bytes → Result Failure PayloadMode
  unfolding negotiated
  payload_mode_for_auth_info terminal [] = ok plaintext
  payload_mode_for_auth_info terminal (b ∷ body) =
      negotiated terminal (p.decode_auth_info (b ∷ body))
