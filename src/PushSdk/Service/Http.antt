-- ===== src/PushSdk/Service/Http.antt =====
-- `ServeHTTP`, `respond` and `respondErrorWithCode`. A terminal's requests are handled one after
-- another, as its lock orders them.
use face_recognition_proxy.Prelude.{
  ℕ, not, Option, none, some, List, [], ◌∷◌, ◌++◌, Bytes, String, codes, ltb, string_eq, ◌==◌,
  if◌then◌else◌, length,
}
use face_recognition_proxy.Result.{Result, ok, err}
use face_recognition_proxy.Config.{Terminal, Config, terminal_by_push_sdk_serial}
use face_recognition_proxy.Protocol.{Failure, protocol, bad_request, protocol_error, reason_of}
use face_recognition_proxy.PushSdk.Envelope.{encrypt}
use face_recognition_proxy.PushSdk.Route.{parse_route}
use face_recognition_proxy.PushSdk.Service.AuthInfo.{auth_info_handler}
use face_recognition_proxy.PushSdk.Service.Exchange.{
  command_request, command_result, event_batch, logout, exchange,
}
use face_recognition_proxy.PushSdk.Service.Login.{login}
use face_recognition_proxy.PushSdk.Service.Payload.{require_content_type, is_empty}
use face_recognition_proxy.PushSdk.Service.Steps.{event, record_activity}
use face_recognition_proxy.PushSdk.Service.Types.{Request, Reply, Body, failed, QueueStore}
use face_recognition_proxy.PushSdk.Wire.{Platform}
use face_recognition_proxy.PushSdk.World.{Env, World, Step, lift, ◌>>◌}
use face_recognition_proxy.Store.Tables.{Field, text, number}

-- 8 << 20
abbrev pub max_request_bytes : ℕ
max_request_bytes = 8388608

-- No challenge header is the empty challenge.
pub record Response : Type 0 where
  pub status : ℕ
  pub content_type : String
  pub challenge : Bytes
  pub payload : Bytes

-- http.NotFound
abbrev not_found : Response
not_found = record {
  status = 404;
  content_type = "text/plain; charset=utf-8";
  challenge = [];
  payload = codes "404 page not found" ++ 10 ∷ [];
}

-- The fields of a rejection's record; the reason is there only if it is not empty.
abbrev rejection_fields : String → ℕ → String → String → List (String × Field)
rejection_fields action status code reason =
    ("action", text action)
    ∷ ("status", number status)
    ∷ ("code", text code)
    ∷ (if reason == "" then [] else ("reason", text reason) ∷ [])

module _ (q : QueueStore) (env : Env) (p : Platform) (config : Config)
    (marshal : Body → Bytes) where
  open q use {Q}

  abbrev respond_error : ℕ → String → String → Response
  respond_error status code message = record {
    status = status;
    content_type = "application/json";
    challenge = [];
    payload = marshal (failed status code message);
  }

  -- `respond`: an encrypted answer without its session is an error, and nothing is written.
  unfoldable pub respond : Terminal → Reply → Option Response
  respond terminal reply = elim reply.params [
    | none ↦ some (record {
      status = 200;
      content_type = "application/json";
      challenge = reply.challenge;
      payload = marshal reply.body;
    })
    | some params ↦ elim reply.session [
      | none ↦ none
      | some session ↦ some (record {
        status = 200;
        content_type = "application/octet-stream";
        challenge = reply.challenge;
        payload = encrypt p terminal session.salt session.iterations params (marshal reply.body);
      })
    ]
  ]

  -- The checks that only AuthInfo makes before its handler.
  auth_info_allowed : Request → Result Failure (Unit {0})
  auth_info_allowed request =
      if not (request.raw_query == "")
      then err (bad_request "AuthInfo does not permit query parameters")
      else if not (is_empty request.body)
      then require_content_type p request "application/json"
      else if not (request.content_type == "")
      then require_content_type p request "application/json"
      else ok tt

  -- The `switch action`.
  unfoldable pub dispatch : Terminal → String → Request → Step Q Reply
  unfolding auth_info_allowed
  dispatch terminal action request =
      if action == "AuthInfo"
      then (do lift (auth_info_allowed request); auth_info_handler env p terminal request.body)
      else if action == "Login"
      then login env p terminal request
      else if action == "CommandRequest"
      then exchange q env p terminal command_request request
      else if action == "CommandResult"
      then exchange q env p terminal command_result request
      else if action == "Event"
      then exchange q env p terminal event_batch request
      else if action == "Logout"
      then exchange q env p terminal logout request
      else λ w. (
        err (
            protocol (record {
              status = 404;
              code = "";
              message = "unsupported PushSDK action";
              reason = "";
            })),
        w,
      )

  abbrev count_request : String → String → World Q → World Q
  count_request action outcome w = record w {
    metrics = record (w.metrics) { requests = w.metrics.requests ++ (action, outcome) ∷ [] };
  }

  -- The answer to a handler's outcome; the record of a rejection may fail, which is only logged.
  abbrev answer : Terminal → String → Result Failure Reply → World Q → Option Response × World Q
  answer terminal action (ok reply) w = (respond terminal reply, count_request action "accepted" w)
  answer terminal action (err e) w =
      let (status, code, message) = protocol_error e in
      let (_, w') =
        record_activity env
          (event "pushsdk.rejected" terminal.serial_number message
            (rejection_fields action status code (reason_of e)))
          (count_request action "rejected" w) in
      (some (respond_error status code message), w')

  handle : Terminal → String → Request → World Q → Option Response × World Q
  handle terminal action request w =
      if ltb max_request_bytes (length request.body)
      then (some (respond_error 413 "0xFFFFFFFF" "request body is too large"), w)
      else (let (outcome, w') = dispatch terminal action request w in
          answer terminal action outcome w')

  serve_route : Request → Option (String × String) → World Q → Option Response × World Q
  unfolding handle
  serve_route request none w = (some not_found, w)
  serve_route request (some (serial, action)) w =
      if not (request.method == "POST")
      then (some (respond_error 405 "0xFFFFFFFF" "method must be POST"), w)
      else elim (terminal_by_push_sdk_serial config serial) [
        | none ↦ (some (respond_error 404 "0xFFFFFFFF" "terminal is not registered"), w)
        | some terminal ↦ handle terminal action request w
      ]

  -- ServeHTTP
  unfoldable pub serve_http : Request → World Q → Option Response × World Q
  unfolding serve_route
  serve_http request w = serve_route request (parse_route request.path) w
