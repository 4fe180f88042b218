-- ===== src/PushSdk/Service/Exchange.antt =====
-- `authenticated`, with `events` and `IssueNextChallenge`: the actions of a logged-in terminal.
pub mod Guard
pub mod Effects
pub mod Retry
pub mod Leave
use face_recognition_proxy.Prelude.{
  ℕ, ◌+◌, Bool, true, false, not, ◌||◌, Option, none, some, List, [], ◌∷◌, ◌++◌, map, Bytes, String,
  concat, utf8, bytes_beq, if◌then◌else◌,
}
use face_recognition_proxy.Result.{Result, ok, err, refuse, require}
use face_recognition_proxy.Config.{Terminal}
use face_recognition_proxy.Crypto.Random.{random_custom_challenge}
use face_recognition_proxy.Protocol.{
  Failure, protocol, internal, bad_request, unprocessable, invalid_session,
}
use face_recognition_proxy.PushSdk.Commands.{
  parse_command_result_batch, command_request_item_for, IsapiCommandResult,
}
use face_recognition_proxy.PushSdk.Envelope.{EncryptionParameters, expected_custom_auth}
use face_recognition_proxy.PushSdk.Events.{ParsedEvent, NewDeviceEvent, parse_event_batch}
use face_recognition_proxy.PushSdk.Session.{Session}
use face_recognition_proxy.PushSdk.Service.Payload.{payload_for_session, is_empty}
use face_recognition_proxy.PushSdk.Service.Steps.{
  event, lookup_session, persist_session, transition, remove_session,
}
use face_recognition_proxy.PushSdk.Service.Types.{
  Request, Reply, Body, commands, command_results, events, logged_out, QueueStore,
  DeviceEventPersistence,
}
use face_recognition_proxy.PushSdk.Wire.{Platform}
use face_recognition_proxy.PushSdk.World.{
  Env, Metrics, Step, pure, raise, lift, attempt, save, publish, publish_all, active_inc,
  active_dec, clock, random, transaction, ◌>>=◌, ◌>>◌,
}
use face_recognition_proxy.Store.Tables.{Activity}

pub data Action : Type 0 where
  command_request command_result event_batch logout : Action

abbrev pub action_text : Action → String
action_text command_request = "CommandRequest"
action_text command_result = "CommandResult"
action_text event_batch = "Event"
action_text logout = "Logout"

abbrev pub requires_body : Action → Bool
requires_body command_result = true
requires_body event_batch = true
requires_body _ = false

abbrev pub issue : Session → Bytes → ℕ → Session
issue session next now = record session { next_challenge = next; next_challenge_at = some now }

-- The text of a store error inside another.
abbrev failure_text : Failure → String
failure_text (protocol e) = e.message
failure_text (internal e) = e

module _ (p : Platform) where
  -- Who may go on: the session under this key, if it is logged in and the request proves its challenge.
  unfoldable pub admitted : Terminal → Request → Option Session → Result Failure Session
  admitted terminal request none = err (invalid_session "missing_session")
  admitted terminal request (some session) =
      if not session.authenticated
      then err (invalid_session "not_authenticated")
      else if not (
          bytes_beq (utf8 request.custom_auth)
            (expected_custom_auth p terminal session.salt session.next_challenge))
      then err (invalid_session "custom_auth_mismatch")
      else ok session

module _ (q : QueueStore) (env : Env) (p : Platform) where
  open q use {Q}

  abbrev count_metrics : (Metrics → Metrics) → Step Q (Unit {0})
  count_metrics f w = (ok tt, record w { metrics = f w.metrics })

  abbrev count_rejected : Metrics → Metrics
  count_rejected m = record m { events_rejected = m.events_rejected + 1 }

  abbrev received : List ParsedEvent → Metrics → Metrics
  received parsed m = record m { events_received = m.events_received ++ map (λ e. e.format) parsed }

  count_inserted : List DeviceEventPersistence → ℕ
  count_inserted [] = 0
  count_inserted (item ∷ items) = (if item.inserted then 1 else 0) + count_inserted items

  -- The loop over the persisted records.
  note_persisted : List DeviceEventPersistence → Step Q (Unit {0})
  unfolding count_inserted
  note_persisted persisted = do
    count_metrics
        (λ m. record m { events_persisted = m.events_persisted + count_inserted persisted })
    publish_all (map (λ item. item.activity) persisted)

  abbrev parsed_or_counted : Result Failure (List ParsedEvent) → Step Q (List ParsedEvent)
  parsed_or_counted (ok parsed) = pure parsed
  parsed_or_counted (err e) = do count_metrics count_rejected; raise e

  abbrev persisted_or_counted :
      Result Failure (List DeviceEventPersistence) → Step Q (List DeviceEventPersistence)
  persisted_or_counted (ok persisted) = pure persisted
  persisted_or_counted (err e) = do
    count_metrics count_rejected
    raise (internal (concat ("persist Event batch: " ∷ failure_text e ∷ [])))

  events_handler : Terminal → Bytes → Step Q Body
  unfolding note_persisted
  events_handler terminal body = do
    parsed ← parsed_or_counted (parse_event_batch p terminal.serial_number body)
    count_metrics (received parsed)
    outcome ← attempt (transaction env (q.insert_device_event_batch (map (λ e. e.event) parsed)))
    persisted ← persisted_or_counted outcome
    note_persisted persisted
    pure (events (map (λ e. e.uuid) parsed))

  abbrev completed_or_refused :
      Result Failure (List Activity × Bool) → Step Q (List Activity × Bool)
  completed_or_refused (ok completed) = pure completed
  completed_or_refused (err e) =
      raise (unprocessable (concat ("CommandResult is invalid: " ∷ failure_text e ∷ [])))

  -- The first exchange after a silence or a restart puts the terminal online.
  abbrev pub resume : Terminal → Session → Bool → Step Q Session
  resume terminal session true = pure session
  resume terminal session false = do
    stored ← transition env terminal "online" (
        event "pushsdk.session_resumed" terminal.serial_number
          "terminal resumed its authenticated PushSDK session" [])
    let online_session = record session { online = true }
    save terminal.push_sdk_serial online_session
    active_inc
    publish stored
    pure online_session

  -- The `switch action`: the session after it, and the body of the answer.
  unfoldable pub perform : Terminal → Action → Session → Bytes → Step Q (Session × Body)
  unfolding events_handler
  perform terminal command_request session body = do
    lift (refuse (not (is_empty body)) (bad_request "CommandRequest body must be empty"))
    (deliveries, activities) ← transaction env (q.claim_isapi_commands terminal.serial_number 20)
    publish_all activities
    pure (session, commands (map command_request_item_for deliveries))
  perform terminal command_result session body = do
    results ← lift (parse_command_result_batch p body)
    outcome ← attempt (transaction env (q.complete_isapi_commands terminal.serial_number results))
    (activities, pending) ← completed_or_refused outcome
    publish_all activities
    pure (session, command_results pending)
  perform terminal event_batch session body = do
    answer ← events_handler terminal body
    pure (session, answer)
  perform terminal logout session body = do
    lift (refuse (not (is_empty body)) (bad_request "Logout body must be empty"))
    stored ←
        transition env terminal "offline"
          (event "pushsdk.logout" terminal.serial_number "terminal logged out" [])
    let closed = record session { authenticated = false; online = false }
    save terminal.push_sdk_serial closed
    active_dec
    publish stored
    pure (closed, logged_out)

  abbrev kept_or_restored :
      Terminal → Session → Session → Result Failure (Unit {0}) → Step Q (Unit {0})
  kept_or_restored terminal session issued (ok _) = pure tt
  kept_or_restored terminal session issued (err e) = do
    save terminal.push_sdk_serial (record issued {
      next_challenge = session.next_challenge;
      next_challenge_at = session.next_challenge_at;
    })
    raise e

  abbrev pub save_checkpoint : Terminal → Action → Session → Session → Step Q (Unit {0})
  save_checkpoint terminal logout session issued = remove_session env terminal
  save_checkpoint terminal _ session issued = do
    saved ← attempt (persist_session env p issued)
    kept_or_restored terminal session issued saved

  -- After the action: the next challenge and its checkpoint.
  unfoldable pub conclude :
      Terminal → Action → Session → Body → Option EncryptionParameters → Step Q Reply
  conclude terminal action session body params = do
    next ← random env random_custom_challenge
    now ← clock env
    let issued = issue session next now
    save terminal.push_sdk_serial issued
    save_checkpoint terminal action session issued
    pure (record { body = body; challenge = next; session = some issued; params = params })

  -- From the online session on: the payload, the action, the next challenge.
  unfoldable pub answer_online : Terminal → Action → Request → Session → Step Q Reply
  answer_online terminal action request session = do
    (payload, params) ← lift (
        payload_for_session p request terminal session (action_text action) request.body
          (requires_body action))
    (acted, body) ← perform terminal action session payload
    conclude terminal action acted body params

  unfoldable pub exchange : Terminal → Action → Request → Step Q Reply
  unfolding answer_online
  exchange terminal action request = do
    found ← lookup_session terminal.push_sdk_serial
    session ← lift (admitted p terminal request found)
    online_session ← resume terminal session session.online
    answer_online terminal action request online_session
