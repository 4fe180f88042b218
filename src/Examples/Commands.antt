-- ===== src/Examples/Commands.antt =====
-- One command of a terminal: sent, answered, answered again; and one that is overdue.
use face_recognition_proxy.Prelude.{
  ℕ, ◌≡◌, refl, false, true, some, none, List, [], ◌∷◌, String, arith,
}
use face_recognition_proxy.Result.{Result, ok}
use face_recognition_proxy.PushSdk.Commands.{IsapiCommandResult}
use face_recognition_proxy.PushSdk.Events.{NewDeviceEvent}
use face_recognition_proxy.PushSdk.Service.Types.{DeviceEventPersistence}
use face_recognition_proxy.Store.Tables.{Activity, Field, Db, text, flag}
use face_recognition_proxy.Store.Terminals.{insert_gateway_activity}
use face_recognition_proxy.Store.IsapiCommands.{
  IsapiCommand, Queues, SyncStore, queued, send_now, complete, expire, delivery_of, update_rows,
  claim_rows, find_command, note_expired, expire_overdue, note_sent, claim_isapi_commands,
  find_result_row, complete_sent, complete_found, complete_each, any_claimable,
  complete_isapi_commands,
}
use face_recognition_proxy.Store.IsapiCommands.Lifecycle.{
  SyncLaws, Kept, complete_isapi_commands-Kept,
}
use face_recognition_proxy.Store.IsapiCommands.Moves.{Follows-refl}
use face_recognition_proxy.Store.IsapiCommands.Claimed.{IsClaim, claim_isapi_commands-IsClaim}
use face_recognition_proxy.Store.IsapiCommands.Results.{complete_each-again}

abbrev quiet : SyncStore
quiet = record {
  S = Unit;
  fail_expired = λ uuid delivered now db. ok (db, []);
  complete_sync = λ serial result now db. ok (db, []);
}

unchanged :
    (db db' : Db (Queues (Unit {0}))) (a : List Activity)
    → quiet.fail_expired "" false 0 db ≡ ok (db', a)
    → Kept db db'
unchanged db db' a h =
    let same : db' ≡ db = ground arith in rw same (Follows-refl db.queues.commands, refl)

quiet-SyncLaws : SyncLaws quiet
quiet-SyncLaws = record {
  fail_keeps = λ uuid delivered now db db' a h. unchanged db db' a h;
  complete_keeps = λ serial result now db db' a h. unchanged db db' a h;
}

abbrev open_door : IsapiCommand
open_door = record {
  uuid = "c-1";
  terminal_serial_number = "DS-1";
  created_by_username = "admin";
  method = "PUT";
  url = "/ISAPI/door";
  data_format = "noData";
  request_data = [];
  status = queued;
  created_at = 1;
  expires_at = 50;
  sent_at = none;
  completed_at = none;
  response_data_format = none;
  response_data_format_declared = none;
  response_data_base64 = none;
}

abbrev db_of : IsapiCommand → List Activity → Db (Queues (Unit {0}))
db_of c activities = record {
  terminals = [];
  pushsdk_sessions = [];
  gateway_activities = activities;
  queues = record { commands = c ∷ []; sync = tt };
}

abbrev stored : String → String → List (String × Field) → Activity
stored kind message fields = record {
  id = 1;
  at = 9;
  kind = kind;
  terminal = "DS-1";
  message = message;
  fields = fields;
}

abbrev sending : Activity
sending = stored "pushsdk.command_sent" "gateway sent an ISAPI command to the terminal" (
    ("commandId", text "c-1")
    ∷ ("method", text "PUT")
    ∷ ("url", text "/ISAPI/door")
    ∷ ("dataFormat", text "noData")
    ∷ [])

claim_goes :
    claim_isapi_commands quiet 9 "DS-1" 20 (db_of open_door [])
    ≡ ok (db_of (send_now 9 open_door) (sending ∷ []), (delivery_of open_door ∷ [], sending ∷ []))
unfolding claim_isapi_commands expire_overdue note_expired update_rows claim_rows note_sent
    insert_gateway_activity
claim_goes = refl

claim_isapi_commands-IsClaim_example :
    IsClaim quiet 9 "DS-1" 20
      (db_of open_door [])
      (db_of (send_now 9 open_door) (sending ∷ []))
      (delivery_of open_door ∷ [])
claim_isapi_commands-IsClaim_example =
    claim_isapi_commands-IsClaim quiet 9 "DS-1" 20 (db_of open_door [])
      (db_of (send_now 9 open_door) (sending ∷ [])) (delivery_of open_door ∷ []) (sending ∷ [])
      claim_goes

abbrev answer : IsapiCommandResult
answer = record { uuid = "c-1"; data_format = some "jsonData"; data_base64 = "e30=" }

abbrev completion : Activity
completion = stored "pushsdk.command_completed" "terminal returned an ISAPI command result" (
    ("commandId", text "c-1")
    ∷ ("dataFormatDeclared", flag true)
    ∷ ("dataFormat", text "jsonData")
    ∷ [])

abbrev waiting : IsapiCommand
waiting = send_now 2 open_door

abbrev answered : Db (Queues (Unit {0}))
answered = db_of (complete answer 9 waiting) (completion ∷ [])

answer_goes :
    complete_isapi_commands quiet 9 "DS-1" (answer ∷ []) (db_of waiting [])
    ≡ ok (answered, (completion ∷ [], false))
unfolding complete_isapi_commands complete_each complete_found complete_sent expire_overdue
    note_expired update_rows find_result_row find_command any_claimable insert_gateway_activity
answer_goes = refl

complete_isapi_commands-Kept_example : Kept (db_of waiting []) answered
complete_isapi_commands-Kept_example =
    complete_isapi_commands-Kept quiet quiet-SyncLaws 9 "DS-1" (answer ∷ []) (db_of waiting [])
      answered (completion ∷ [], false) answer_goes

row_found : find_result_row quiet 9 "DS-1" answer (waiting ∷ []) ≡ some waiting
unfolding find_result_row find_command
row_found = refl

completion_goes :
    complete_sent quiet 9 "DS-1" answer (db_of waiting []) ≡ ok (answered, completion ∷ [])
unfolding complete_sent update_rows insert_gateway_activity
completion_goes = refl

complete_each-again_example :
    complete_each quiet 30 "DS-1" (answer ∷ []) answered ≡ ok (answered, [])
complete_each-again_example =
    complete_each-again quiet quiet-SyncLaws 9 "DS-1" answer waiting (db_of waiting []) answered
      (completion ∷ []) 30 row_found completion_goes

abbrev overdue : IsapiCommand
overdue = record open_door { expires_at = 9 }

abbrev expiry : Activity
expiry = stored "pushsdk.command_expired" "ISAPI command expired before terminal delivery" (
    ("commandId", text "c-1")
    ∷ ("method", text "PUT")
    ∷ ("url", text "/ISAPI/door")
    ∷ ("dataFormat", text "noData")
    ∷ ("status", text "expired")
    ∷ ("phase", text "before_delivery")
    ∷ [])

expiry_goes :
    expire_overdue quiet 9 none (db_of overdue [])
    ≡ ok (db_of (expire 9 overdue) (expiry ∷ []), expiry ∷ [])
unfolding expire_overdue note_expired update_rows insert_gateway_activity
expiry_goes = refl

abbrev no_insert :
    List NewDeviceEvent
    → ℕ
    → Db (Queues (Unit {0}))
    → Result String (Db (Queues (Unit {0})) × List DeviceEventPersistence)
no_insert events now db = ok (db, [])
