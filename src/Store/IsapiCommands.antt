-- ===== src/Store/IsapiCommands.antt =====
-- The queue of ISAPI commands of internal/store/isapi_commands.go: a call is a transaction.
pub mod Moves
pub mod Lifecycle
pub mod Results
pub mod Claimed
pub mod Queueing
use face_recognition_proxy.Prelude.{
  ℕ, zero, suc, ◌+◌, Bool, true, false, not, ◌&&◌, ◌||◌, Option, none, some, List, [], ◌∷◌, ◌++◌,
  map, String, Bytes, utf8, concat, ltb, leb, nat_eq, string_eq, ◌==◌, if◌then◌else◌, length,
}
use face_recognition_proxy.Prelude.Table.{get}
use face_recognition_proxy.Result.{Result, ok, err, ◌>>=◌, ◌>>◌, refuse, require}
use face_recognition_proxy.PushSdk.Commands.{IsapiCommandDelivery, IsapiCommandResult}
use face_recognition_proxy.Store.Tables.{Activity, Field, text, flag, Db}
use face_recognition_proxy.Store.Terminals.{insert_gateway_activity}

pub data CommandStatus : Type 0 where
  queued sent completed expired : CommandStatus

pub record IsapiCommand : Type 0 where
  pub uuid : String
  pub terminal_serial_number : String
  pub created_by_username : String
  pub method : String
  pub url : String
  pub data_format : String
  pub request_data : Bytes
  pub status : CommandStatus
  pub created_at : ℕ
  pub expires_at : ℕ
  pub sent_at : Option ℕ
  pub completed_at : Option ℕ
  pub response_data_format : Option String
  pub response_data_format_declared : Option Bool
  pub response_data_base64 : Option String

-- The commands, in the order of creation and, at one time, of their identifiers; beside them what the
-- synchronisation of retained events keeps.
pub record Queues (S : Type 0) : Type 0 where
  pub commands : List IsapiCommand
  pub sync : S

abbrev pub is_open : CommandStatus → Bool
is_open queued = true
is_open sent = true
is_open _ = false

abbrev pub is_queued : CommandStatus → Bool
is_queued queued = true
is_queued _ = false

abbrev pub matches_terminal : Option String → IsapiCommand → Bool
matches_terminal none c = true
matches_terminal (some serial) c = c.terminal_serial_number == serial

abbrev pub is_overdue : Option String → ℕ → IsapiCommand → Bool
is_overdue serial now c = matches_terminal serial c && is_open c.status && leb c.expires_at now

abbrev pub expire : ℕ → IsapiCommand → IsapiCommand
expire now c = record c { status = expired; completed_at = some now }

-- The rows that an update chose, as it left them, and all rows.
unfoldable pub update_rows :
    (IsapiCommand → Bool)
    → (IsapiCommand → IsapiCommand)
    → List IsapiCommand
    → List IsapiCommand × List IsapiCommand
update_rows chosen f [] = ([], [])
update_rows chosen f (c ∷ cs) =
    let (changed, rest) = update_rows chosen f cs in
    if chosen c then (f c ∷ changed, f c ∷ rest) else (changed, c ∷ rest)

abbrev pub was_sent : IsapiCommand → Bool
was_sent c = elim c.sent_at [ none ↦ false | some _ ↦ true ]

abbrev pub command_fields : IsapiCommand → List (String × Field) → List (String × Field)
command_fields c more =
    ("commandId", text c.uuid)
    ∷ ("method", text c.method)
    ∷ ("url", text c.url)
    ∷ ("dataFormat", text c.data_format)
    ∷ more

abbrev pub activity : String → String → String → List (String × Field) → Activity
activity kind terminal message fields = record {
  id = 0;
  at = 0;
  kind = kind;
  terminal = terminal;
  message = message;
  fields = fields;
}

abbrev pub expired_activity : IsapiCommand → Activity
expired_activity c =
    activity "pushsdk.command_expired" c.terminal_serial_number
      (if was_sent c
        then "ISAPI command expired before terminal result"
        else "ISAPI command expired before terminal delivery")
      (command_fields c (
        ("status", text "expired")
        ∷ ("phase", text (if was_sent c then "awaiting_result" else "before_delivery"))
        ∷ []))

abbrev pub is_claimable : String → ℕ → IsapiCommand → Bool
is_claimable serial now c =
    c.terminal_serial_number == serial && is_queued c.status && ltb now c.expires_at

abbrev pub send_now : ℕ → IsapiCommand → IsapiCommand
send_now now c = record c { status = sent; sent_at = some now }

-- `ORDER BY created_at ASC, uuid ASC LIMIT limit`: the commands sent, and all rows.
unfoldable pub claim_rows :
    (IsapiCommand → Bool) → ℕ → ℕ → List IsapiCommand → List IsapiCommand × List IsapiCommand
claim_rows claimable now zero cs = ([], cs)
claim_rows claimable now (suc limit) [] = ([], [])
claim_rows claimable now (suc limit) (c ∷ cs) =
    let (fewer, after) = claim_rows claimable now limit cs in
    let (same, rest) = claim_rows claimable now (suc limit) cs in
    if claimable c then (send_now now c ∷ fewer, send_now now c ∷ after) else (same, c ∷ rest)

abbrev pub delivery_of : IsapiCommand → IsapiCommandDelivery
delivery_of c = record {
  uuid = c.uuid;
  method = c.method;
  url = c.url;
  data_format = c.data_format;
  payload = c.request_data;
}

unfoldable pub find_command : String → List IsapiCommand → Option IsapiCommand
find_command uuid [] = none
find_command uuid (c ∷ cs) = if c.uuid == uuid then some c else find_command uuid cs

abbrev is_some {ℓ} : {A : Type ℓ} → Option A → Bool
is_some none = false
is_some (some _) = true

abbrev pub complete : IsapiCommandResult → ℕ → IsapiCommand → IsapiCommand
complete result now c = record c {
  status = completed;
  completed_at = some now;
  response_data_format = result.data_format;
  response_data_format_declared = some (is_some result.data_format);
  response_data_base64 = some result.data_base64;
}

abbrev same_text : Option String → Option String → Bool
same_text none none = true
same_text (some a) (some b) = a == b
same_text _ _ = false

abbrev same_flag : Option Bool → Bool → Bool
same_flag none declared = false
same_flag (some true) declared = declared
same_flag (some false) declared = not declared

-- A repeated result must be the one that is kept.
abbrev pub repeats : IsapiCommandResult → IsapiCommand → Bool
repeats result c =
    same_text c.response_data_format result.data_format
    && same_flag c.response_data_format_declared (is_some result.data_format)
    && same_text c.response_data_base64 (some result.data_base64)

abbrev result_fields : IsapiCommandResult → List (String × Field)
result_fields result =
    ("commandId", text result.uuid)
    ∷ ("dataFormatDeclared", flag (is_some result.data_format))
    ∷ (elim result.data_format [ none ↦ [] | some format ↦ ("dataFormat", text format) ∷ [] ])

abbrev about : String → String → String
about uuid what = concat ("command result UUID " ∷ uuid ∷ what ∷ [])

-- internal/store/access_event_sync.go: what follows an expired or a completed command there.
pub record SyncStore : Type 1 where
  pub S : Type 0
  pub fail_expired :
      String → Bool → ℕ → Db (Queues S) → Result String (Db (Queues S) × List Activity)
  pub complete_sync :
      String
      → IsapiCommandResult
      → ℕ
      → Db (Queues S)
      → Result String (Db (Queues S) × List Activity)

abbrev pub set_commands : {S : Type 0} → List IsapiCommand → Db (Queues S) → Db (Queues S)
set_commands cs db = record db { queues = record (db.queues) { commands = cs } }

module _ (s : SyncStore) (now : ℕ) where
  open s use {S}

  -- The loop over the expired commands.
  unfoldable pub note_expired :
      List IsapiCommand → Db (Queues S) → Result String (Db (Queues S) × List Activity)
  note_expired [] db = ok (db, [])
  note_expired (c ∷ cs) db = do
    (db1, stored) ← insert_gateway_activity now (expired_activity c) db
    (db2, synced) ← s.fail_expired c.uuid (was_sent c) now db1
    (db3, rest) ← note_expired cs db2
    ok (db3, stored ∷ (synced ++ rest))

  -- expireOverdueISAPICommandsTx
  unfoldable pub expire_overdue :
      Option String → Db (Queues S) → Result String (Db (Queues S) × List Activity)
  expire_overdue serial db =
      let (changed, cs) = update_rows (is_overdue serial now) (expire now) db.queues.commands in
      note_expired changed (set_commands cs db)

  -- The records of the commands sent.
  unfoldable pub note_sent :
      String → List IsapiCommand → Db (Queues S) → Result String (Db (Queues S) × List Activity)
  note_sent serial [] db = ok (db, [])
  note_sent serial (c ∷ cs) db = do
    (db1, stored) ←
        insert_gateway_activity now
          (activity "pushsdk.command_sent" serial "gateway sent an ISAPI command to the terminal"
            (command_fields c []))
          db
    (db2, rest) ← note_sent serial cs db1
    ok (db2, stored ∷ rest)

  unfoldable pub claim_isapi_commands :
      String
      → ℕ
      → Db (Queues S)
      → Result String (Db (Queues S) × (List IsapiCommandDelivery × List Activity))
  claim_isapi_commands serial limit db = do
    refuse (ltb limit 1 || ltb 20 limit) "ISAPI command delivery limit must be 1..20"
    (db1, expirations) ← expire_overdue (some serial) db
    let (claimed, cs) = claim_rows (is_claimable serial now) now limit db1.queues.commands
    (db2, sendings) ← note_sent serial claimed (set_commands cs db1)
    ok (db2, (map delivery_of claimed, expirations ++ sendings))

  -- `WHERE uuid = $1 AND terminal_serial_number = $2`, with the identifier as the key.
  unfoldable pub find_result_row :
      String → IsapiCommandResult → List IsapiCommand → Option IsapiCommand
  find_result_row serial result cs = elim (find_command result.uuid cs) [
    | none ↦ none
    | some c ↦ if c.terminal_serial_number == serial then some c else none
  ]

  -- `case "sent"`
  unfoldable pub complete_sent :
      String → IsapiCommandResult → Db (Queues S) → Result String (Db (Queues S) × List Activity)
  complete_sent serial result db = do
    let (_, cs) = update_rows (λ c. c.uuid == result.uuid) (complete result now) db.queues.commands
    (db1, stored) ←
        insert_gateway_activity now
          (activity "pushsdk.command_completed" serial "terminal returned an ISAPI command result"
            (result_fields result))
          (set_commands cs db)
    (db2, synced) ← s.complete_sync serial result now db1
    ok (db2, stored ∷ synced)

  -- The `switch status`.
  unfoldable pub complete_found :
      String
      → IsapiCommandResult
      → CommandStatus
      → IsapiCommand
      → Db (Queues S)
      → Result String (Db (Queues S) × List Activity)
  complete_found serial result sent c db = complete_sent serial result db
  complete_found serial result completed c db = do
    refuse (not (repeats result c)) (about result.uuid " conflicts with its completed result")
    ok (db, [])
  complete_found serial result queued c db = err (about result.uuid " is in queued state, not sent")
  complete_found serial result expired c db =
      err (about result.uuid " is in expired state, not sent")

  unfoldable pub complete_each :
      String
      → List IsapiCommandResult
      → Db (Queues S)
      → Result String (Db (Queues S) × List Activity)
  complete_each serial [] db = ok (db, [])
  complete_each serial (result ∷ results) db = do
    c ←
        require (find_result_row serial result db.queues.commands)
          (about result.uuid " is not a sent command for this terminal")
    (db1, one) ← complete_found serial result c.status c db
    (db2, rest) ← complete_each serial results db1
    ok (db2, one ++ rest)

  unfoldable pub any_claimable : String → List IsapiCommand → Bool
  any_claimable serial [] = false
  any_claimable serial (c ∷ cs) = is_claimable serial now c || any_claimable serial cs

  unfoldable pub complete_isapi_commands :
      String
      → List IsapiCommandResult
      → Db (Queues S)
      → Result String (Db (Queues S) × (List Activity × Bool))
  complete_isapi_commands serial results db = do
    (db1, expirations) ← expire_overdue (some serial) db
    (db2, completions) ← complete_each serial results db1
    ok (db2, (expirations ++ completions, any_claimable serial db2.queues.commands))
