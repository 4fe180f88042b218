-- ===== src/Store/IsapiCommands/Results.antt =====
-- A terminal's results: each is taken once, and a repetition changes nothing.
use text.Mathlib.TextPositions.{eq_refl}
use face_recognition_proxy.Prelude.{
  ℕ, ◌≡◌, refl, ◌∙◌, ap, true, none, some, List, [], ◌∷◌, String, arith, string_eq, ◌==◌,
  Option-cases, inl, inr,
}
use face_recognition_proxy.Result.{Result, ok, >>=-eq-ok}
use face_recognition_proxy.PushSdk.Commands.{IsapiCommandResult}
use face_recognition_proxy.PushSdk.Service.Types.{QueueStore, DeviceEventPersistence}
use face_recognition_proxy.PushSdk.Events.{NewDeviceEvent}
use face_recognition_proxy.PushSdk.Service.Exchange.Effects.{QueueLaws, KeepsCheckpoints}
use face_recognition_proxy.Store.Tables.{Activity, Db}
use face_recognition_proxy.Store.Terminals.{insert_gateway_activity}
use face_recognition_proxy.Store.IsapiCommands.{
  IsapiCommand, Queues, SyncStore, complete, update_rows, find_command, set_commands, repeats,
  find_result_row, complete_sent, complete_found, complete_each, claim_isapi_commands,
  expire_overdue, complete_isapi_commands,
}
use face_recognition_proxy.Store.IsapiCommands.Lifecycle.{
  SyncLaws, Kept-trans, insert-Kept, find_updated, found_row, claim_isapi_commands-Kept,
  complete_isapi_commands-Kept,
}

repeats_itself :
    (result : IsapiCommandResult) (now : ℕ) (c : IsapiCommand)
    → repeats result (complete result now c) ≡ true
repeats_itself result now c = elim (Option-cases result.data_format) [
  | inl e ↦ simp e (rw (eq_refl result.data_base64))
  | inr (format, e) ↦ simp e (rw (eq_refl format, eq_refl result.data_base64))
]

module _ (s : SyncStore) (laws : SyncLaws s) (now : ℕ) where
  open s use {S}

  -- The completed row is still there after the records and the synchronisation.
  completed_row :
      (serial : String) (result : IsapiCommandResult) (c : IsapiCommand) (db db' : Db (Queues S))
      (a : List Activity)
      → find_command result.uuid db.queues.commands ≡ some c
      → complete_sent s now serial result db ≡ ok (db', a)
      → find_command result.uuid db'.queues.commands ≡ some (complete result now c)
  unfolding complete_sent
  completed_row serial result c db db' a found h =
      let rows =
        update_rows (λ d. d.uuid == result.uuid) (complete result now) db.queues.commands in
      let ((db1, stored), first, h1) =
        >>=-eq-ok (insert_gateway_activity now _ (set_commands rows.1 db)) _ h in
      let ((db2, synced), second, h2) = >>=-eq-ok (s.complete_sync serial result now db1) _ h1 in
      let same : db' ≡ db2 = ground arith in
      let there =
        find_updated (complete result now) result.uuid result.uuid (λ d. refl) db.queues.commands c
          found in
      let (follows, _) =
        Kept-trans (set_commands rows.1 db) db1 db2
          (insert-Kept now _ stored (set_commands rows.1 db) db1 first)
          (laws.complete_keeps serial result now db1 db2 synced second) in
      let (c', there', moved) =
        follows result.uuid (complete result now c) (rw (eq_refl result.uuid) at there) in
      rw same (there' ∙ ap some (moved.2 refl))

  found_again :
      (later : ℕ) (serial : String) (result : IsapiCommandResult) (c : IsapiCommand)
      (cs : List IsapiCommand)
      → find_command result.uuid cs ≡ some c
      → (c.terminal_serial_number == serial) ≡ true
      → find_result_row s later serial result cs ≡ some c
  unfolding find_result_row
  found_again later serial result c cs found owner = ground arith

  owner_row :
      (serial : String) (result : IsapiCommandResult) (cs : List IsapiCommand) (c : IsapiCommand)
      → find_result_row s now serial result cs ≡ some c
      → (c.terminal_serial_number == serial) ≡ true
  unfolding find_result_row
  owner_row serial result cs c h = ground arith

  -- Under the same law of the synchronisation: after the result of a sent command is taken, the
  -- same result, at any later time, is accepted, and changes and records nothing.
  pub complete_each-again :
      (serial : String) (result : IsapiCommandResult) (c : IsapiCommand) (db db' : Db (Queues S))
      (a : List Activity) (later : ℕ)
      → find_result_row s now serial result db.queues.commands ≡ some c
      → complete_sent s now serial result db ≡ ok (db', a)
      → complete_each s later serial (result ∷ []) db' ≡ ok (db', [])
  unfolding complete_each find_result_row complete_found
  complete_each-again serial result c db db' a later found h =
      let row =
        completed_row serial result c db db' a
          (found_row s laws now serial result db.queues.commands c found) h in
      let owner : (c.terminal_serial_number == serial) ≡ true =
        owner_row serial result db.queues.commands c found in
      rw (
        found_again later serial result (complete result now c) db'.queues.commands row owner,
        complete_each,
        repeats_itself result now c,
      )

module _ (s : SyncStore)
    (insert : List NewDeviceEvent
      → ℕ
      → Db (Queues s.S)
      → Result String (Db (Queues s.S) × List DeviceEventPersistence)) where
  -- The service's view of the queue.
  abbrev pub command_queues : QueueStore
  command_queues = record {
    Q = Queues s.S;
    claim_isapi_commands = λ serial limit now. claim_isapi_commands s now serial limit;
    complete_isapi_commands = λ serial results now. complete_isapi_commands s now serial results;
    insert_device_event_batch = insert;
    expire_overdue_isapi_commands = λ now. expire_overdue s now none;
  }

  -- If the synchronisation and the insertion of events write no session checkpoint, the command
  -- queue with that insertion is a queue store of the service that writes none, so that the
  -- theorem on the exchange holds for it.
  pub command_queues-QueueLaws :
      SyncLaws s
      → ((events : List NewDeviceEvent) → KeepsCheckpoints (insert events))
      → QueueLaws command_queues
  command_queues-QueueLaws laws inserts = record {
    claim_keeps = λ serial limit now db db' a h.
        (claim_isapi_commands-Kept s laws now serial limit db db' a h).1;
    complete_keeps = λ serial results now db db' a h.
        (complete_isapi_commands-Kept s laws now serial results db db' a h).1;
    insert_keeps = inserts;
  }
