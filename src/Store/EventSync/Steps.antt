-- ===== src/Store/EventSync/Steps.antt =====
-- Runs over time: the calls that change the tables of the synchronisation, as steps.
use face_recognition_proxy.Prelude.{
  ℕ, ◌≡◌, refl, ap, ◌∙◌, Bool, false, not, Option, none, some, List, [], ◌∷◌, String, Bytes, arith,
  string_eq, ◌==◌,
}
use face_recognition_proxy.Prelude.Table.{get}
use face_recognition_proxy.Result.{Result, ok, err, refuse, require, >>=-eq-ok}
use face_recognition_proxy.AccessControl.{Readers}
use face_recognition_proxy.PushSdk.Commands.{IsapiCommandResult}
use face_recognition_proxy.Store.Tables.{Activity}
use face_recognition_proxy.Store.Terminals.{insert_gateway_activity}
use face_recognition_proxy.Store.IsapiCommands.{
  IsapiCommand, is_overdue, expire, update_rows, set_commands, expired_activity, was_sent,
  note_expired, expire_overdue,
}
use face_recognition_proxy.Store.IsapiCommands.Queueing.{
  AdminIdentity, QueueError, has_identity, new_isapi_command_uuid, as_error,
}
use face_recognition_proxy.Store.IsapiCommands.Queueing.Fresh.{
  insert_same, queue_isapi_command_tx-Queued,
}
use face_recognition_proxy.Store.EventSync.Closed.{expired-TouchesActive, completed-TouchesActive}
use face_recognition_proxy.Store.EventSync.Complete.{complete_access_event_sync_command, event_sync}
use face_recognition_proxy.Store.EventSync.Progress.{
  Progress, Progress-same, Progress-trans, Progress-touched, Progress-begun,
}
use face_recognition_proxy.Store.EventSync.Search.{queue_drawn}
use face_recognition_proxy.Store.EventSync.Start.{
  any_active, is_run, new_run, add_run, time_command, add_checked_run, queue_access_event_sync,
}
use face_recognition_proxy.Store.EventSync.Tables.{
  SyncRun, SyncLink, time_phase, SyncDb, link_command, fail_expired_access_event_sync_command,
}
use face_recognition_proxy.Store.EventSync.Touches.{link_command-eq-ok}

unknown : (o : Option SyncRun) → is_run o ≡ false → o ≡ none
unknown none h = refl
unknown (some run) h = cc

as_error-ok {ℓ} : {A : Type ℓ} (r : Result QueueError A) (a : A) → as_error r ≡ ok a → r ≡ ok a
as_error-ok (ok b) a h = ground arith
as_error-ok (err e) a h = cc

module _ (r : Readers) (random : ℕ → ℕ → Option Bytes) (gateway_location : String) where
  note_expired-Progress :
      (now : ℕ) (cs : List IsapiCommand) (db db' : SyncDb) (made : List Activity)
      → note_expired (event_sync r random gateway_location) now cs db ≡ ok (db', made)
      → Progress db db'
  unfolding note_expired
  note_expired-Progress now [] db db' made h = Progress-same db db' (ground arith)
  note_expired-Progress now (c ∷ cs) db db' made h =
      let ((db1, stored), first, h1) =
        >>=-eq-ok (insert_gateway_activity now (expired_activity c) db) _ h in
      let ((db2, synced), second, h2) =
        >>=-eq-ok (fail_expired_access_event_sync_command c.uuid (was_sent c) now db1) _ h1 in
      let ((db3, rest), third, h3) =
        >>=-eq-ok (note_expired (event_sync r random gateway_location) now cs db2) _ h2 in
      let same : db' ≡ db3 = ground arith in
      rw same (
        Progress-trans db db1 db3
          (Progress-same db db1 (ap (λ q. q.sync) (insert_same now _ db db1 stored first).0))
          (Progress-trans db1 db2 db3
            (Progress-touched db1 db2
              (expired-TouchesActive c.uuid (was_sent c) now db1 db2 synced second))
            (note_expired-Progress now cs db2 db3 rest third)))

  expire_overdue-Progress :
      (now : ℕ) (serial : Option String) (db db' : SyncDb) (made : List Activity)
      → expire_overdue (event_sync r random gateway_location) now serial db ≡ ok (db', made)
      → Progress db db'
  unfolding expire_overdue
  expire_overdue-Progress now serial db db' made h =
      let rows = update_rows (is_overdue serial now) (expire now) db.queues.commands in
      Progress-trans db (set_commands rows.1 db) db'
        (Progress-same db (set_commands rows.1 db) refl)
        (note_expired-Progress now rows.0 (set_commands rows.1 db) db' made h)

  add_checked_run-Progress :
      (now : ℕ) (serial : String) (identity : AdminIdentity) (uuid : String) (db db' : SyncDb)
      (made : List Activity)
      → any_active serial db.queues.sync.runs ≡ false
      → add_checked_run r random gateway_location now serial identity uuid db ≡ ok (db', made)
      → Progress db db'
  unfolding add_checked_run queue_drawn
  add_checked_run-Progress now serial identity uuid db db' made quiet h =
      let run = new_run serial identity uuid now in
      let db0 = add_run uuid run db in
      let (_, new, h1) = >>=-eq-ok (refuse (is_run (get uuid db.queues.sync.runs)) _) _ h in
      let ((db1, (command, commanded)), first, h2) =
        >>=-eq-ok
          (as_error
            (queue_drawn r random gateway_location now (time_command serial identity now) db0))
          _ h1 in
      let link : SyncLink = record { run_uuid = uuid; phase = time_phase } in
      let (db2, second, h3) = >>=-eq-ok (link_command command.uuid link db1) _ h2 in
      let ((db3, started), third, h4) = >>=-eq-ok (insert_gateway_activity now _ db2) _ h3 in
      let same : db' ≡ db3 = ground arith in
      let (_, _, queued) =
        queue_isapi_command_tx-Queued now _ (time_command serial identity now) _ db1 command
          commanded (as_error-ok _ _ first) in
      let linked = link_command-eq-ok command.uuid link db1 db2 second in
      let (queues, _) = insert_same now _ db2 db3 started third in
      let absent : is_run (get uuid db.queues.sync.runs) ≡ false = ground arith in
      rw same (
        Progress-begun uuid serial run db db3 (unknown _ absent) quiet refl
          (ap (λ q. q.sync.runs) queues
            ∙ ap (λ d. d.queues.sync.runs) linked
            ∙ ap (λ t. t.runs) queued)
          (ap (λ q. q.sync.retained) queues
            ∙ ap (λ d. d.queues.sync.retained) linked
            ∙ ap (λ t. t.retained) queued))

  queue_access_event_sync-Progress :
      (now : ℕ) (serial : String) (identity : AdminIdentity) (db db' : SyncDb)
      (answer : SyncRun × List Activity)
      → queue_access_event_sync r random gateway_location now serial identity db ≡ ok (db', answer)
      → Progress db db'
  unfolding queue_access_event_sync
  queue_access_event_sync-Progress now serial identity db db' answer h =
      let (_, _, h1) = >>=-eq-ok (refuse (not (has_identity identity)) _) _ h in
      let ((db1, expirations), first, h2) =
        >>=-eq-ok (expire_overdue (event_sync r random gateway_location) now (some serial) db) _
          h1 in
      let (row, _, h3) = >>=-eq-ok (require (get serial db1.terminals) _) _ h2 in
      let (_, _, h4) = >>=-eq-ok (refuse (not (row.connection_status == "online")) _) _ h3 in
      let (_, idle, h5) = >>=-eq-ok (refuse (any_active serial db1.queues.sync.runs) _) _ h4 in
      let (uuid, _, h6) =
        >>=-eq-ok (require (new_isapi_command_uuid (random now db1.queues.sync.drawn)) _) _ h5 in
      let ((db2, recorded), second, h7) =
        >>=-eq-ok (add_checked_run r random gateway_location now serial identity uuid db1) _ h6 in
      let same : db' ≡ db2 = ground arith in
      let quiet : any_active serial db1.queues.sync.runs ≡ false = ground arith in
      rw same (
        Progress-trans db db1 db2
          (expire_overdue-Progress now (some serial) db db1 expirations first)
          (add_checked_run-Progress now serial identity uuid db1 db2 recorded quiet second))

  -- A run begins; a command's result arrives, or its deadline passes; or something else happens that
  -- leaves the tables of the synchronisation alone.
  pub data Step (db db' : SyncDb) : Type 0 where
    begun :
        (now : ℕ) (serial : String) (identity : AdminIdentity) (answer : SyncRun × List Activity)
        → queue_access_event_sync r random gateway_location now serial identity db
          ≡ ok (db', answer)
        → Step db db'
    answered :
        (now : ℕ) (serial : String) (result : IsapiCommandResult) (made : List Activity)
        → complete_access_event_sync_command r random gateway_location now serial result db
          ≡ ok (db', made)
        → Step db db'
    lapsed :
        (now : ℕ) (command_uuid : String) (delivered : Bool) (made : List Activity)
        → fail_expired_access_event_sync_command command_uuid delivered now db ≡ ok (db', made)
        → Step db db'
    elsewhere : db'.queues.sync ≡ db.queues.sync → Step db db'

  pub data Steps (db : SyncDb) : SyncDb → Type 0 where
    done : Steps db db
    next : {db1 db2 : SyncDb} → Steps db db1 → Step db1 db2 → Steps db db2

  Step-Progress : (db db' : SyncDb) → Step db db' → Progress db db'
  Step-Progress db db' (begun now serial identity answer h) =
      queue_access_event_sync-Progress now serial identity db db' answer h
  Step-Progress db db' (answered now serial result made h) =
      Progress-touched db db'
        (completed-TouchesActive r random gateway_location serial result now db db' made h)
  Step-Progress db db' (lapsed now command_uuid delivered made h) =
      Progress-touched db db' (expired-TouchesActive command_uuid delivered now db db' made h)
  Step-Progress db db' (elsewhere same) = Progress-same db db' same

  -- Over any sequence of steps - runs queued, results of commands, commands that expire, and
  -- whatever else leaves the tables of the synchronisation alone - a run that is completed or
  -- failed stays as it is, the rows of the archive stay, and if each terminal had at most one
  -- active run at first, it has at most one in the end.
  pub Steps-Progress : (db db' : SyncDb) → Steps db db' → Progress db db'
  Steps-Progress db db' done = Progress-same db db refl
  Steps-Progress db db' (next {db1} steps step) =
      Progress-trans db db1 db' (Steps-Progress db db1 steps) (Step-Progress db1 db' step)
