-- ===== src/Store/EventSync/Results.antt =====
-- What each step of a run touches, and what runs are left alone.
use face_recognition_proxy.Prelude.{
  ℕ, ◌+◌, ◌≡◌, refl, ◌∙◌, Option, some, List, String, Bytes, arith, string_eq, nat_eq, ◌==◌,
  Bool-cases, Option-cases, inl, inr,
}
use face_recognition_proxy.Prelude.Table.{get}
use face_recognition_proxy.Result.{Result, ok, err, >>=-eq-ok, Result-cases}
use face_recognition_proxy.AccessControl.{Readers, Moment}
use face_recognition_proxy.AccessControl.Retained.{
  ResponseStatus, more, final, no_match, new_retained_event_search_request,
}
use face_recognition_proxy.PushSdk.Commands.{IsapiCommandResult}
use face_recognition_proxy.Store.Tables.{Activity}
use face_recognition_proxy.Store.Terminals.{insert_gateway_activity}
use face_recognition_proxy.Store.IsapiCommands.{IsapiCommand}
use face_recognition_proxy.Store.IsapiCommands.Queueing.{QueueError, refused, aborted}
use face_recognition_proxy.Store.EventSync.Complete.{complete_phase, declares_other_format}
use face_recognition_proxy.Store.EventSync.Pages.{
  PageAnswer, counted_run, completed_run, insert_retained_access_events, read_page, next_page,
  last_page, capture_page, complete_access_event_sync_page, after_page,
}
use face_recognition_proxy.Store.EventSync.Search.{
  linked, queue_drawn, queue_page, started_run, start_search, read_time, sync_command,
  complete_access_event_sync_time,
}
use face_recognition_proxy.Store.EventSync.Tables.{
  SyncRun, Phase, time_phase, page_phase, SyncLink, SyncDb, set_sync, set_run, link_command,
}
use face_recognition_proxy.Store.EventSync.Touches.{
  terminal_of, Touches, Touches-refl, Touches-trans, insert-Touches, set_run-Touches, queue-Touches,
  link_command-Touches, retain-Touches, fail-Touches, insert_retained-Grows,
}

module _ (r : Readers) (random : ℕ → ℕ → Option Bytes) (gateway_location : String) (now : ℕ)
    (uuid : String) where
  linked-Touches :
      (position : ℕ) (reason : String) (db : SyncDb)
      (next : Activity → SyncDb → Result String (SyncDb × List Activity))
      (queued : Result QueueError (SyncDb × (IsapiCommand × Activity)))
      → ((db1 : SyncDb) (command : IsapiCommand) (a : Activity)
          → queued ≡ ok (db1, (command, a))
          → Touches uuid db db1)
      → ((a : Activity) (db1 db2 : SyncDb) (made : List Activity)
          → next a db1 ≡ ok (db2, made)
          → Touches uuid db1 db2)
      → (db' : SyncDb) (made : List Activity)
      → linked r random gateway_location now uuid position reason db queued next ≡ ok (db', made)
      → Touches uuid db db'
  linked-Touches position reason db next (err (refused e)) first after db' made h =
      fail-Touches uuid now reason db db' made h
  linked-Touches position reason db next (err (aborted e)) first after db' made h = cc
  linked-Touches position reason db next (ok (db1, (command, a))) first after db' made h =
      let link : SyncLink = record { run_uuid = uuid; phase = page_phase position } in
      let (db2, placed, h1) = >>=-eq-ok (link_command command.uuid link db1) _ h in
      Touches-trans uuid db db1 db' (first db1 command a refl) (
        Touches-trans uuid db1 db2 db' (link_command-Touches uuid command.uuid link db1 db2 placed)
          (after a db2 db' made h1))

  queue_page-Touches :
      (run : SyncRun) (created_by_id position : ℕ) (request : Bytes) (reason : String) (db : SyncDb)
      (next : Activity → SyncDb → Result String (SyncDb × List Activity))
      → ((a : Activity) (db1 db2 : SyncDb) (made : List Activity)
          → next a db1 ≡ ok (db2, made)
          → Touches uuid db1 db2)
      → (db' : SyncDb) (made : List Activity)
      → queue_page r random gateway_location now uuid run created_by_id position request reason db
          next
        ≡ ok (db', made)
      → Touches uuid db db'
  unfolding queue_page queue_drawn
  queue_page-Touches run created_by_id position request reason db next after db' made h =
      linked-Touches position reason db next
        (queue_drawn r random gateway_location now
          (sync_command r random gateway_location now run created_by_id "POST" _ "jsonData" request)
          db)
        (λ db1 command a e.
          queue-Touches uuid now (random now db.queues.sync.drawn) _ db db1 command a e)
        after db' made h

  start_search-Touches :
      (run : SyncRun) (terminal_now : Moment) (request : Bytes) (db db' : SyncDb)
      (made : List Activity)
      → terminal_of (get uuid db.queues.sync.runs) ≡ some run.terminal_serial_number
      → start_search r random gateway_location now uuid run terminal_now request db ≡ ok (db', made)
      → Touches uuid db db'
  unfolding start_search
  start_search-Touches run terminal_now request db db' made here h =
      elim (Option-cases run.created_by_id) [
        | inl e ↦ fail-Touches uuid now _ db db' made (rw (e, start_search) at h)
        | inr (id, e) ↦
            let started = started_run r random gateway_location now terminal_now run in
            Touches-trans uuid db (set_run uuid started db) db'
              (set_run-Touches uuid started db here)
              (queue_page-Touches run id 0 request _ (set_run uuid started db) _
                (λ a db1 db2 more_made e'.
                  let ((db3, stored), inserted, h1) =
                    >>=-eq-ok (insert_gateway_activity now _ db1) _ e' in
                  let same : db2 ≡ db3 = ground arith in
                  rw same (insert-Touches uuid now _ stored db1 db3 inserted))
                db' made (rw (e, start_search) at h))
      ]

  time-Touches :
      (run : SyncRun) (source : Bytes) (db db' : SyncDb) (made : List Activity)
      → terminal_of (get uuid db.queues.sync.runs) ≡ some run.terminal_serial_number
      → complete_access_event_sync_time r random gateway_location now uuid run source db
        ≡ ok (db', made)
      → Touches uuid db db'
  unfolding complete_access_event_sync_time
  time-Touches run source db db' made here h =
      elim (Result-cases (read_time r random gateway_location now run source)) [
        | inl ((terminal_now, request), e) ↦
            start_search-Touches run terminal_now request db db' made here
              (rw (e, complete_access_event_sync_time) at h)
        | inr (reason, e) ↦
            fail-Touches uuid now reason db db' made (rw (e, complete_access_event_sync_time) at h)
      ]

  next_page-Touches :
      (run : SyncRun) (a : PageAnswer) (inserted : ℕ) (captured : Activity) (db db' : SyncDb)
      (made : List Activity)
      → terminal_of (get uuid db.queues.sync.runs) ≡ some run.terminal_serial_number
      → next_page r random gateway_location now uuid run a inserted captured db ≡ ok (db', made)
      → Touches uuid db db'
  unfolding next_page
  next_page-Touches run a inserted captured db db' made here h =
      elim (Option-cases run.created_by_id) [
        | inl e ↦ fail-Touches uuid now _ db db' made (rw (e, next_page) at h)
        | inr (id, e) ↦
            let counted = counted_run a inserted run in
            let (request, _, h1) =
              >>=-eq-ok (new_retained_event_search_request r run.search_id a.next _) _
                (rw (e, next_page) at h) in
            Touches-trans uuid db (set_run uuid counted db) db'
              (set_run-Touches uuid counted db here)
              (queue_page-Touches run id a.next request _ (set_run uuid counted db) _
                (λ x db1 db2 more_made e'.
                  let same : db2 ≡ db1 = ground arith in rw same (Touches-refl uuid db1))
                db' made h1)
      ]

  last_page-Touches :
      (run : SyncRun) (a : PageAnswer) (inserted : ℕ) (captured : Activity) (db db' : SyncDb)
      (made : List Activity)
      → terminal_of (get uuid db.queues.sync.runs) ≡ some run.terminal_serial_number
      → last_page r random gateway_location now uuid run a inserted captured db ≡ ok (db', made)
      → Touches uuid db db'
  unfolding last_page
  last_page-Touches run a inserted captured db db' made here h =
      let counted = counted_run a inserted run in
      let done = completed_run now counted in
      elim (Bool-cases
        (counted.records_imported + counted.records_duplicate == a.answer.total_matches)) [
          | inr e ↦ fail-Touches uuid now _ db db' made (rw (e, last_page) at h)
          | inl e ↦
              let ((db1, stored), inserted_event, h1) =
                >>=-eq-ok (insert_gateway_activity now _ (set_run uuid done db)) _
                  (rw (e, last_page) at h) in
              let same : db' ≡ db1 = ground arith in
              rw same (
                Touches-trans uuid db (set_run uuid done db) db1 (set_run-Touches uuid done db here)
                  (insert-Touches uuid now _ stored (set_run uuid done db) db1 inserted_event))
        ]

  after_page-Touches :
      (status : ResponseStatus) (run : SyncRun) (a : PageAnswer) (inserted : ℕ)
      (captured : Activity) (db db' : SyncDb) (made : List Activity)
      → terminal_of (get uuid db.queues.sync.runs) ≡ some run.terminal_serial_number
      → after_page r random gateway_location now status uuid run a inserted captured db
        ≡ ok (db', made)
      → Touches uuid db db'
  after_page-Touches more run a inserted captured db db' made here h =
      next_page-Touches run a inserted captured db db' made here h
  after_page-Touches final run a inserted captured db db' made here h =
      last_page-Touches run a inserted captured db db' made here h
  after_page-Touches no_match run a inserted captured db db' made here h =
      last_page-Touches run a inserted captured db db' made here h

  capture_page-Touches :
      (run : SyncRun) (a : PageAnswer) (db db' : SyncDb) (made : List Activity)
      → terminal_of (get uuid db.queues.sync.runs) ≡ some run.terminal_serial_number
      → capture_page r random gateway_location now uuid run a db ≡ ok (db', made)
      → Touches uuid db db'
  unfolding capture_page
  capture_page-Touches run a db db' made here h =
      let ((kept, n), retained, h0) =
        >>=-eq-ok (insert_retained_access_events a.rows db.queues.sync.retained) _ h in
      let (grows, _) = insert_retained-Grows a.rows db.queues.sync.retained kept n retained in
      let db0 = set_sync (record (db.queues.sync) { retained = kept }) db in
      let ((db1, captured), inserted, h1) = >>=-eq-ok (insert_gateway_activity now _ db0) _ h0 in
      Touches-trans uuid db db0 db' (retain-Touches uuid kept db grows) (
        Touches-trans uuid db0 db1 db' (insert-Touches uuid now _ captured db0 db1 inserted) (
          after_page-Touches a.answer.response_status run a n captured db1 db' made
            ((insert-Touches uuid now _ captured db0 db1 inserted).3 uuid ∙ here) h1))

  pub phase-Touches :
      (phase : Phase) (run : SyncRun) (result : IsapiCommandResult) (source : Bytes)
      (db db' : SyncDb) (made : List Activity)
      → terminal_of (get uuid db.queues.sync.runs) ≡ some run.terminal_serial_number
      → complete_phase r random gateway_location now phase uuid run result source db
        ≡ ok (db', made)
      → Touches uuid db db'
  unfolding complete_phase complete_access_event_sync_page
  phase-Touches time_phase run result source db db' made here h =
      time-Touches run source db db' made here h
  phase-Touches (page_phase position) run result source db db' made here h =
      elim (Bool-cases (declares_other_format result.data_format)) [
        | inl e ↦ fail-Touches uuid now _ db db' made (rw (e, complete_phase) at h)
        | inr e ↦
            elim (Result-cases
              (read_page r random gateway_location now uuid run position result.uuid source)) [
                | inl (a, e') ↦
                    capture_page-Touches run a db db' made here
                      (rw (e, complete_phase, e', complete_access_event_sync_page) at h)
                | inr (reason, e') ↦
                    fail-Touches uuid now reason db db' made
                      (rw (e, complete_phase, e', complete_access_event_sync_page) at h)
              ]
      ]
