-- ===== src/Store/EventSync/Rows.antt =====
-- The row of a run after a page: stopped, with its next command, or complete.
use face_recognition_proxy.Prelude.{
  ℕ, ◌+◌, ◌≡◌, ◌⊎◌, refl, ap, true, Option, some, List, [], ◌∷◌, String, Bytes, arith, nat_eq, ◌==◌,
  Bool-cases, Option-cases, inl, inr,
}
use face_recognition_proxy.Prelude.Table.{get, get-put_same}
use face_recognition_proxy.Result.{Result, ok, err, >>=-eq-ok}
use face_recognition_proxy.AccessControl.{Readers}
use face_recognition_proxy.AccessControl.Retained.{new_retained_event_search_request}
use face_recognition_proxy.Store.Tables.{Activity}
use face_recognition_proxy.Store.Terminals.{insert_gateway_activity}
use face_recognition_proxy.Store.IsapiCommands.{IsapiCommand}
use face_recognition_proxy.Store.IsapiCommands.Queueing.{QueueError, refused, aborted}
use face_recognition_proxy.Store.IsapiCommands.Queueing.Fresh.{
  insert_same, queue_isapi_command_tx-Queued,
}
use face_recognition_proxy.Store.EventSync.Pages.{
  PageAnswer, counted_run, completed_run, next_page, last_page,
}
use face_recognition_proxy.Store.EventSync.Search.{linked, queue_drawn, queue_page, sync_command}
use face_recognition_proxy.Store.EventSync.Touches.{link_command-eq-ok}
use face_recognition_proxy.Store.EventSync.Tables.{
  failed, is_active, SyncRun, page_phase, SyncLink, SyncDb, set_run, failed_run,
  fail_access_event_sync, link_command,
}

abbrev pub IsFailed : Option SyncRun → Type 0
IsFailed row =
    (run : SyncRun) × (reason : String) × (row ≡ some run)
    × (run.status ≡ failed)
    × (run.failure ≡ some reason)

-- The row of an active run that is stopped.
pub fail_row :
    (now : ℕ) (uuid reason : String) (run : SyncRun) (db db' : SyncDb) (made : List Activity)
    → get uuid db.queues.sync.runs ≡ some run
    → is_active run.status ≡ true
    → fail_access_event_sync now uuid reason db ≡ ok (db', made)
    → IsFailed (get uuid db'.queues.sync.runs)
unfolding fail_access_event_sync
fail_row now uuid reason run db db' made found live h =
    let stopped = failed_run now reason run in
    let ((db1, stored), inserted, h1) =
      >>=-eq-ok (insert_gateway_activity now _ (set_run uuid stopped db)) _
        (rw (found, fail_access_event_sync, live) at h) in
    let same : db' ≡ db1 = ground arith in
    let (queues, _) = insert_same now _ (set_run uuid stopped db) db1 stored inserted in
    (stopped, reason, rw (same, queues) (get-put_same uuid stopped db.queues.sync.runs), refl, refl)

-- A page command of the run stands at a position.
abbrev pub HasPage : String → ℕ → SyncDb → Type 0
HasPage uuid position db =
    (command_uuid : String) × (get command_uuid db.queues.sync.links
      ≡ some (record { run_uuid = uuid; phase = page_phase position }))

module _ (r : Readers) (random : ℕ → ℕ → Option Bytes) (gateway_location : String) (now : ℕ)
    (uuid : String) where
  -- The run stands as it stood before its next page was queued, or it is stopped.
  linked_row :
      (run : SyncRun) (position : ℕ) (reason : String) (captured : Activity) (db : SyncDb)
      (queued : Result QueueError (SyncDb × (IsapiCommand × Activity)))
      → get uuid db.queues.sync.runs ≡ some run
      → is_active run.status ≡ true
      → ((db1 : SyncDb) (x : IsapiCommand × Activity)
          → queued ≡ ok (db1, x)
          → db1.queues.sync.runs ≡ db.queues.sync.runs)
      → (db' : SyncDb) (made : List Activity)
      → linked r random gateway_location now uuid position reason db queued
          (λ a db1. ok (db1, captured ∷ a ∷ []))
        ≡ ok (db', made)
      → IsFailed (get uuid db'.queues.sync.runs)
        ⊎ ((get uuid db'.queues.sync.runs ≡ some run) × HasPage uuid position db')
  linked_row run position reason captured db (err (refused e)) found live keeps db' made h =
      inl (fail_row now uuid reason run db db' made found live h)
  linked_row run position reason captured db (err (aborted e)) found live keeps db' made h = cc
  linked_row run position reason captured db (ok (db1, (command, a))) found live keeps db' made h =
      let link : SyncLink = record { run_uuid = uuid; phase = page_phase position } in
      let (db2, placed, h1) = >>=-eq-ok (link_command command.uuid link db1) _ h in
      let same : db' ≡ db2 = ground arith in
      let linked = link_command-eq-ok command.uuid link db1 db2 placed in
      inr (
        rw (same, linked, keeps db1 (command, a) refl) found,
        (command.uuid, rw (same, linked) (get-put_same command.uuid link db1.queues.sync.links)),
      )

  pub next_row :
      (run : SyncRun) (a : PageAnswer) (inserted : ℕ) (captured : Activity) (db db' : SyncDb)
      (made : List Activity)
      → get uuid db.queues.sync.runs ≡ some run
      → is_active run.status ≡ true
      → next_page r random gateway_location now uuid run a inserted captured db ≡ ok (db', made)
      → IsFailed (get uuid db'.queues.sync.runs)
        ⊎ ((get uuid db'.queues.sync.runs ≡ some (counted_run a inserted run))
            × HasPage uuid a.next db')
  unfolding next_page queue_page queue_drawn
  next_row run a inserted captured db db' made found live h =
      elim (Option-cases run.created_by_id) [
        | inl e ↦ inl (fail_row now uuid _ run db db' made found live (rw (e, next_page) at h))
        | inr (id, e) ↦
            let counted = counted_run a inserted run in
            let (request, _, h1) =
              >>=-eq-ok (new_retained_event_search_request r run.search_id a.next _) _
                (rw (e, next_page) at h) in
            let db0 = set_run uuid counted db in
            linked_row counted a.next _ captured db0
              (queue_drawn r random gateway_location now
                (sync_command r random gateway_location now run id "POST" _ "jsonData" request) db0)
              (get-put_same uuid counted db.queues.sync.runs) live
              (λ db1 x queued.
                let (_, _, sync) = queue_isapi_command_tx-Queued now _ _ _ db1 x.0 x.1 queued in
                ap (λ t. t.runs) sync)
              db' made h1
      ]

  pub last_row :
      (run : SyncRun) (a : PageAnswer) (inserted : ℕ) (captured : Activity) (db db' : SyncDb)
      (made : List Activity)
      → get uuid db.queues.sync.runs ≡ some run
      → is_active run.status ≡ true
      → last_page r random gateway_location now uuid run a inserted captured db ≡ ok (db', made)
      → let counted = counted_run a inserted run in
        IsFailed (get uuid db'.queues.sync.runs)
        ⊎ ((get uuid db'.queues.sync.runs ≡ some (completed_run now counted))
            × (counted.records_imported + counted.records_duplicate ≡ a.answer.total_matches))
  unfolding last_page
  last_row run a inserted captured db db' made found live h =
      let counted = counted_run a inserted run in
      let over = completed_run now counted in
      elim (Bool-cases
        (counted.records_imported + counted.records_duplicate == a.answer.total_matches)) [
          | inr e ↦ inl (fail_row now uuid _ run db db' made found live (rw (e, last_page) at h))
          | inl e ↦
              let ((db1, stored), written, h1) =
                >>=-eq-ok (insert_gateway_activity now _ (set_run uuid over db)) _
                  (rw (e, last_page) at h) in
              let same : db' ≡ db1 = ground arith in
              let (queues, _) = insert_same now _ (set_run uuid over db) db1 stored written in
              inr (rw (same, queues) (get-put_same uuid over db.queues.sync.runs), ground arith)
        ]
