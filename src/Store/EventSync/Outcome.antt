-- ===== src/Store/EventSync/Outcome.antt =====
-- What becomes of a run when a page arrives.
use face_recognition_proxy.Prelude.{
  ℕ, ◌+◌, ◌≡◌, ◌≤◌, ◌<◌, ◌⊎◌, refl, true, Option, some, List, String, Bytes, arith, nat_eq, inl,
  inr, length,
}
use face_recognition_proxy.Prelude.Table.{get}
use face_recognition_proxy.Result.{ok, >>=-eq-ok, Result-cases}
use face_recognition_proxy.AccessControl.{Readers}
use face_recognition_proxy.AccessControl.Retained.{ResponseStatus, more, final, no_match}
use face_recognition_proxy.Store.Tables.{Activity}
use face_recognition_proxy.Store.Terminals.{insert_gateway_activity}
use face_recognition_proxy.Store.IsapiCommands.Queueing.Fresh.{insert_same}
use face_recognition_proxy.Store.EventSync.Pages.{
  PageAnswer, counted_run, completed_run, insert_retained_access_events, read_page, last_page,
  capture_page, complete_access_event_sync_page, after_page,
}
use face_recognition_proxy.Store.EventSync.Reading.{Advances, IsRead, read_page-IsRead}
use face_recognition_proxy.Store.EventSync.Touches.{insert_retained-Grows}
use face_recognition_proxy.Store.EventSync.Tables.{completed, is_active, SyncRun, SyncDb, set_sync}
use face_recognition_proxy.Store.EventSync.Rows.{IsFailed, HasPage, fail_row, next_row, last_row}

module _ (r : Readers) (random : ℕ → ℕ → Option Bytes) (gateway_location : String) (now : ℕ)
    (uuid : String) where
  -- The run with one more page of `n` records, of `total` in all.
  abbrev pub IsAdvanced : SyncRun → ℕ → ℕ → SyncRun → Type 0
  IsAdvanced run n total run' =
      (run'.pages_completed ≡ run.pages_completed + 1)
      × (run'.records_imported + run'.records_duplicate
          ≡ run.records_imported + run.records_duplicate + n)
      × (run'.total_matches ≡ some total)
      × (n ≤ 30)
      × (total ≤ 150_000)

  -- The run is stopped; or it goes on from a later position below the total, where its next command
  -- stands; or it is complete, with every record of the archive counted.
  abbrev pub PageOutcome : SyncRun → ℕ → SyncDb → Type 0
  PageOutcome run position db' =
      IsFailed (get uuid db'.queues.sync.runs)
      ⊎ ((run' : SyncRun) × (n : ℕ) × (total : ℕ) × (get uuid db'.queues.sync.runs ≡ some run')
          × IsAdvanced run n total run'
          × (((run'.status ≡ run.status)
                × (0 < n)
                × (position + n < total)
                × HasPage uuid (position + n) db')
              ⊎ ((run'.status ≡ completed)
                  × (run'.completed_at ≡ some now)
                  × (position + n ≡ total)
                  × (run'.records_imported + run'.records_duplicate ≡ total))))

  counted_advances :
      (run : SyncRun) (a : PageAnswer) (inserted position : ℕ)
      → IsRead position a
      → inserted ≤ length a.rows
      → IsAdvanced run a.answer.num_of_matches a.answer.total_matches (counted_run a inserted run)
  counted_advances run a inserted position read few =
      (refl, omega arith, refl, omega arith, omega arith)

  ended :
      (run : SyncRun) (a : PageAnswer) (inserted position : ℕ) (captured : Activity)
      (db db' : SyncDb) (made : List Activity)
      → get uuid db.queues.sync.runs ≡ some run
      → is_active run.status ≡ true
      → IsRead position a
      → a.next ≡ a.answer.total_matches
      → inserted ≤ length a.rows
      → last_page r random gateway_location now uuid run a inserted captured db ≡ ok (db', made)
      → PageOutcome run position db'
  ended run a inserted position captured db db' made found live read ends few h =
      elim (last_row r random gateway_location now uuid run a inserted captured db db' made found
        live h) [
          | inl stopped ↦ inl stopped
          | inr (row, all_counted) ↦ inr (
            completed_run now (counted_run a inserted run),
            a.answer.num_of_matches,
            a.answer.total_matches,
            row,
            counted_advances run a inserted position read few,
            inr (refl, refl, omega arith, all_counted),
          )
        ]

  after_row :
      (status : ResponseStatus) (run : SyncRun) (a : PageAnswer) (inserted position : ℕ)
      (captured : Activity) (db db' : SyncDb) (made : List Activity)
      → get uuid db.queues.sync.runs ≡ some run
      → is_active run.status ≡ true
      → IsRead position a
      → Advances status position a.next a.answer.total_matches
      → inserted ≤ length a.rows
      → after_page r random gateway_location now status uuid run a inserted captured db
        ≡ ok (db', made)
      → PageOutcome run position db'
  after_row more run a inserted position captured db db' made found live read moves few h =
      elim (next_row r random gateway_location now uuid run a inserted captured db db' made found
        live h) [
          | inl stopped ↦ inl stopped
          | inr (row, has_page) ↦ inr (
            counted_run a inserted run,
            a.answer.num_of_matches,
            a.answer.total_matches,
            row,
            counted_advances run a inserted position read few,
            inl (refl, omega arith, omega arith, rw read.1 at has_page),
          )
        ]
  after_row final run a inserted position captured db db' made found live read moves few h =
      ended run a inserted position captured db db' made found live read moves few h
  after_row no_match run a inserted position captured db db' made found live read moves few h =
      ended run a inserted position captured db db' made found live read moves few h

  -- If the handling of a page of an active run succeeds, whatever the page says: the run is
  -- failed with a reason; or it goes on, with one more page of at most 30 records counted, from a
  -- later position that is still below the total, where the command of its next page stands; or
  -- it is completed at the total, every record of which it has counted as imported or duplicate.
  pub complete_access_event_sync_page-PageOutcome :
      (run : SyncRun) (position : ℕ) (command_uuid : String) (source : Bytes) (db db' : SyncDb)
      (made : List Activity)
      → get uuid db.queues.sync.runs ≡ some run
      → is_active run.status ≡ true
      → complete_access_event_sync_page r random gateway_location now uuid run position command_uuid
          source db
        ≡ ok (db', made)
      → PageOutcome run position db'
  unfolding complete_access_event_sync_page capture_page
  complete_access_event_sync_page-PageOutcome run position command_uuid source db db' made found
        live h =
      elim (Result-cases
        (read_page r random gateway_location now uuid run position command_uuid source)) [
          | inr (reason, e) ↦ inl (
              fail_row now uuid reason run db db' made found live
                (rw (e, complete_access_event_sync_page) at h))
          | inl (a, e) ↦
              let read =
                read_page-IsRead r random gateway_location now uuid run position command_uuid source
                  a e in
              let ((kept, n), retained, h0) =
                >>=-eq-ok (insert_retained_access_events a.rows db.queues.sync.retained) _
                  (rw (e, complete_access_event_sync_page) at h) in
              let (_, few) = insert_retained-Grows a.rows db.queues.sync.retained kept n retained in
              let db0 = set_sync (record (db.queues.sync) { retained = kept }) db in
              let ((db1, captured), written, h1) =
                >>=-eq-ok (insert_gateway_activity now _ db0) _ h0 in
              let (queues, _) = insert_same now _ db0 db1 captured written in
              after_row a.answer.response_status run a n position captured db1 db' made
                (rw queues found) live read read.5 few h1
        ]
