-- ===== src/Store/EventSync/Pages.antt =====
-- The pages of a search: `completeAccessEventSyncPage` and `insertRetainedAccessEvents`.
use face_recognition_proxy.Prelude.{
  ℕ, ◌+◌, ◌-◌, Bool, true, false, not, ◌&&◌, ◌||◌, Option, none, some, List, [], ◌∷◌, ◌++◌, String,
  Bytes, bytes_beq, ltb, leb, nat_eq, string_eq, ◌==◌, if◌then◌else◌, length,
}
use face_recognition_proxy.Result.{Result, ok, err, ◌>>=◌, ◌>>◌, refuse, require}
use face_recognition_proxy.AccessControl.{Readers, Projection}
use face_recognition_proxy.AccessControl.Retained.{
  RetainedEventPage, ResponseStatus, more, final, no_match, new_retained_event_search_request,
  parse_retained_event_page, extract_retained_event,
}
use face_recognition_proxy.Store.Tables.{Activity, text, number}
use face_recognition_proxy.Store.Columns.{fits_columns}
use face_recognition_proxy.Store.Terminals.{insert_gateway_activity}
use face_recognition_proxy.Store.IsapiCommands.{activity}
use face_recognition_proxy.Store.EventSync.Tables.{
  completed, is_running, SyncRun, RetainedRow, SyncDb, set_sync, set_run, fail_access_event_sync,
}
use face_recognition_proxy.Store.EventSync.Search.{queue_page}

-- The tests on a page against its run, in their order: the position of the next page.
abbrev pub changed_total : Option ℕ → ℕ → Bool
changed_total none total = false
changed_total (some known) total = not (known == total)

unfoldable pub advance : ResponseStatus → ℕ → RetainedEventPage → ℕ → Result String (Unit {0})
advance no_match position answer next =
    refuse (not (position == 0)) "AcsEvent NO MATCH result appeared after the first page"
advance more position answer next =
    refuse (answer.num_of_matches == 0 || leb answer.total_matches next)
      "AcsEvent MORE result does not advance to another page"
advance final position answer next =
    refuse (not (next == answer.total_matches)) "AcsEvent OK result does not complete totalMatches"

unfoldable pub next_position : SyncRun → ℕ → RetainedEventPage → Result String ℕ
unfolding advance
next_position run position answer = do
  refuse (not (answer.search_id == run.search_id))
      "AcsEvent result searchID does not match the sync run"
  refuse (changed_total run.total_matches answer.total_matches)
      "AcsEvent result totalMatches changed during the sync run"
  let next = position + answer.num_of_matches
  refuse (ltb answer.total_matches next) "AcsEvent result exceeds totalMatches"
  advance answer.response_status position answer next
  ok next

-- `ON CONFLICT (terminal_serial_number, source_sha256) DO NOTHING`
unfoldable pub is_retained : String → Bytes → List RetainedRow → Bool
is_retained serial sha256 [] = false
is_retained serial sha256 (row ∷ rows) =
    (row.terminal_serial_number == serial && bytes_beq row.source_sha256 sha256)
    || is_retained serial sha256 rows

-- insertRetainedAccessEvents: the rows, and how many of them are new.
unfoldable pub insert_retained_access_events :
    List RetainedRow → List RetainedRow → Result String (List RetainedRow × ℕ)
insert_retained_access_events [] rows = ok (rows, 0)
insert_retained_access_events (record_row ∷ more_rows) rows =
    let skipped = insert_retained_access_events more_rows rows in
    let added = insert_retained_access_events more_rows (rows ++ record_row ∷ []) in
    if not (fits_columns record_row.projection)
    then err "retain access-event record"
    else if is_retained record_row.terminal_serial_number record_row.source_sha256 rows
    then skipped
    else do (after, inserted) ← added; ok (after, inserted + 1)

pub record PageAnswer : Type 0 where
  pub answer : RetainedEventPage
  pub position : ℕ
  pub ended_at : ℕ
  pub next : ℕ
  pub rows : List RetainedRow

abbrev pub active_page : SyncRun → Option ℕ
active_page run = elim (is_running run.status) [
  | false ↦ none
  | true ↦ elim run.search_started_at [ none ↦ none | some _ ↦ run.search_ended_at ]
]

-- The run with one more page.
abbrev pub counted_run : PageAnswer → ℕ → SyncRun → SyncRun
counted_run a inserted run = record run {
  total_matches = some a.answer.total_matches;
  pages_completed = run.pages_completed + 1;
  records_imported = run.records_imported + inserted;
  records_duplicate = run.records_duplicate + (length a.rows - inserted);
}

abbrev pub completed_run : ℕ → SyncRun → SyncRun
completed_run now run = record run { status = completed; completed_at = some now }

abbrev pub page_activity : String → SyncRun → PageAnswer → ℕ → Activity
page_activity uuid run a inserted =
    activity "device.access_event_sync_page_captured" run.terminal_serial_number
      "gateway retained one terminal access-event archive page"
      (("syncRunId", text uuid)
        ∷ ("searchPosition", number a.position)
        ∷ ("recordsReturned", number a.answer.num_of_matches)
        ∷ ("recordsImported", number inserted)
        ∷ ("recordsDuplicate", number (length a.rows - inserted))
        ∷ ("totalMatches", number a.answer.total_matches)
        ∷ [])

module _ (r : Readers) (random : ℕ → ℕ → Option Bytes) (gateway_location : String) (now : ℕ) where
  abbrev retained_row : String → SyncRun → String → Bytes → Projection → RetainedRow
  retained_row uuid run command_uuid raw projection = record {
    terminal_serial_number = run.terminal_serial_number;
    source_sync_run_uuid = uuid;
    source_command_uuid = command_uuid;
    source_record = raw;
    source_sha256 = r.sha256_sum raw;
    projection = projection;
  }

  unfoldable pub retained_rows :
      String → SyncRun → String → List Bytes → Result String (List RetainedRow)
  retained_rows uuid run command_uuid [] = ok []
  retained_rows uuid run command_uuid (raw ∷ raws) =
      let rest = retained_rows uuid run command_uuid raws in
      elim (extract_retained_event r raw) [
        | err _ ↦ err "AcsEvent result contains an undocumented record"
        | ok projection ↦ do
          rows ← rest
          ok (retained_row uuid run command_uuid raw projection ∷ rows)
      ]

  unfoldable pub read_page : String → SyncRun → ℕ → String → Bytes → Result String PageAnswer
  unfolding next_position retained_rows
  read_page uuid run position command_uuid source = do
    ended_at ←
        require (active_page run) "AcsEvent result does not match an active retained-event page"
    answer ← elim (parse_retained_event_page r source) [
      | ok parsed ↦ ok parsed
      | err _ ↦ err "AcsEvent result is not the documented pagination response"
    ]
    next ← next_position run position answer
    rows ← retained_rows uuid run command_uuid answer.info_list
    ok (record {
      answer = answer;
      position = position;
      ended_at = ended_at;
      next = next;
      rows = rows;
    })

  -- `page.ResponseStatus == "MORE"`. The end of the search comes back from the table in the
  -- gateway's own zone.
  unfoldable pub next_page :
      String → SyncRun → PageAnswer → ℕ → Activity → SyncDb → Result String (SyncDb × List Activity)
  next_page uuid run a inserted captured db = elim run.created_by_id [
    | none ↦
        fail_access_event_sync now uuid
          "sync administrator no longer exists before next page delivery" db
    | some created_by_id ↦ do
      request ←
          new_retained_event_search_request r run.search_id a.next
            (record { instant = a.ended_at; location = gateway_location })
      queue_page r random gateway_location now uuid run created_by_id a.next request
          "could not queue the next retained-event page"
          (set_run uuid (counted_run a inserted run) db)
          (λ queued_activity db1. ok (db1, captured ∷ queued_activity ∷ []))
  ]

  -- The last page.
  unfoldable pub last_page :
      String → SyncRun → PageAnswer → ℕ → Activity → SyncDb → Result String (SyncDb × List Activity)
  last_page uuid run a inserted captured db =
      let counted = counted_run a inserted run in
      if not (counted.records_imported + counted.records_duplicate == a.answer.total_matches)
      then fail_access_event_sync now uuid
          "retained-event totals do not account for every device record" db
      else do
        (db1, done) ←
            insert_gateway_activity now
              (activity "device.access_event_sync_completed" run.terminal_serial_number
                "gateway completed the terminal retained access-event sync"
                (("syncRunId", text uuid)
                  ∷ ("totalMatches", number a.answer.total_matches)
                  ∷ ("recordsImported", number counted.records_imported)
                  ∷ ("recordsDuplicate", number counted.records_duplicate)
                  ∷ []))
              (set_run uuid (completed_run now counted) db)
        ok (db1, captured ∷ done ∷ [])

  abbrev pub after_page :
      ResponseStatus
      → String
      → SyncRun
      → PageAnswer
      → ℕ
      → Activity
      → SyncDb
      → Result String (SyncDb × List Activity)
  after_page more = next_page
  after_page _ = last_page

  -- The rows are kept before the run goes on.
  unfoldable pub capture_page :
      String → SyncRun → PageAnswer → SyncDb → Result String (SyncDb × List Activity)
  unfolding next_page last_page insert_retained_access_events
  capture_page uuid run a db = do
    let sync = db.queues.sync
    (retained, inserted) ← insert_retained_access_events a.rows sync.retained
    (db1, captured) ←
        insert_gateway_activity now (page_activity uuid run a inserted)
          (set_sync (record sync { retained = retained }) db)
    after_page a.answer.response_status uuid run a inserted captured db1

  abbrev pub on_page :
      String → SyncRun → SyncDb → Result String PageAnswer → Result String (SyncDb × List Activity)
  on_page uuid run db (err reason) = fail_access_event_sync now uuid reason db
  on_page uuid run db (ok a) = capture_page uuid run a db

  unfoldable pub complete_access_event_sync_page :
      String → SyncRun → ℕ → String → Bytes → SyncDb → Result String (SyncDb × List Activity)
  unfolding read_page capture_page
  complete_access_event_sync_page uuid run position command_uuid source db =
      on_page uuid run db (read_page uuid run position command_uuid source)
