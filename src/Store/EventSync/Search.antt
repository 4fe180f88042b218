-- ===== src/Store/EventSync/Search.antt =====
-- The start of a search and the command of its next page: `completeAccessEventSyncTime`.
use face_recognition_proxy.Prelude.{
  ℕ, ◌+◌, not, Option, none, some, List, [], ◌∷◌, String, Bytes, nat_eq, string_eq,
}
use face_recognition_proxy.Result.{Result, ok, err, ◌>>=◌, ◌>>◌, refuse}
use face_recognition_proxy.AccessControl.{Readers, Moment}
use face_recognition_proxy.AccessControl.Retained.{
  retained_event_search_url, retained_event_page_size, new_retained_event_search_request,
  parse_terminal_time,
}
use face_recognition_proxy.Store.Tables.{Activity, text, number}
use face_recognition_proxy.Store.Terminals.{insert_gateway_activity}
use face_recognition_proxy.Store.IsapiCommands.{IsapiCommand, activity}
use face_recognition_proxy.Store.IsapiCommands.Queueing.{
  NewIsapiCommand, QueueError, refused, aborted, queue_isapi_command_tx,
}
use face_recognition_proxy.Store.EventSync.Tables.{
  running, is_awaiting, SyncRun, page_phase, SyncDb, set_sync, set_run, fail_access_event_sync,
  link_command,
}

abbrev pub access_event_sync_command_ttl : ℕ
access_event_sync_command_ttl = 300_000_000_000

module _ (r : Readers) (random : ℕ → ℕ → Option Bytes) (gateway_location : String) (now : ℕ) where
  -- The command of a run, with the next random identifier.
  abbrev pub sync_command : SyncRun → ℕ → String → String → String → Bytes → NewIsapiCommand
  sync_command run created_by_id method url data_format payload = record {
    terminal_serial_number = run.terminal_serial_number;
    created_by = record { id = created_by_id; username = run.created_by_username };
    method = method;
    url = url;
    data_format = data_format;
    payload = payload;
    expires_at = now + access_event_sync_command_ttl;
  }

  unfoldable pub queue_drawn :
      NewIsapiCommand → SyncDb → Result QueueError (SyncDb × (IsapiCommand × Activity))
  queue_drawn input db =
      let sync = db.queues.sync in
      queue_isapi_command_tx now (random now sync.drawn) input
        (set_sync (record sync { drawn = sync.drawn + 1 }) db)

  -- The next page's command: a refusal stops the run, an error of the database the transaction.
  abbrev pub linked :
      String
      → ℕ
      → String
      → SyncDb
      → Result QueueError (SyncDb × (IsapiCommand × Activity))
      → (Activity → SyncDb → Result String (SyncDb × List Activity))
      → Result String (SyncDb × List Activity)
  linked uuid position reason db (err (refused _)) next = fail_access_event_sync now uuid reason db
  linked uuid position reason db (err (aborted e)) next = err e
  linked uuid position reason db (ok (db1, (command, queued_activity))) next = do
    db2 ← link_command command.uuid (record { run_uuid = uuid; phase = page_phase position }) db1
    next queued_activity db2

  unfoldable pub queue_page :
      String
      → SyncRun
      → ℕ
      → ℕ
      → Bytes
      → String
      → SyncDb
      → (Activity → SyncDb → Result String (SyncDb × List Activity))
      → Result String (SyncDb × List Activity)
  unfolding queue_drawn
  queue_page uuid run created_by_id position request reason db next =
      linked uuid position reason db
        (queue_drawn
          (sync_command run created_by_id "POST" retained_event_search_url "jsonData" request) db)
        next

  abbrev pub started_run : Moment → SyncRun → SyncRun
  started_run terminal_now run = record run {
    status = running;
    search_started_at = some (r.start_of_2000 terminal_now.location);
    search_ended_at = some terminal_now.instant;
  }

  abbrev pub note_started :
      String → SyncRun → Activity → SyncDb → Result String (SyncDb × List Activity)
  note_started uuid run queued_activity db = do
    (db1, started) ←
        insert_gateway_activity now
          (activity "device.access_event_sync_started" run.terminal_serial_number
            "gateway started the terminal retained access-event search"
            (("syncRunId", text uuid) ∷ ("pageSize", number retained_event_page_size) ∷ []))
          db
    ok (db1, queued_activity ∷ started ∷ [])

  -- From the terminal's time on.
  unfoldable pub start_search :
      String → SyncRun → Moment → Bytes → SyncDb → Result String (SyncDb × List Activity)
  unfolding queue_page
  start_search uuid run terminal_now request db = elim run.created_by_id [
    | none ↦
        fail_access_event_sync now uuid
          "sync administrator no longer exists before event search delivery" db
    | some created_by_id ↦
        queue_page uuid run created_by_id 0 request
          "could not queue the retained-event search command"
          (set_run uuid (started_run terminal_now run) db) (note_started uuid run)
  ]

  -- What the answer must be; the reason where it is not.
  unfoldable pub read_time : SyncRun → Bytes → Result String (Moment × Bytes)
  read_time run source = do
    refuse (not (is_awaiting run.status))
        "System/time result arrived after retained-event search began"
    terminal_now ← elim (parse_terminal_time r source) [
      | ok parsed ↦ ok parsed
      | err _ ↦ err "System/time result is not the documented terminal time XML"
    ]
    request ← elim (new_retained_event_search_request r run.search_id 0 terminal_now) [
      | ok made ↦ ok made
      | err _ ↦ err "terminal time cannot bound the retained-event search"
    ]
    ok (terminal_now, request)

  abbrev pub on_time :
      String
      → SyncRun
      → SyncDb
      → Result String (Moment × Bytes)
      → Result String (SyncDb × List Activity)
  on_time uuid run db (err reason) = fail_access_event_sync now uuid reason db
  on_time uuid run db (ok (terminal_now, request)) = start_search uuid run terminal_now request db

  unfoldable pub complete_access_event_sync_time :
      String → SyncRun → Bytes → SyncDb → Result String (SyncDb × List Activity)
  unfolding read_time start_search
  complete_access_event_sync_time uuid run source db = on_time uuid run db (read_time run source)
