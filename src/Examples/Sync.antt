-- ===== src/Examples/Sync.antt =====
-- A run of the archive of one terminal: queued, answered with the terminal's time, and its first page.
use face_recognition_proxy.Prelude.{
  ℕ, ◌≡◌, ◌≤◌, ◌++◌, refl, suc, some, none, List, [], ◌∷◌, String, Bytes, Option, codes, replicate,
  utf8,
}
use face_recognition_proxy.Prelude.Table.{get, put}
use face_recognition_proxy.Result.{ok}
use face_recognition_proxy.Encoding.Base64
use face_recognition_proxy.AccessControl.{project_face_rect}
use face_recognition_proxy.AccessControl.Retained.{
  parse_retained_event_page, parse_terminal_time, extract_retained_event,
  new_retained_event_search_request, checked_page, checked_status,
}
use face_recognition_proxy.PushSdk.Commands.{IsapiCommandResult}
use face_recognition_proxy.Examples.Archive.{sample_readers, face_projection, read_first}
use face_recognition_proxy.Store.Archive.Tables.{Archive}
use face_recognition_proxy.Store.Tables.{Activity, Field, text, number}
use face_recognition_proxy.Store.Columns.{fits_columns}
use face_recognition_proxy.Store.Terminals.{insert_gateway_activity}
use face_recognition_proxy.Store.IsapiCommands.{
  IsapiCommand, expire_overdue, update_rows, note_expired, find_command,
}
use face_recognition_proxy.Store.IsapiCommands.Lifecycle.{SyncLaws}
use face_recognition_proxy.Store.IsapiCommands.Queueing.{
  AdminIdentity, queued_command, queue_isapi_command_tx, new_isapi_command_uuid, insert_command,
  starts_with, is_before,
}
use face_recognition_proxy.Store.EventSync.Closed.{event_sync-SyncLaws}
use face_recognition_proxy.Store.EventSync.Complete.{
  complete_access_event_sync_command, event_sync, linked_run, complete_linked, complete_phase,
}
use face_recognition_proxy.Store.EventSync.Ends.{begin, page, Search-le}
use face_recognition_proxy.Store.EventSync.Outcome.{
  PageOutcome, complete_access_event_sync_page-PageOutcome,
}
use face_recognition_proxy.Store.EventSync.Pages.{
  PageAnswer, read_page, complete_access_event_sync_page, capture_page, next_page, retained_rows,
  next_position, advance, insert_retained_access_events, is_retained, counted_run,
}
use face_recognition_proxy.Store.EventSync.Progress.{Progress}
use face_recognition_proxy.Store.EventSync.Search.{
  sync_command, queue_drawn, queue_page, read_time, start_search, complete_access_event_sync_time,
}
use face_recognition_proxy.Store.EventSync.Start.{
  new_run, any_active, time_command, add_checked_run, queue_access_event_sync,
}
use face_recognition_proxy.Store.EventSync.Steps.{done, next, begun, answered, Steps-Progress}
use face_recognition_proxy.Store.EventSync.Tables.{
  running, RetainedRow, SyncRun, SyncDb, time_phase, page_phase, link_command, is_placed,
}

-- The i-th identifier is sixteen bytes i + 1.
abbrev pub draws : ℕ → ℕ → Option Bytes
draws now i = some (replicate 16 (suc i))

abbrev pub no_events : Archive
no_events = record {
  events = [];
  next_event_id = 1;
  routes = [];
  deliveries = [];
  attachments = [];
  next_delivery_id = 1;
  next_attachment_id = 1;
}

abbrev pub empty : SyncDb
empty = record {
  terminals =
      (
        "DS-1",
        record {
          connection_status = "online";
          last_seen_at = none;
          last_error = none;
          updated_at = 0;
        },
      )
      ∷ [];
  pushsdk_sessions = [];
  gateway_activities = [];
  queues = record {
    commands = [];
    sync = record { runs = []; links = []; retained = []; drawn = 0; archive = no_events };
  };
}

event_sync-SyncLaws_example : SyncLaws (event_sync sample_readers draws "UTC")
event_sync-SyncLaws_example = event_sync-SyncLaws sample_readers draws "UTC"

abbrev admin : AdminIdentity
admin = record { id = 1; username = "admin" }

abbrev stored : ℕ → ℕ → String → String → List (String × Field) → Activity
stored id at kind message fields = record {
  id = id;
  at = at;
  kind = kind;
  terminal = "DS-1";
  message = message;
  fields = fields;
}

abbrev run_id : String
run_id = "01010101-0101-4101-8101-010101010101"

abbrev time_id : String
time_id = "02020202-0202-4202-8202-020202020202"

abbrev page_id : String
page_id = "03030303-0303-4303-8303-030303030303"

abbrev queued_at : ℕ → ℕ → String → String → String → String → Activity
queued_at id at uuid method url format =
    stored id at "admin.isapi_command_queued" "administrator queued an ISAPI command" (
      ("commandId", text uuid)
      ∷ ("method", text method)
      ∷ ("url", text url)
      ∷ ("dataFormat", text format)
      ∷ ("issuedBy", text "admin")
      ∷ [])

abbrev asked : List Activity
asked =
    queued_at 1 10 time_id "GET" "/ISAPI/System/time" "noData"
    ∷ stored 2 10 "admin.access_event_sync_queued"
        "administrator queued a retained access-event sync"
        (("syncRunId", text run_id) ∷ ("issuedBy", text "admin") ∷ [])
    ∷ []

abbrev time_asked : IsapiCommand
time_asked = queued_command (time_command "DS-1" admin 10) time_id 10

abbrev awaiting : SyncDb
awaiting = record empty {
  gateway_activities = asked;
  queues = record {
    commands = time_asked ∷ [];
    sync = record {
      runs = (run_id, new_run "DS-1" admin run_id 10) ∷ [];
      links = (time_id, record { run_uuid = run_id; phase = time_phase }) ∷ [];
      retained = [];
      drawn = 2;
      archive = no_events;
    };
  };
}

queue_goes :
    queue_access_event_sync sample_readers draws "UTC" 10 "DS-1" admin empty
    ≡ ok (awaiting, (new_run "DS-1" admin run_id 10, asked))
unfolding queue_access_event_sync add_checked_run queue_drawn queue_isapi_command_tx expire_overdue
    insert_command update_rows note_expired insert_gateway_activity link_command starts_with
    new_isapi_command_uuid any_active is_placed find_command get put is_before
queue_goes = refl

abbrev started : List Activity
started =
    queued_at 3 20 page_id "POST" "/ISAPI/AccessControl/AcsEvent?format=json" "jsonData"
    ∷ stored 4 20 "device.access_event_sync_started"
        "gateway started the terminal retained access-event search"
        (("syncRunId", text run_id) ∷ ("pageSize", number 30) ∷ [])
    ∷ []

abbrev searching : SyncRun
searching = record (new_run "DS-1" admin run_id 10) {
  status = running;
  search_started_at = some 5;
  search_ended_at = some 100;
}

abbrev page_asked : IsapiCommand
page_asked =
    queued_command
      (sync_command sample_readers draws "UTC" 20 searching 1 "POST"
        "/ISAPI/AccessControl/AcsEvent?format=json" "jsonData" (0 ∷ []))
      page_id 20

abbrev paging : SyncDb
paging = record empty {
  gateway_activities = asked ++ started;
  queues = record {
    commands = time_asked ∷ page_asked ∷ [];
    sync = record {
      runs = (run_id, searching) ∷ [];
      links =
          (time_id, record { run_uuid = run_id; phase = time_phase })
          ∷ (page_id, record { run_uuid = run_id; phase = page_phase 0 })
          ∷ [];
      retained = [];
      drawn = 3;
      archive = no_events;
    };
  };
}

abbrev time_answer : IsapiCommandResult
time_answer = record { uuid = time_id; data_format = none; data_base64 = "AAEC" }

time_goes :
    complete_access_event_sync_command sample_readers draws "UTC" 20 "DS-1" time_answer awaiting
    ≡ ok (paging, started)
unfolding complete_access_event_sync_command linked_run complete_linked complete_phase
    complete_access_event_sync_time read_time start_search queue_page queue_drawn
    queue_isapi_command_tx insert_command insert_gateway_activity link_command starts_with
    new_isapi_command_uuid is_placed find_command parse_terminal_time
    new_retained_event_search_request get put Base64.decode utf8 is_before
time_goes = refl

Steps-Progress_example : Progress empty paging
Steps-Progress_example = Steps-Progress sample_readers draws "UTC" empty paging (
    next (next done (begun 10 "DS-1" admin (new_run "DS-1" admin run_id 10, asked) queue_goes))
      (answered 20 "DS-1" time_answer started time_goes))

abbrev first_row : RetainedRow
first_row = record {
  terminal_serial_number = "DS-1";
  source_sync_run_uuid = run_id;
  source_command_uuid = page_id;
  source_record = codes "{}";
  source_sha256 = replicate 32 2;
  projection = face_projection;
}

abbrev first_answer : PageAnswer
first_answer = record {
  answer = read_first;
  position = 0;
  ended_at = 100;
  next = 1;
  rows = first_row ∷ [];
}

read_goes :
    read_page sample_readers draws "UTC" 30 run_id searching 0 page_id (codes "{}")
    ≡ ok first_answer
unfolding read_page retained_rows next_position advance parse_retained_event_page checked_page
    checked_status extract_retained_event utf8 project_face_rect
read_goes = refl

Search-le_example : (1 ≤ 1) × (1 ≤ 150_000)
Search-le_example =
    Search-le sample_readers draws "UTC" run_id 1 1
      (page 30 searching page_id (codes "{}") first_answer begin read_goes refl)

abbrev next_id : String
next_id = "04040404-0404-4404-8404-040404040404"

abbrev advanced : List Activity
advanced =
    stored 5 30 "device.access_event_sync_page_captured"
      "gateway retained one terminal access-event archive page"
      (("syncRunId", text run_id)
        ∷ ("searchPosition", number 0)
        ∷ ("recordsReturned", number 1)
        ∷ ("recordsImported", number 1)
        ∷ ("recordsDuplicate", number 0)
        ∷ ("totalMatches", number 2)
        ∷ [])
    ∷ queued_at 6 30 next_id "POST" "/ISAPI/AccessControl/AcsEvent?format=json" "jsonData"
    ∷ []

abbrev next_asked : IsapiCommand
next_asked =
    queued_command
      (sync_command sample_readers draws "UTC" 30 searching 1 "POST"
        "/ISAPI/AccessControl/AcsEvent?format=json" "jsonData" (1 ∷ []))
      next_id 30

abbrev paged : SyncDb
paged = record empty {
  gateway_activities = asked ++ started ++ advanced;
  queues = record {
    commands = time_asked ∷ page_asked ∷ next_asked ∷ [];
    sync = record {
      runs = (run_id, counted_run first_answer 1 searching) ∷ [];
      links =
          (time_id, record { run_uuid = run_id; phase = time_phase })
          ∷ (page_id, record { run_uuid = run_id; phase = page_phase 0 })
          ∷ (next_id, record { run_uuid = run_id; phase = page_phase 1 })
          ∷ [];
      retained = first_row ∷ [];
      drawn = 4;
      archive = no_events;
    };
  };
}

page_goes :
    complete_access_event_sync_page sample_readers draws "UTC" 30 run_id searching 0 page_id
      (codes "{}")
      paging
    ≡ ok (paged, advanced)
unfolding complete_access_event_sync_page capture_page next_page read_page retained_rows
    next_position advance parse_retained_event_page checked_page checked_status
    extract_retained_event project_face_rect insert_retained_access_events is_retained queue_page
    queue_drawn queue_isapi_command_tx insert_command insert_gateway_activity link_command
    starts_with new_isapi_command_uuid is_placed find_command new_retained_event_search_request get
    put utf8 is_before fits_columns
page_goes = refl

complete_access_event_sync_page-PageOutcome_example :
    PageOutcome sample_readers draws "UTC" 30 run_id searching 0 paged
unfolding get
complete_access_event_sync_page-PageOutcome_example =
    complete_access_event_sync_page-PageOutcome sample_readers draws "UTC" 30 run_id searching 0
      page_id (codes "{}") paging paged advanced refl refl page_goes
