-- ===== src/Store/EventSync/Tables.antt =====
-- The tables of a run: `access_event_sync_runs`, `access_event_sync_commands` and
-- `retained_access_events`, and what ends a run early.
use face_recognition_proxy.Prelude.{
  ℕ, Bool, true, false, not, ◌&&◌, ◌||◌, Option, none, some, List, [], ◌∷◌, String, Bytes,
  string_eq, nat_eq, ◌==◌, if◌then◌else◌,
}
use face_recognition_proxy.Prelude.Table.{Table, get, put}
use face_recognition_proxy.Result.{Result, ok, ◌>>=◌, ◌>>◌, refuse}
use face_recognition_proxy.AccessControl.{Projection}
use face_recognition_proxy.Store.Archive.Tables.{Archive}
use face_recognition_proxy.Store.Tables.{Activity, text, Db}
use face_recognition_proxy.Store.Terminals.{insert_gateway_activity}
use face_recognition_proxy.Store.IsapiCommands.{Queues, activity}

pub data SyncStatus : Type 0 where
  awaiting_time running completed failed : SyncStatus

-- `status IN ('awaiting_time', 'running')`
abbrev pub is_active : SyncStatus → Bool
is_active awaiting_time = true
is_active running = true
is_active _ = false

abbrev pub is_awaiting : SyncStatus → Bool
is_awaiting awaiting_time = true
is_awaiting _ = false

abbrev pub is_running : SyncStatus → Bool
is_running running = true
is_running _ = false

-- A row of `access_event_sync_runs`, under its identifier: AccessEventSyncRun.
pub record SyncRun : Type 0 where
  pub terminal_serial_number : String
  pub created_by_id : Option ℕ
  pub created_by_username : String
  pub search_id : String
  pub status : SyncStatus
  pub search_started_at : Option ℕ
  pub search_ended_at : Option ℕ
  pub total_matches : Option ℕ
  pub pages_completed : ℕ
  pub records_imported : ℕ
  pub records_duplicate : ℕ
  pub failure : Option String
  pub created_at : ℕ
  pub completed_at : Option ℕ

-- What a command is for; the table lets a position stand with a page alone.
pub data Phase : Type 0 where
  time_phase : Phase
  page_phase : ℕ → Phase

-- A row of `access_event_sync_commands`, under the command's identifier.
pub record SyncLink : Type 0 where
  pub run_uuid : String
  pub phase : Phase

pub record RetainedRow : Type 0 where
  pub terminal_serial_number : String
  pub source_sync_run_uuid : String
  pub source_command_uuid : String
  pub source_record : Bytes
  pub source_sha256 : Bytes
  pub projection : Projection

-- The number of random identifiers drawn so far stands beside the tables, and so does the archive of
-- reported events, which the synchronisation leaves alone.
pub record SyncTables : Type 0 where
  pub runs : Table SyncRun
  pub links : Table SyncLink
  pub retained : List RetainedRow
  pub drawn : ℕ
  pub archive : Archive

abbrev pub SyncDb : Type 0
SyncDb = Db (Queues SyncTables)

abbrev pub set_sync : SyncTables → SyncDb → SyncDb
set_sync tables db = record db { queues = record (db.queues) { sync = tables } }

abbrev pub set_run : String → SyncRun → SyncDb → SyncDb
set_run uuid run db =
    set_sync (record (db.queues.sync) { runs = put uuid run db.queues.sync.runs }) db

abbrev pub failed_run : ℕ → String → SyncRun → SyncRun
failed_run now reason run = record run {
  status = failed;
  failure = some reason;
  completed_at = some now;
}

-- failAccessEventSync: a run that is not active is left alone.
unfoldable pub fail_access_event_sync :
    ℕ → String → String → SyncDb → Result String (SyncDb × List Activity)
fail_access_event_sync now uuid reason db = elim (get uuid db.queues.sync.runs) [
  | none ↦ ok (db, [])
  | some run ↦ if not (is_active run.status) then ok (db, []) else do
    (db1, stored) ←
        insert_gateway_activity now
          (activity "device.access_event_sync_failed" run.terminal_serial_number
            "gateway stopped a retained access-event sync"
            (("syncRunId", text uuid) ∷ ("reason", text reason) ∷ []))
          (set_run uuid (failed_run now reason run) db)
    ok (db1, stored ∷ [])
]

-- failExpiredAccessEventSyncCommand
unfoldable pub fail_expired_access_event_sync_command :
    String → Bool → ℕ → SyncDb → Result String (SyncDb × List Activity)
unfolding fail_access_event_sync
fail_expired_access_event_sync_command command_uuid delivered now db =
    elim (get command_uuid db.queues.sync.links) [
      | none ↦ ok (db, [])
      | some link ↦
          fail_access_event_sync now link.run_uuid
            (if delivered
              then "terminal did not return the retained-event command result before the command deadline"
              else "retained-event command expired before terminal delivery")
            db
    ]

-- `UNIQUE (sync_run_uuid, phase, search_result_position)`; an absent position repeats freely.
abbrev same_position : Phase → Phase → Bool
same_position (page_phase p) (page_phase q) = p == q
same_position _ _ = false

abbrev pub same_place : SyncLink → SyncLink → Bool
same_place a b = a.run_uuid == b.run_uuid && same_position a.phase b.phase

unfoldable pub is_placed : SyncLink → Table SyncLink → Bool
is_placed link [] = false
is_placed link ((uuid, other) ∷ links) = same_place link other || is_placed link links

abbrev pub is_linked : Option SyncLink → Bool
is_linked none = false
is_linked (some _) = true

-- `INSERT INTO access_event_sync_commands`
unfoldable pub link_command : String → SyncLink → SyncDb → Result String SyncDb
link_command command_uuid link db = do
  let sync = db.queues.sync
  refuse (is_linked (get command_uuid sync.links) || is_placed link sync.links)
      "link retained event command"
  ok (set_sync (record sync { links = put command_uuid link sync.links }) db)
