-- ===== src/Store/EventSync/Start.antt =====
-- `QueueAccessEventSync`: the start of a run.
use face_recognition_proxy.Prelude.{
  ℕ, ◌+◌, Bool, true, false, not, ◌&&◌, ◌||◌, Option, none, some, List, [], ◌∷◌, ◌++◌, String,
  Bytes, string_eq, ◌==◌,
}
use face_recognition_proxy.Prelude.Table.{Table, get, put}
use face_recognition_proxy.Result.{Result, ok, ◌>>=◌, ◌>>◌, refuse, require}
use face_recognition_proxy.AccessControl.{Readers}
use face_recognition_proxy.Store.Tables.{Activity, text}
use face_recognition_proxy.Store.Terminals.{insert_gateway_activity}
use face_recognition_proxy.Store.IsapiCommands.{activity, expire_overdue}
use face_recognition_proxy.Store.IsapiCommands.Queueing.{
  AdminIdentity, NewIsapiCommand, has_identity, new_isapi_command_uuid, as_error,
}
use face_recognition_proxy.Store.EventSync.Complete.{event_sync}
use face_recognition_proxy.Store.EventSync.Search.{access_event_sync_command_ttl, queue_drawn}
use face_recognition_proxy.Store.EventSync.Tables.{
  awaiting_time, is_active, SyncRun, time_phase, SyncDb, set_sync, link_command,
}

-- `SELECT EXISTS(... status IN ('awaiting_time', 'running'))`
unfoldable pub any_active : String → Table SyncRun → Bool
any_active serial [] = false
any_active serial ((uuid, run) ∷ runs) =
    (run.terminal_serial_number == serial && is_active run.status) || any_active serial runs

abbrev pub is_run : Option SyncRun → Bool
is_run none = false
is_run (some _) = true

abbrev pub new_run : String → AdminIdentity → String → ℕ → SyncRun
new_run serial identity uuid now = record {
  terminal_serial_number = serial;
  created_by_id = some identity.id;
  created_by_username = identity.username;
  search_id = uuid;
  status = awaiting_time;
  search_started_at = none;
  search_ended_at = none;
  total_matches = none;
  pages_completed = 0;
  records_imported = 0;
  records_duplicate = 0;
  failure = none;
  created_at = now;
  completed_at = none;
}

-- The run's row, with the random identifier that it took.
abbrev pub add_run : String → SyncRun → SyncDb → SyncDb
add_run uuid run db =
    let sync = db.queues.sync in
    set_sync (record sync { runs = put uuid run sync.runs; drawn = sync.drawn + 1 }) db

abbrev pub time_command : String → AdminIdentity → ℕ → NewIsapiCommand
time_command serial identity now = record {
  terminal_serial_number = serial;
  created_by = identity;
  method = "GET";
  url = "/ISAPI/System/time";
  data_format = "noData";
  payload = [];
  expires_at = now + access_event_sync_command_ttl;
}

module _ (r : Readers) (random : ℕ → ℕ → Option Bytes) (gateway_location : String) (now : ℕ) where
  -- From the checked terminal on.
  unfoldable pub add_checked_run :
      String → AdminIdentity → String → SyncDb → Result String (SyncDb × List Activity)
  add_checked_run serial identity uuid db = do
    refuse (is_run (get uuid db.queues.sync.runs)) "insert retained event sync"
    (db1, (command, commanded)) ← as_error (
        queue_drawn r random gateway_location now (time_command serial identity now)
          (add_run uuid (new_run serial identity uuid now) db))
    db2 ← link_command command.uuid (record { run_uuid = uuid; phase = time_phase }) db1
    (db3, started) ←
        insert_gateway_activity now
          (activity "admin.access_event_sync_queued" serial
            "administrator queued a retained access-event sync"
            (("syncRunId", text uuid) ∷ ("issuedBy", text identity.username) ∷ []))
          db2
    ok (db3, commanded ∷ started ∷ [])

  unfoldable pub queue_access_event_sync :
      String → AdminIdentity → SyncDb → Result String (SyncDb × (SyncRun × List Activity))
  unfolding add_checked_run
  queue_access_event_sync serial identity db = do
    refuse (not (has_identity identity)) "retained event sync administrator identity is required"
    (db1, expirations) ← expire_overdue (event_sync r random gateway_location) now (some serial) db
    row ← require (get serial db1.terminals) "retained event sync terminal is not registered"
    refuse (not (row.connection_status == "online")) "retained event sync terminal is offline"
    refuse (any_active serial db1.queues.sync.runs)
        "a retained event sync is already active for this terminal"
    uuid ←
        require (new_isapi_command_uuid (random now db1.queues.sync.drawn))
          "generate ISAPI command UUID"
    (db2, recorded) ← add_checked_run serial identity uuid db1
    ok (db2, (new_run serial identity uuid now, expirations ++ recorded))
