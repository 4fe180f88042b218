-- ===== src/Store/EventSync/Complete.antt =====
-- The result of a command of a run: `completeAccessEventSyncCommand`, and the store that the command
-- queue calls.
use face_recognition_proxy.Prelude.{
  ℕ, Bool, false, not, Option, none, some, List, [], ◌∷◌, String, Bytes, utf8, nat_eq, string_eq,
  ◌==◌, if◌then◌else◌, concat,
}
use face_recognition_proxy.Prelude.Table.{get}
use face_recognition_proxy.Result.{Result, ok, ◌>>◌, refuse}
use face_recognition_proxy.AccessControl.{Readers}
use face_recognition_proxy.Encoding.Base64
use face_recognition_proxy.PushSdk.Commands.{IsapiCommandResult}
use face_recognition_proxy.Store.Tables.{Activity}
use face_recognition_proxy.Store.IsapiCommands.{SyncStore}
use face_recognition_proxy.Store.EventSync.Tables.{
  is_active, SyncRun, Phase, time_phase, page_phase, SyncLink, SyncTables, SyncDb,
  fail_access_event_sync, fail_expired_access_event_sync_command,
}
use face_recognition_proxy.Store.EventSync.Search.{complete_access_event_sync_time}
use face_recognition_proxy.Store.EventSync.Pages.{complete_access_event_sync_page}

abbrev pub declares_other_format : Option String → Bool
declares_other_format none = false
declares_other_format (some format) = not (format == "jsonData")

module _ (r : Readers) (random : ℕ → ℕ → Option Bytes) (gateway_location : String) (now : ℕ) where
  -- The `switch command.Phase`.
  unfoldable pub complete_phase :
      Phase
      → String
      → SyncRun
      → IsapiCommandResult
      → Bytes
      → SyncDb
      → Result String (SyncDb × List Activity)
  unfolding complete_access_event_sync_time complete_access_event_sync_page
  complete_phase time_phase uuid run result source db =
      complete_access_event_sync_time r random gateway_location now uuid run source db
  complete_phase (page_phase position) uuid run result source db =
      if declares_other_format result.data_format
      then fail_access_event_sync now uuid "AcsEvent result declared a format other than jsonData"
          db
      else complete_access_event_sync_page r random gateway_location now uuid run position
          result.uuid source db

  -- The run of a command, with its link.
  unfoldable pub linked_run : String → SyncDb → Option (SyncLink × SyncRun)
  linked_run command_uuid db = elim (get command_uuid db.queues.sync.links) [
    | none ↦ none
    | some link ↦ elim (get link.run_uuid db.queues.sync.runs) [
      | none ↦ none
      | some run ↦ some (link, run)
    ]
  ]

  unfoldable pub complete_linked :
      String
      → IsapiCommandResult
      → SyncLink
      → SyncRun
      → SyncDb
      → Result String (SyncDb × List Activity)
  unfolding complete_phase
  complete_linked serial result link run db = do
    refuse (not (run.terminal_serial_number == serial)) (
        concat
          ("retained event sync command " ∷ result.uuid ∷ " is linked to another terminal" ∷ []))
    refuse (not (is_active run.status))
        (concat ("retained event sync run " ∷ link.run_uuid ∷ " is not active" ∷ []))
    elim (Base64.decode (utf8 result.data_base64)) [
      | none ↦
          fail_access_event_sync now link.run_uuid "terminal command result is not decodable Base64"
            db
      | some source ↦ complete_phase link.phase link.run_uuid run result source db
    ]

  unfoldable pub complete_access_event_sync_command :
      String → IsapiCommandResult → SyncDb → Result String (SyncDb × List Activity)
  unfolding linked_run complete_linked
  complete_access_event_sync_command serial result db = elim (linked_run result.uuid db) [
    | none ↦ ok (db, [])
    | some (link, run) ↦ complete_linked serial result link run db
  ]

-- The synchronisation behind the command queue.
abbrev pub event_sync : Readers → (ℕ → ℕ → Option Bytes) → String → SyncStore
event_sync r random gateway_location = record {
  S = SyncTables;
  fail_expired = fail_expired_access_event_sync_command;
  complete_sync = λ serial result now.
      complete_access_event_sync_command r random gateway_location now serial result;
}
