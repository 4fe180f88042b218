-- ===== src/Store/Archive/Again.antt =====
-- A batch that comes again, after any other events.
use face_recognition_proxy.Prelude.{
  ℕ, ◌+◌, ◌≡◌, refl, true, false, List, [], ◌∷◌, ◌++◌, String, Bytes, string_eq, length, All,
}
use face_recognition_proxy.Result.{ok}
use face_recognition_proxy.AccessControl.{Readers}
use face_recognition_proxy.Delivery.Types.{EventMessage}
use face_recognition_proxy.PushSdk.Events.{NewDeviceEvent, supported_data_format}
use face_recognition_proxy.PushSdk.Service.Types.{DeviceEventPersistence}
use face_recognition_proxy.Store.Archive.Insert.{
  event_activity, skip_event, insert_device_event, insert_device_event_batch,
}
use face_recognition_proxy.Store.Archive.Tables.{DeviceEventRow}
use face_recognition_proxy.Store.EventSync.Tables.{SyncDb}
use face_recognition_proxy.Store.Tables.{Activity}
use face_recognition_proxy.Store.Terminals.{insert_gateway_activity}
use face_recognition_proxy.Store.Archive.Batch.{
  events_of, IsArchived, still-IsArchived, insert_device_event_batch-Retained,
}

-- Every answer says that the event was there.
abbrev pub NoneInserted : List DeviceEventPersistence → Type 0
NoneInserted ps = All (λ p. p.inserted ≡ false) ps

-- The same archive, but for the identifiers that were taken.
abbrev pub Unchanged : SyncDb → SyncDb → Type 0
Unchanged db db' =
    (events_of db' ≡ events_of db)
    × (db'.queues.sync.archive.deliveries ≡ db.queues.sync.archive.deliveries)
    × (db'.queues.sync.archive.attachments ≡ db.queues.sync.archive.attachments)

All-still-IsArchived :
    (rows rows' added : List DeviceEventRow) (es : List NewDeviceEvent)
    → rows' ≡ rows ++ added
    → All (IsArchived rows) es
    → All (IsArchived rows') es
All-still-IsArchived rows rows' added [] grows there = tt
All-still-IsArchived rows rows' added (e ∷ es) grows (here, there) = (
  still-IsArchived rows rows' added e grows here,
  All-still-IsArchived rows rows' added es grows there,
)

module _ (r : Readers) (marshal : EventMessage → Bytes) (push_sdk_serial : String → String) where
  All-again :
      (now : ℕ) (es : List NewDeviceEvent) (db : SyncDb)
      → All (IsArchived (events_of db)) es
      → All (λ e. supported_data_format e.data_format ≡ true) es
      → (db' : SyncDb) × (ps : List DeviceEventPersistence) × (insert_device_event_batch r marshal
            push_sdk_serial now es db
          ≡ ok (db', ps))
        × NoneInserted ps
        × Unchanged db db'
  unfolding insert_device_event_batch insert_device_event insert_gateway_activity
  All-again now [] db there fits = (db, [], refl, tt, (refl, refl, refl))
  All-again now (e ∷ es) db (old, there) (fit, fits) =
      let db1 = skip_event db in
      let stored : Activity = record (event_activity e false) {
        id = length db.gateway_activities + 1;
        at = now;
      } in
      let db2 = record db1 { gateway_activities = db.gateway_activities ++ stored ∷ [] } in
      let (db3, ps, goes, none_new, (events, deliveries, attachments)) =
        All-again now es db2 there fits in
      (
        db3,
        record { inserted = false; activity = stored } ∷ ps,
        rw (fit, old, goes) refl,
        (refl, none_new),
        (events, deliveries, attachments),
      )

  -- A batch that was taken is taken again at any later time, whatever other events the archive
  -- has gained since and whatever happened elsewhere: each answer says that the event was there,
  -- and no event, delivery or attachment is added or changed.
  pub insert_device_event_batch-again :
      (now later : ℕ) (es : List NewDeviceEvent) (db db1 db2 : SyncDb)
      (ps : List DeviceEventPersistence) (others : List DeviceEventRow)
      → insert_device_event_batch r marshal push_sdk_serial now es db ≡ ok (db1, ps)
      → events_of db2 ≡ events_of db1 ++ others
      → (db' : SyncDb) × (answers : List DeviceEventPersistence) × (insert_device_event_batch r
            marshal push_sdk_serial later es db2
          ≡ ok (db', answers))
        × NoneInserted answers
        × Unchanged db2 db'
  insert_device_event_batch-again now later es db db1 db2 ps others h grows =
      let (_, _, _, there, fits, _) =
        insert_device_event_batch-Retained r marshal push_sdk_serial now es db db1 ps h in
      All-again later es db2
        (All-still-IsArchived (events_of db1) (events_of db2) others es grows there) fits
