-- ===== src/Examples/Reports.antt =====
-- A batch with one event twice, the same batch again, and the projection of an older row.
use face_recognition_proxy.Prelude.{
  ℕ, Bool, ◌≡◌, refl, true, false, some, none, List, [], ◌∷◌, String, Bytes, utf8, length, arith,
}
use face_recognition_proxy.Prelude.Table.{get}
use face_recognition_proxy.Result.{ok}
use face_recognition_proxy.Encoding.Base64
use face_recognition_proxy.AccessControl.{project_face_rect}
use face_recognition_proxy.AccessControl.Event.{
  extract, event_payload, project_event, declared_time,
}
use face_recognition_proxy.Delivery.Queue.{enqueue_event_delivery, is_deliverable}
use face_recognition_proxy.Delivery.Types.{EventMessage, DeliveryRoute}
use face_recognition_proxy.Examples.Archive.{sample_readers, face_projection}
use face_recognition_proxy.Examples.Sync.{empty, no_events}
use face_recognition_proxy.PushSdk.Events.{NewDeviceEvent, supported_data_format}
use face_recognition_proxy.PushSdk.Service.Types.{DeviceEventPersistence}
use face_recognition_proxy.Store.Archive.Again.{
  NoneInserted, Unchanged, insert_device_event_batch-again,
}
use face_recognition_proxy.Store.Archive.Backfill.{caught_up, backfill, project_batch}
use face_recognition_proxy.Store.Archive.Backfill.Current.{Ended, outdated, backfill-Ended}
use face_recognition_proxy.Store.Archive.Batch.{
  events_of, Retained, insert_device_event_batch-Retained,
}
use face_recognition_proxy.Store.Archive.Insert.{
  event_activity, set_archive, add_event, skip_event, insert_access_event_projection,
  insert_new_event, insert_device_event, insert_device_event_batch,
}
use face_recognition_proxy.Store.Archive.Tables.{ProjectionRow, DeviceEventRow, is_archived}
use face_recognition_proxy.Store.Columns.{fits_columns}
use face_recognition_proxy.Store.EventSync.Tables.{SyncDb}
use face_recognition_proxy.Store.Tables.{Activity}
use face_recognition_proxy.Store.Terminals.{insert_gateway_activity}

abbrev body_of : EventMessage → Bytes
body_of message = utf8 message.event_id

abbrev serials : String → String
serials serial = "PS-1"

abbrev route : DeliveryRoute
route = record {
  terminal_serial_number = "DS-1";
  endpoint_url = "https://receiver/";
  signing_key_id = "k1";
  enabled = true;
}

abbrev routed : SyncDb
routed = set_archive (record no_events { routes = ("DS-1", route) ∷ [] }) empty

abbrev report : NewDeviceEvent
report = record {
  terminal_serial_number = "DS-1";
  vendor_event_id = "event-1";
  data_format = "jsonData";
  payload_base64 = "e30=";
}

abbrev reported : ProjectionRow
reported = record {
  schema_version = 3;
  classified = some (record face_projection { event_state = some "active" });
}

abbrev noted : ℕ → Bool → Activity
noted id inserted = record (event_activity report inserted) { id = id; at = 7 }

abbrev kept : SyncDb
kept =
    let first = record (add_event sample_readers body_of serials 7 report reported routed) {
      gateway_activities = noted 1 true ∷ [];
    } in
    record (skip_event first) { gateway_activities = noted 1 true ∷ noted 2 false ∷ [] }

abbrev answers : List DeviceEventPersistence
answers =
    record { inserted = true; activity = noted 1 true }
    ∷ record { inserted = false; activity = noted 2 false }
    ∷ []

batch_goes :
    insert_device_event_batch sample_readers body_of serials 7 (report ∷ report ∷ []) routed
    ≡ ok (kept, answers)
unfolding insert_device_event_batch insert_device_event insert_new_event
    insert_access_event_projection extract event_payload project_event declared_time
    project_face_rect fits_columns is_archived insert_gateway_activity enqueue_event_delivery
    is_deliverable supported_data_format get Base64.decode utf8
batch_goes = refl

-- One delivery is queued, with its attachment.
one_delivery : (length kept.queues.sync.archive.deliveries ≡ 1) × (length (events_of kept) ≡ 1)
unfolding enqueue_event_delivery is_deliverable get
one_delivery = (refl, refl)

insert_device_event_batch-Retained_example : Retained (report ∷ report ∷ []) answers routed kept
insert_device_event_batch-Retained_example =
    insert_device_event_batch-Retained sample_readers body_of serials 7 (report ∷ report ∷ [])
      routed kept answers batch_goes

insert_device_event_batch-again_example :
    (db' : SyncDb) × (replies : List DeviceEventPersistence) × (insert_device_event_batch
        sample_readers body_of serials 9
        (report ∷ report ∷ [])
        kept
      ≡ ok (db', replies))
    × NoneInserted replies
    × Unchanged kept db'
insert_device_event_batch-again_example =
    insert_device_event_batch-again sample_readers body_of serials 7 9 (report ∷ report ∷ []) routed
      kept kept answers [] batch_goes refl

abbrev old_row : DeviceEventRow
old_row = record {
  id = 1;
  terminal_serial_number = "DS-1";
  vendor_event_id = "event-0";
  data_format = "jsonData";
  payload_base64 = some "e30=";
  received_at = 2;
  projection = some (record { schema_version = 2; classified = none });
}

backfill-Ended_example :
    Ended sample_readers 0 (old_row ∷ []) (backfill sample_readers 2 0 (old_row ∷ []))
unfolding outdated
backfill-Ended_example = backfill-Ended sample_readers 2 0 (old_row ∷ []) (omega arith)

backfill_goes :
    backfill sample_readers 2 0 (old_row ∷ [])
    ≡ caught_up (record old_row { projection = some reported } ∷ []) 1
unfolding backfill project_batch insert_access_event_projection extract event_payload project_event
    declared_time project_face_rect fits_columns Base64.decode utf8
backfill_goes = refl
