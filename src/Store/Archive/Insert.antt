-- ===== src/Store/Archive/Insert.antt =====
-- `InsertDeviceEventBatch`, `insertAccessEventProjection` and the queueing of a delivery for the
-- inserted event.
use face_recognition_proxy.Prelude.{
  ℕ, ◌+◌, Bool, true, false, not, Option, none, some, List, [], ◌∷◌, ◌++◌, String, Bytes, string_eq,
  if◌then◌else◌, map,
}
use face_recognition_proxy.Prelude.Table.{get}
use face_recognition_proxy.Result.{Result, ok, ◌>>=◌, ◌>>◌, refuse}
use face_recognition_proxy.AccessControl.{Readers, Projection, Moment}
use face_recognition_proxy.AccessControl.Event.{extract}
use face_recognition_proxy.Delivery.Queue.{enqueue_event_delivery}
use face_recognition_proxy.Delivery.Types.{EventMessage, Deliveries}
use face_recognition_proxy.PushSdk.Events.{NewDeviceEvent, supported_data_format}
use face_recognition_proxy.PushSdk.Service.Types.{DeviceEventPersistence}
use face_recognition_proxy.Store.Archive.Tables.{
  ProjectionRow, DeviceEventRow, Archive, is_archived,
}
use face_recognition_proxy.Store.Columns.{fits_columns}
use face_recognition_proxy.Store.EventSync.Tables.{SyncDb, set_sync}
use face_recognition_proxy.Store.IsapiCommands.{activity}
use face_recognition_proxy.Store.Tables.{Activity, TerminalRow, text}
use face_recognition_proxy.Store.Terminals.{insert_gateway_activity}

-- accesscontrol.SchemaVersion
abbrev pub schema_version : ℕ
schema_version = 3

abbrev pub set_archive : Archive → SyncDb → SyncDb
set_archive archive db = set_sync (record (db.queues.sync) { archive = archive }) db

-- The delivery tables, as the delivery queue sees them.
abbrev pub deliveries_of : SyncDb → Deliveries
deliveries_of db =
    let archive = db.queues.sync.archive in
    record {
      terminals = map (λ row. row.0) db.terminals;
      routes = archive.routes;
      deliveries = archive.deliveries;
      attachments = archive.attachments;
      next_id = archive.next_delivery_id;
      next_attachment_id = archive.next_attachment_id;
      activities = db.gateway_activities;
    }

-- What the queueing of a delivery changes in them.
abbrev pub set_deliveries : Deliveries → Archive → Archive
set_deliveries queue archive = record archive {
  deliveries = queue.deliveries;
  attachments = queue.attachments;
  next_delivery_id = queue.next_id;
  next_attachment_id = queue.next_attachment_id;
}

abbrev instant_of : Option Moment → Option ℕ
instant_of none = none
instant_of (some moment) = some moment.instant

abbrev pub is_registered : Option TerminalRow → Bool
is_registered none = false
is_registered (some _) = true

abbrev pub event_row : ℕ → ℕ → NewDeviceEvent → ProjectionRow → DeviceEventRow
event_row now id event projection = record {
  id = id;
  terminal_serial_number = event.terminal_serial_number;
  vendor_event_id = event.vendor_event_id;
  data_format = event.data_format;
  payload_base64 = some event.payload_base64;
  received_at = now;
  projection = some projection;
}

abbrev pub event_activity : NewDeviceEvent → Bool → Activity
event_activity event inserted =
    activity (if inserted then "device.event_persisted" else "device.event_duplicate")
      event.terminal_serial_number
      (if inserted
        then "device event payload persisted"
        else "device event payload was already retained")
      (("eventId", text event.vendor_event_id) ∷ ("dataFormat", text event.data_format) ∷ [])

-- The projection of an event in the given format, as the table takes it.
unfoldable pub insert_access_event_projection :
    Readers → String → String → Result String ProjectionRow
insert_access_event_projection r data_format payload_base64 =
    elim (extract r data_format payload_base64) [
      | none ↦ ok (record { schema_version = schema_version; classified = none })
      | some projection ↦ do
        refuse (not (fits_columns projection)) "record classified access event"
        ok (record { schema_version = schema_version; classified = some projection })
    ]

-- `ON CONFLICT (terminal_serial_number, vendor_event_id) DO NOTHING`
abbrev pub skip_event : SyncDb → SyncDb
skip_event db =
    let archive = db.queues.sync.archive in
    set_archive (record archive { next_event_id = archive.next_event_id + 1 }) db

-- encoding/json, and the column `pushsdk_serial` of `terminals`.
module _ (r : Readers) (marshal : EventMessage → Bytes) (push_sdk_serial : String → String)
    (now : ℕ) where
  abbrev message_of : NewDeviceEvent → Projection → EventMessage
  message_of event projection = record {
    schema_version = 2;
    source = "pushsdk";
    event_id = event.vendor_event_id;
    terminal_serial_number = event.terminal_serial_number;
    push_sdk_serial = push_sdk_serial event.terminal_serial_number;
    major_event_type = projection.major_event_type;
    sub_event_type = projection.sub_event_type;
    event_state = projection.event_state;
    occurred_at = instant_of projection.occurred_at;
    employee_number = projection.employee_number;
    employee_name = projection.employee_name;
    event_serial_number = projection.event_serial_number;
  }

  -- An unclassified event joins no route.
  abbrev pub queued_for : NewDeviceEvent → Option Projection → Deliveries → Deliveries
  queued_for event none queue = queue
  queued_for event (some projection) queue =
      enqueue_event_delivery marshal now (message_of event projection) queue

  abbrev pub add_event : NewDeviceEvent → ProjectionRow → SyncDb → SyncDb
  add_event event projection db =
      let archive = db.queues.sync.archive in
      let queue = queued_for event projection.classified (deliveries_of db) in
      set_archive
        (set_deliveries queue (record archive {
          events = archive.events ++ event_row now archive.next_event_id event projection ∷ [];
          next_event_id = archive.next_event_id + 1;
        }))
        db

  unfoldable pub insert_new_event : NewDeviceEvent → SyncDb → Result String (SyncDb × Bool)
  unfolding enqueue_event_delivery insert_access_event_projection
  insert_new_event event db = do
    refuse (not (is_registered (get event.terminal_serial_number db.terminals)))
        "insert device event"
    projection ← insert_access_event_projection r event.data_format event.payload_base64
    ok (add_event event projection db, true)

  -- One turn of the loop, up to its record: whether the event was inserted.
  unfoldable pub insert_device_event : NewDeviceEvent → SyncDb → Result String (SyncDb × Bool)
  unfolding insert_new_event
  insert_device_event event db = do
    refuse (not (supported_data_format event.data_format)) "insert device event"
    let events = db.queues.sync.archive.events
    if is_archived event.terminal_serial_number event.vendor_event_id events
        then ok (skip_event db, false)
        else insert_new_event event db

  unfoldable pub insert_device_event_batch :
      List NewDeviceEvent → SyncDb → Result String (SyncDb × List DeviceEventPersistence)
  unfolding insert_device_event
  insert_device_event_batch [] db = ok (db, [])
  insert_device_event_batch (event ∷ events) db = do
    (db1, inserted) ← insert_device_event event db
    (db2, stored) ← insert_gateway_activity now (event_activity event inserted) db1
    (db3, rest) ← insert_device_event_batch events db2
    ok (db3, record { inserted = inserted; activity = stored } ∷ rest)
