-- ===== src/Store/Archive/Tables.antt =====
-- The tables of the archive: `device_events` with the rows of `access_event_projections`, and the
-- delivery tables that an event is queued in.
use face_recognition_proxy.Prelude.{
  ℕ, Bool, false, ◌&&◌, ◌||◌, Option, List, [], ◌∷◌, String, string_eq, ◌==◌,
}
use face_recognition_proxy.Prelude.Table.{Table}
use face_recognition_proxy.AccessControl.{Projection}
use face_recognition_proxy.Delivery.Types.{DeliveryRoute, EventDelivery, AttachmentDelivery}

-- A row of `access_event_projections`; an unclassified event has no projection.
pub record ProjectionRow : Type 0 where
  pub schema_version : ℕ
  pub classified : Option Projection

-- The row of the projections that carries the event's identifier stands with the event.
pub record DeviceEventRow : Type 0 where
  pub id : ℕ
  pub terminal_serial_number : String
  pub vendor_event_id : String
  pub data_format : String
  pub payload_base64 : Option String
  pub received_at : ℕ
  pub projection : Option ProjectionRow

-- An identifier is taken even for a row that is then not inserted.
pub record Archive : Type 0 where
  pub events : List DeviceEventRow
  pub next_event_id : ℕ
  pub routes : Table DeliveryRoute
  pub deliveries : List EventDelivery
  pub attachments : List AttachmentDelivery
  pub next_delivery_id : ℕ
  pub next_attachment_id : ℕ

-- `UNIQUE (terminal_serial_number, vendor_event_id)`
unfoldable pub is_archived : String → String → List DeviceEventRow → Bool
is_archived serial vendor_event_id [] = false
is_archived serial vendor_event_id (row ∷ rows) =
    (row.terminal_serial_number == serial && row.vendor_event_id == vendor_event_id)
    || is_archived serial vendor_event_id rows
