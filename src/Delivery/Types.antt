-- ===== src/Delivery/Types.antt =====
-- Rows of the delivery tables, and the message they carry.
use face_recognition_proxy.Prelude.{ℕ, Bool, true, false, String, Bytes, List, Option}
use face_recognition_proxy.Prelude.Table.{Table}
use face_recognition_proxy.PushSdk.Wire.{ℤ}
use face_recognition_proxy.Store.Tables.{Activity}

pub data Status : Type 0 where
  pending sending failed delivered : Status

-- `status IN ('pending','sending')`
abbrev pub is_unfinished : Status → Bool
is_unfinished pending = true
is_unfinished sending = true
is_unfinished _ = false

abbrev pub is_delivered : Status → Bool
is_delivered delivered = true
is_delivered _ = false

abbrev pub is_sending : Status → Bool
is_sending sending = true
is_sending _ = false

abbrev pub is_failed : Status → Bool
is_failed failed = true
is_failed _ = false

pub record DeliveryRoute : Type 0 where
  pub terminal_serial_number : String
  pub endpoint_url : String
  pub signing_key_id : String
  pub enabled : Bool

pub record EventDelivery : Type 0 where
  pub attachment : Bool
  pub id : ℕ
  pub terminal_serial_number : String
  pub endpoint_url : String
  pub signing_key_id : String
  pub status : Status
  pub attempts : ℕ
  pub next_attempt_at : ℕ
  pub lease_until : Option ℕ
  pub last_http_status : Option ℕ
  pub last_error : Option String
  pub delivered_at : Option ℕ
  pub body : Bytes

pub record EventMessage : Type 0 where
  pub schema_version : ℕ
  pub source : String
  pub event_id : String
  pub terminal_serial_number : String
  pub push_sdk_serial : String
  pub major_event_type : ℕ
  pub sub_event_type : ℕ
  pub event_state : Option String
  pub occurred_at : Option ℕ
  pub employee_number : Option String
  pub employee_name : Option String
  pub event_serial_number : Option ℤ

-- A row of `event_attachment_deliveries`; the body is written by the first claim.
pub record AttachmentDelivery : Type 0 where
  pub id : ℕ
  pub event_delivery_id : ℕ
  pub request_body : Option Bytes
  pub availability : Option String
  pub reason : Option String
  pub status : Status
  pub attempts : ℕ
  pub next_attempt_at : ℕ
  pub lease_until : Option ℕ
  pub last_http_status : Option ℕ
  pub last_error : Option String
  pub delivered_at : Option ℕ

-- The rows stand in the order of their identifiers; a route stands under its terminal's serial.
pub record Deliveries : Type 0 where
  pub terminals : List String
  pub routes : Table DeliveryRoute
  pub deliveries : List EventDelivery
  pub attachments : List AttachmentDelivery
  pub next_id : ℕ
  pub next_attachment_id : ℕ
  pub activities : List Activity
