-- ===== src/Store/Tables.antt =====
-- The rows of db/schema.sql that internal/store/store.go reads and writes for the terminal protocol,
-- and activity.Event of internal/activity/event.go. Times are nanoseconds.
use face_recognition_proxy.Prelude.{ℕ, Bool, String, Bytes, List, Option}
use face_recognition_proxy.Prelude.Table.{Table}

-- The values of activity.Event's fields that the gateway writes.
pub data Field : Type 0 where
  text : String → Field
  number : ℕ → Field
  flag : Bool → Field

pub record Activity : Type 0 where
  pub id : ℕ
  pub at : ℕ
  pub kind : String
  pub terminal : String
  pub message : String
  pub fields : List (String × Field)

-- A row of `terminals`, under its serial number.
pub record TerminalRow : Type 0 where
  pub connection_status : String
  pub last_seen_at : Option ℕ
  pub last_error : Option String
  pub updated_at : ℕ

-- A row of `pushsdk_sessions`: store.PushSDKSession.
pub record PushSdkSession : Type 0 where
  pub terminal_serial_number : String
  pub configuration_fingerprint : Bytes
  pub payload_mode : String
  pub salt : Bytes
  pub login_challenge : Bytes
  pub next_challenge : Bytes
  pub iterations : ℕ
  pub created_at : ℕ
  pub next_challenge_at : Option ℕ
  pub authenticated : Bool

-- The tables of the protocol, and those behind the command and event queues.
pub record Db (Q : Type 0) : Type 0 where
  pub terminals : Table TerminalRow
  pub pushsdk_sessions : Table PushSdkSession
  pub gateway_activities : List Activity
  pub queues : Q
