-- ===== src/AccessControl/Event.antt =====
-- `Extract` of internal/accesscontrol/events.go.
use face_recognition_proxy.Prelude.{
  Bool, true, false, Option, none, some, String, Bytes, utf8, string_eq, ◌==◌, if◌then◌else◌,
}
use face_recognition_proxy.Encoding.Base64
use face_recognition_proxy.AccessControl.{
  Readers, Projection, Moment, EventDocument, within, natural, project_face_rect,
}
use face_recognition_proxy.AccessControl.Form.{access_controller_event_part}
use face_recognition_proxy.PushSdk.Wire.{Decoded, value, malformed, trailing}

infixl 5 ◌>>=◌ ◌>>◌
abbrev ◌>>=◌ : {A B : Type 0} → Option A → (A → Option B) → Option B
none >>= next = none
some a >>= next = next a

abbrev ◌>>◌ : {B : Type 0} → Option (Unit {0}) → Option B → Option B
checked >> next = checked >>= λ _. next

abbrev guard : Bool → Option (Unit {0})
guard true = some tt
guard false = none

abbrev exact : {A : Type 0} → Decoded A → Option A
exact (value a) = some a
exact (malformed _) = none
exact trailing = none

module _ (r : Readers) where
  -- A declared time must be readable; an undeclared one stays undeclared.
  unfoldable pub declared_time : Option String → Option (Option Moment)
  declared_time none = some none
  declared_time (some text) = do parsed ← r.parse_rfc3339 text; some (some parsed)

  unfoldable pub event_payload : String → Bytes → Option Bytes
  event_payload data_format payload =
      if data_format == "boundaryData"
      then access_controller_event_part r payload
      else if data_format == "jsonData"
      then some payload
      else none

  unfoldable pub project_event : EventDocument → Option Projection
  unfolding declared_time
  project_event document = do
    guard (document.event_type == "AccessControllerEvent")
    access ← document.access_controller_event
    major ← access.major_event_type
    sub ← access.sub_event_type
    major_event_type ← within 1 5 major
    sub_event_type ← natural sub
    occurred_at ← declared_time document.date_time
    some (record {
      major_event_type = major_event_type;
      sub_event_type = sub_event_type;
      event_description = document.event_description;
      event_state = document.event_state;
      occurred_at = occurred_at;
      source_mac_address = document.mac_address;
      channel_id = document.channel_id;
      active_post_count = document.active_post_count;
      short_serial_number = document.short_serial_number;
      device_name = access.device_name;
      employee_number = access.employee_no_string;
      employee_name = access.name;
      card_number = access.card_no;
      card_reader_number = access.card_reader_no;
      door_number = access.door_no;
      event_serial_number = access.serial_no;
      front_serial_number = access.front_serial_no;
      user_type = access.user_type;
      current_verify_mode = access.current_verify_mode;
      current_event = access.current_event;
      mask = access.mask;
      pictures_number = access.pictures_number;
      pure_pwd_verify_enable = access.pure_pwd_verify_enable;
      face_rect = project_face_rect access.face_rect;
      source_ip_address = document.ip_address;
    })

  unfoldable pub extract : String → String → Option Projection
  unfolding event_payload project_event
  extract data_format payload_base64 = do
    decoded ← Base64.decode (utf8 payload_base64)
    payload ← event_payload data_format decoded
    document ← exact (r.decode_event payload)
    project_event document
