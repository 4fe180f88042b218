-- ===== src/AccessControl.antt =====
-- internal/accesscontrol: the declared read model of a terminal's access events. JSON, XML, MIME and
-- JPEG are read by Go's standard library: the record `Readers` stands for it.
pub mod Event
pub mod Form
pub mod Picture
pub mod Retained
use face_recognition_proxy.Prelude.{
  ℕ, Bool, Option, none, some, List, String, Bytes, ltb, leb, ◌&&◌, nat_eq, string_eq, ◌==◌,
  if◌then◌else◌,
}
use face_recognition_proxy.PushSdk.Wire.{ℤ, pos, negsuc, Decoded}

-- A time with its zone. The instant counts nanoseconds from before any time that RFC 3339 can write.
pub record Moment : Type 0 where
  pub instant : ℕ
  pub location : String

pub record FaceRect : Type 0 where
  pub height : Option String
  pub width : Option String
  pub x : Option String
  pub y : Option String

pub record Projection : Type 0 where
  pub major_event_type : ℕ
  pub sub_event_type : ℕ
  pub event_description : Option String
  pub event_state : Option String
  pub occurred_at : Option Moment
  pub source_mac_address : Option String
  pub channel_id : Option ℤ
  pub active_post_count : Option ℤ
  pub short_serial_number : Option String
  pub device_name : Option String
  pub employee_number : Option String
  pub employee_name : Option String
  pub card_number : Option String
  pub card_reader_number : Option ℤ
  pub door_number : Option ℤ
  pub event_serial_number : Option ℤ
  pub front_serial_number : Option ℤ
  pub user_type : Option String
  pub current_verify_mode : Option String
  pub current_event : Option Bool
  pub mask : Option String
  pub pictures_number : Option ℤ
  pub pure_pwd_verify_enable : Option Bool
  pub face_rect : Option FaceRect
  pub source_ip_address : Option String

-- A json.Number is its text.
pub record FaceRectDocument : Type 0 where
  pub height : Option String
  pub width : Option String
  pub x : Option String
  pub y : Option String

pub record AccessControllerEvent : Type 0 where
  pub device_name : Option String
  pub major_event_type : Option ℤ
  pub sub_event_type : Option ℤ
  pub card_no : Option String
  pub name : Option String
  pub employee_no_string : Option String
  pub card_reader_no : Option ℤ
  pub door_no : Option ℤ
  pub serial_no : Option ℤ
  pub front_serial_no : Option ℤ
  pub user_type : Option String
  pub current_verify_mode : Option String
  pub current_event : Option Bool
  pub mask : Option String
  pub pictures_number : Option ℤ
  pub pure_pwd_verify_enable : Option Bool
  pub face_rect : Option FaceRectDocument

pub record EventDocument : Type 0 where
  pub event_type : String
  pub event_description : Option String
  pub event_state : Option String
  pub date_time : Option String
  pub ip_address : Option String
  pub mac_address : Option String
  pub channel_id : Option ℤ
  pub active_post_count : Option ℤ
  pub short_serial_number : Option String
  pub access_controller_event : Option AccessControllerEvent

pub record RetainedDocument : Type 0 where
  pub major : Option ℤ
  pub minor : Option ℤ
  pub time : Option String
  pub card_no : Option String
  pub name : Option String
  pub employee_no_string : Option String
  pub card_reader_no : Option ℤ
  pub door_no : Option ℤ
  pub serial_no : Option ℤ
  pub user_type : Option String
  pub current_verify_mode : Option String
  pub mask : Option String
  pub face_rect : Option FaceRectDocument

pub record PageDocument : Type 0 where
  pub search_id : Option String
  pub response_status : Option String
  pub num_of_matches : Option ℤ
  pub total_matches : Option ℤ
  pub info_list : List Bytes

-- An XML token after the root: character data, or anything else.
pub data XmlToken : Type 0 where
  characters : String → XmlToken
  other_token : XmlToken

pub record TimeDocument : Type 0 where
  pub space : String
  pub root : String
  pub local_time : String
  pub after : List XmlToken
  pub after_error : Option String

pub record RetainedEventSearchRequest : Type 0 where
  pub search_id : String
  pub search_result_position : ℕ
  pub max_results : ℕ
  pub major : ℕ
  pub minor : ℕ
  pub start_time : String
  pub end_time : String
  pub time_reverse_order : Bool

-- One part of a MIME form as it stands, with the headers that the code asks for.
pub record RawPart : Type 0 where
  pub disposition : String
  pub content_type : String
  pub content_id : String
  pub contents : Option Bytes

-- The parts up to the end of the form, or up to an error.
pub record RawForm : Type 0 where
  pub parts : List RawPart
  pub fails : Bool

-- encoding/json, encoding/xml, time, mime, mime/multipart, image/jpeg and crypto/sha256. A header's
-- media type comes with its parameters, which map keeps apart by name; an absent one is "".
pub record Readers : Type 0 where
  pub decode_event : Bytes → Decoded EventDocument
  pub decode_retained : Bytes → Decoded RetainedDocument
  pub decode_page : Bytes → Decoded (Option PageDocument)
  pub decode_time : Bytes → Option TimeDocument
  pub encode_search : RetainedEventSearchRequest → Bytes
  pub parse_rfc3339 : String → Option Moment
  pub format_rfc3339 : Moment → String
  pub zero_instant : ℕ
  pub start_of_2000 : String → ℕ
  pub read_mime_header : Bytes → Option (String × Bytes)
  pub parse_media_type : String → Option (String × (String → String))
  pub read_form : String → Bytes → RawForm
  pub jpeg_config : Bytes → Option (ℤ × ℤ)
  pub jpeg_decodes : Bytes → Bool
  pub sha256_sum : Bytes → Bytes

abbrev pub major_alarm : ℕ
major_alarm = 1

abbrev pub major_exception : ℕ
major_exception = 2

abbrev pub major_operation : ℕ
major_operation = 3

abbrev pub major_event : ℕ
major_event = 5

unfoldable pub subtype_label : ℕ → ℕ → Option String
subtype_label major subtype =
    if major == major_event && subtype == 75 then some "Face Authentication Completed" else none

unfoldable pub major_event_type_for_category : String → Option ℕ
major_event_type_for_category category =
    if category == "alarm"
    then some major_alarm
    else if category == "exception"
    then some major_exception
    else if category == "operation"
    then some major_operation
    else if category == "event"
    then some major_event
    else none

unfoldable pub category_for_major_event_type : ℕ → Option String
category_for_major_event_type major =
    if major == major_alarm
    then some "alarm"
    else if major == major_exception
    then some "exception"
    else if major == major_operation
    then some "operation"
    else if major == major_event
    then some "event"
    else none

-- An integer between two bounds, as a number.
abbrev pub within : ℕ → ℕ → ℤ → Option ℕ
within low high (pos n) = if leb low n && leb n high then some n else none
within low high (negsuc n) = none

-- An integer that is not negative, as a number.
abbrev pub natural : ℤ → Option ℕ
natural (pos n) = some n
natural (negsuc n) = none

unfoldable pub project_face_rect : Option FaceRectDocument → Option FaceRect
project_face_rect none = none
project_face_rect (some source) =
    some (record { height = source.height; width = source.width; x = source.x; y = source.y })
