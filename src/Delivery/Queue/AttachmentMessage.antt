-- ===== src/Delivery/Queue/AttachmentMessage.antt =====
-- The message that carries a picture, and where it goes: the body of `ClaimEventDelivery` of
-- internal/store/event_attachments.go.
use face_recognition_proxy.Prelude.{
  ℕ, not, Option, none, some, [], ◌∷◌, String, Bytes, nat_eq, string_eq, ◌==◌, if◌then◌else◌,
  concat,
}
use face_recognition_proxy.Result.{Result, ok, err, ◌>>=◌, require}
use face_recognition_proxy.AccessControl.{Readers}
use face_recognition_proxy.AccessControl.Picture.{
  Attachment, Availability, available, not_provided, unavailable, delivery_picture,
}
use face_recognition_proxy.Delivery.Types.{EventDelivery, EventMessage, AttachmentDelivery}

pub record AttachmentMessage : Type 0 where
  pub schema_version : ℕ
  pub kind : String
  pub source : String
  pub event_id : String
  pub terminal_serial_number : String
  pub push_sdk_serial : String
  pub attachment_id : String
  pub availability : String
  pub reason : Option String
  pub attachment : Option Attachment

-- A URL of net/url: its path, decoded and as written, and the rest.
pub record Url : Type 0 where
  pub path : String
  pub raw_path : String
  pub others : String

-- net/url, encoding/json, and the device event of a delivery: its format and payload.
pub record Surroundings : Type 0 where
  pub readers : Readers
  pub parse_url : String → Option Url
  pub url_text : Url → String
  pub decode_message : Bytes → Option EventMessage
  pub marshal : AttachmentMessage → Bytes
  pub device_event : ℕ → Option (String × String)

-- What a first claim writes into the row.
pub record Written : Type 0 where
  pub body : Bytes
  pub availability : String
  pub reason : Option String

-- DeliveryPicture's three results.
abbrev with_picture : AttachmentMessage → Availability → AttachmentMessage
with_picture message (available attachment) = record message {
  attachment = some attachment;
  availability = "available";
}
with_picture message not_provided = message
with_picture message (unavailable reason) = record message {
  availability = "unavailable";
  reason = some reason;
}

abbrev source_of : EventMessage → String
source_of event = if event.schema_version == 1 then "pushsdk" else event.source

abbrev bare_message : EventMessage → AttachmentMessage
bare_message event = record {
  schema_version = 1;
  kind = "event_attachment";
  source = source_of event;
  event_id = event.event_id;
  terminal_serial_number = event.terminal_serial_number;
  push_sdk_serial = event.push_sdk_serial;
  attachment_id = "Picture";
  availability = "not_provided";
  reason = none;
  attachment = none;
}

abbrev pub write : Option Written → AttachmentDelivery → AttachmentDelivery
write none a = a
write (some written) a = record a {
  request_body = some written.body;
  availability = some written.availability;
  reason = written.reason;
}

module _ (s : Surroundings) where
  -- `/attachments` behind both forms of the path.
  unfoldable pub attachments_url : String → Option String
  attachments_url text = elim (s.parse_url text) [
    | none ↦ none
    | some url ↦ some (
        s.url_text (record url {
          path = concat (url.path ∷ "/attachments" ∷ []);
          raw_path = if url.raw_path == "" then "" else concat (url.raw_path ∷ "/attachments" ∷ []);
        }))
  ]

  unfoldable pub message_for : EventMessage → ℕ → Result String AttachmentMessage
  message_for event parent =
      if not (source_of event == "pushsdk")
      then ok (bare_message event)
      else elim (s.device_event parent) [
        | none ↦ err "no rows in result set"
        | some (format, payload) ↦
            ok (with_picture (bare_message event) (delivery_picture s.readers format payload))
      ]

  -- The body that a first claim makes; a later one keeps what is there.
  unfoldable pub first_body : AttachmentDelivery → EventDelivery → Result String (Option Written)
  unfolding message_for
  first_body a parent = elim a.request_body [
    | some _ ↦ ok none
    | none ↦ do
      event ← require (s.decode_message parent.body) "decode event message"
      message ← message_for event parent.id
      ok (
          some (record {
            body = s.marshal message;
            availability = message.availability;
            reason = message.reason;
          }))
  ]
