-- ===== src/Examples/Pictures.antt =====
-- The attachment of a delivered event, claimed twice, and queued by a backfill.
use face_recognition_proxy.Prelude.{
  ◌≡◌, refl, true, false, some, none, List, [], ◌∷◌, utf8, concat, ℕ, String, Bytes, bytes_beq,
}
use face_recognition_proxy.Prelude.Table.{get}
use face_recognition_proxy.Result.{ok}
use face_recognition_proxy.Encoding.Base64
use face_recognition_proxy.AccessControl.{project_face_rect}
use face_recognition_proxy.AccessControl.Event.{
  extract, event_payload, project_event, declared_time,
}
use face_recognition_proxy.AccessControl.Picture.{
  delivery_picture, find_picture, raw_picture, judge_picture,
}
use face_recognition_proxy.Encoding.Hex
use face_recognition_proxy.Store.Tables.{number, text}
use face_recognition_proxy.Delivery.Queue.{
  find_delivery, new_attachment, any_attachment, seen_terminal, record_activity,
}
use face_recognition_proxy.Delivery.Queue.Attachments.Backfill.{
  until, last_id, eligible_rows, rows_asked, enqueue_all, preview_of, preview_attachments,
  queue_attachment_backfill,
}
use face_recognition_proxy.Delivery.Queue.Attachments.Queued.{
  IsQueued, queue_attachment_backfill-IsQueued,
}
use face_recognition_proxy.Delivery.Queue.AttachmentMessage.{
  Surroundings, attachments_url, message_for, first_body, Written,
}
use face_recognition_proxy.Delivery.Queue.Attachments.{
  is_row_due, is_row_claimable, first_of, lease_first, claim_attachment, leased_row, claimed_from,
}
use face_recognition_proxy.Delivery.Queue.Attachments.Kept.{Keeps, done, next, claimed, Steps-Keeps}
use face_recognition_proxy.Delivery.Types.{
  delivered, EventMessage, DeliveryRoute, EventDelivery, AttachmentDelivery, Deliveries,
}
use face_recognition_proxy.Examples.Archive.{sample_readers}

abbrev message : EventMessage
message = record {
  schema_version = 2;
  source = "pushsdk";
  event_id = "event-1";
  terminal_serial_number = "DS-1";
  push_sdk_serial = "PS-1";
  major_event_type = 5;
  sub_event_type = 75;
  event_state = some "active";
  occurred_at = none;
  employee_number = none;
  employee_name = none;
  event_serial_number = none;
}

abbrev around : Surroundings
around = record {
  readers = sample_readers;
  parse_url = λ text. some (record { path = text; raw_path = ""; others = "" });
  url_text = λ url. url.path;
  decode_message = λ body. some message;
  marshal = λ m. utf8 m.availability;
  device_event = λ id. some ("jsonData", "e30=");
}

abbrev route : DeliveryRoute
route = record {
  terminal_serial_number = "DS-1";
  endpoint_url = "https://receiver/events";
  signing_key_id = "k1";
  enabled = true;
}

abbrev event_row : EventDelivery
event_row = record {
  attachment = false;
  id = 1;
  terminal_serial_number = "DS-1";
  endpoint_url = "https://receiver/events";
  signing_key_id = "k1";
  status = delivered;
  attempts = 1;
  next_attempt_at = 0;
  lease_until = none;
  last_http_status = some 200;
  last_error = none;
  delivered_at = some 3;
  body = utf8 "{}";
}

abbrev tables : List AttachmentDelivery → Deliveries
tables rows = record {
  terminals = "DS-1" ∷ [];
  routes = ("DS-1", route) ∷ [];
  deliveries = event_row ∷ [];
  attachments = rows;
  next_id = 2;
  next_attachment_id = 2;
  activities = [];
}

abbrev made : Written
made = record { body = utf8 "not_provided"; availability = "not_provided"; reason = none }

abbrev first_row : AttachmentDelivery
first_row = leased_row around 5 (some made) (new_attachment 4 1 1)

abbrev first_claim : EventDelivery
first_claim = claimed_from around 5 first_row event_row "https://receiver/events/attachments"

claim_goes :
    claim_attachment around 5 (tables (new_attachment 4 1 1 ∷ []))
    ≡ ok (tables (first_row ∷ []), some first_claim)
unfolding claim_attachment first_of is_row_claimable is_row_due find_delivery lease_first
    attachments_url first_body message_for delivery_picture find_picture raw_picture judge_picture
    extract event_payload project_event declared_time project_face_rect get Base64.decode utf8
    concat
claim_goes = refl

-- A minute later the lease is over.
abbrev second_row : AttachmentDelivery
second_row = leased_row around 70_000_000_000 none first_row

abbrev second_claim : EventDelivery
second_claim =
    claimed_from around 70_000_000_000 second_row event_row "https://receiver/events/attachments"

claim_goes_again :
    claim_attachment around 70_000_000_000 (tables (first_row ∷ []))
    ≡ ok (tables (second_row ∷ []), some second_claim)
unfolding claim_attachment first_of is_row_claimable is_row_due find_delivery lease_first
    attachments_url first_body get concat
claim_goes_again = refl

Steps-Keeps_example : Keeps (tables (new_attachment 4 1 1 ∷ [])) (tables (second_row ∷ []))
Steps-Keeps_example =
    Steps-Keeps around (λ m. utf8 m.event_id) (tables (new_attachment 4 1 1 ∷ []))
      (tables (second_row ∷ []))
      (next (next done (claimed 5 (some first_claim) claim_goes))
        (claimed 70_000_000_000 (some second_claim) claim_goes_again))

-- The delivered event has no attachment yet, and one is queued for it.
abbrev encode_rows : String → ℕ → List (ℕ × String × String) → Bytes
encode_rows serial bound rows = utf8 serial

abbrev same_bytes : Bytes → Bytes
same_bytes bytes = bytes

abbrev after_backfill : Deliveries
after_backfill =
    record_activity "admin.attachment_backfill_queued" "DS-1"
      "historical attachment receipts queued without attendance replay"
      (("queuedCount", number 1)
        ∷ ("throughDeliveryId", number 0)
        ∷ ("previewToken", text "44532d31")
        ∷ ("adminUserId", number 7)
        ∷ [])
      9 (record (tables (new_attachment 9 2 1 ∷ [])) { next_attachment_id = 3 })

backfill_goes :
    queue_attachment_backfill encode_rows same_bytes 9 "DS-1" 0 "44532d31" 7 (tables [])
    ≡ ok (after_backfill, 1)
unfolding queue_attachment_backfill preview_attachments preview_of rows_asked eligible_rows last_id
    enqueue_all any_attachment seen_terminal get Hex.encode utf8 bytes_beq
backfill_goes = refl

queue_attachment_backfill-IsQueued_example :
    IsQueued "DS-1" (until 0 "DS-1" (event_row ∷ [])) (tables []) after_backfill 1
queue_attachment_backfill-IsQueued_example =
    queue_attachment_backfill-IsQueued encode_rows same_bytes 9 "DS-1" 0 "44532d31" 7 (tables [])
      after_backfill 1 backfill_goes
