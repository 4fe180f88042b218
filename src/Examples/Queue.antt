-- ===== src/Examples/Queue.antt =====
-- The delivery queue and its worker.
use face_recognition_proxy.Prelude.{
  ◌+◌, ◌≤◌, ◌≡◌, ◌↔◌, refl, inl, true, false, some, none, List, [], ◌∷◌, String, Bytes, arith,
  length,
}
use face_recognition_proxy.Prelude.Table.{Table, get}
use face_recognition_proxy.Result.{ok, err}
use face_recognition_proxy.PushSdk.Wire.{pos}
use face_recognition_proxy.Delivery.Receipt.{
  JsonValue, string, integer, valid_receipt, accepts, read_members, seen_name,
}
use face_recognition_proxy.Delivery.Receipt.Stored.{SaysStored, valid_receipt-SaysStored}
use face_recognition_proxy.Delivery.Queue.{
  leased, claim_event_delivery, finish_event_delivery, lease_lost,
}
use face_recognition_proxy.Delivery.Queue.Final.{IsRow, Steps-IsRow}
use face_recognition_proxy.Delivery.Queue.Lease.{
  ClaimOutcome, claim_event_delivery-ClaimOutcome, finish-lease_lost, finish-leased,
}
use face_recognition_proxy.Delivery.Queue.Lifecycle.{Steps, claimed, done, step}
use face_recognition_proxy.Delivery.Queue.Routed.{AllRouted, Steps-AllRouted}
use face_recognition_proxy.Delivery.Types.{
  pending, delivered, EventDelivery, EventMessage, DeliveryRoute, Deliveries,
}
use face_recognition_proxy.Delivery.Worker.{Network, Answer, answer, send, tick, receipt_stored}
use face_recognition_proxy.Delivery.Queue.Saved.{IsSaved}
use face_recognition_proxy.Delivery.Worker.Rounds.{Rounds, tick-Rounds}
use face_recognition_proxy.Delivery.Worker.Outcome.{
  Sent, IsRetried, send-delivered_iff, send-pending_iff,
}

abbrev receipt : List (String × JsonValue)
receipt =
    ("eventId", string "event-1")
    ∷ ("receipt", string "stored")
    ∷ ("schemaVersion", integer (pos 2))
    ∷ []

abbrev message : EventMessage
message = record {
  schema_version = 2;
  source = "pushsdk";
  event_id = "event-1";
  terminal_serial_number = "DS-1";
  push_sdk_serial = "PS-1";
  major_event_type = 5;
  sub_event_type = 75;
  event_state = some "active";
  occurred_at = none;
  employee_number = none;
  employee_name = none;
  event_serial_number = none;
}

abbrev network : Network
network = record {
  hmac_sha256 = λ key input. input;
  valid_url = λ url. true;
  post = λ request. answer 200 (some []);
  decode_message = λ body. some message;
  read_object = λ body. some (receipt, true);
}

abbrev row : EventDelivery
row = record {
  attachment = false;
  id = 1;
  terminal_serial_number = "DS-1";
  endpoint_url = "https://receiver/";
  signing_key_id = "key";
  status = pending;
  attempts = 0;
  next_attempt_at = 5;
  lease_until = none;
  last_http_status = none;
  last_error = none;
  delivered_at = none;
  body = [];
}

abbrev old_row : EventDelivery
old_row = record row { id = 0; status = delivered; delivered_at = some 4 }

abbrev route : DeliveryRoute
route = record {
  terminal_serial_number = "DS-1";
  endpoint_url = "https://receiver/";
  signing_key_id = "key";
  enabled = true;
}

abbrev tables : Deliveries
tables = record {
  terminals = "DS-1" ∷ [];
  routes = ("DS-1", route) ∷ [];
  deliveries = old_row ∷ row ∷ [];
  attachments = [];
  next_id = 2;
  next_attachment_id = 1;
  activities = [];
}

abbrev marshal : EventMessage → Bytes
marshal m = []

abbrev keys : Table String
keys = ("key", "secret") ∷ []

receipt_valid : valid_receipt (λ body. some (receipt, true)) [] "event-1" 2 "" ≡ true
unfolding valid_receipt accepts read_members seen_name
receipt_valid = refl

valid_receipt-SaysStored_example : SaysStored "event-1" 2 "" (some (receipt, true))
valid_receipt-SaysStored_example =
    valid_receipt-SaysStored (λ body. some (receipt, true)) [] "event-1" 2 "" receipt_valid

claim_event_delivery-ClaimOutcome_example : ClaimOutcome 6 tables (claim_event_delivery 6 tables)
claim_event_delivery-ClaimOutcome_example = claim_event_delivery-ClaimOutcome 6 tables

-- The row was claimed again by another worker.
finish-lease_lost_example :
    finish_event_delivery 9
      (leased 6 row)
      delivered
      200
      ""
      11
      (record tables { deliveries = leased 70 (leased 6 row) ∷ [] })
    ≡ (record tables { deliveries = leased 70 (leased 6 row) ∷ [] }, err lease_lost)
finish-lease_lost_example =
    finish-lease_lost 9 (leased 6 row) delivered 200 "" 11
      (record tables { deliveries = leased 70 (leased 6 row) ∷ [] }) ((λ same. omega arith), tt)

finish-leased_example :
    (saved : EventDelivery) × (finish_event_delivery 9
        (leased 6 row)
        delivered
        200
        ""
        11
        (record tables { deliveries = old_row ∷ leased 6 row ∷ [] })
      ≡ (record tables { deliveries = old_row ∷ saved ∷ [] }, ok tt))
    × IsSaved 9 delivered 200 "" 11 (leased 6 row) saved
finish-leased_example =
    finish-leased 9 (leased 6 row) (old_row ∷ []) [] delivered 200 "" 11
      (record tables { deliveries = old_row ∷ leased 6 row ∷ [] }) refl refl (omega arith, tt) tt

after_claim : Steps marshal tables (claim_event_delivery 6 tables).0
after_claim =
    step tables (claim_event_delivery 6 tables).0 (claim_event_delivery 6 tables).0
      (claimed 6 tables) (done (claim_event_delivery 6 tables).0)

Steps-IsRow_example : IsRow old_row (claim_event_delivery 6 tables).0.deliveries
Steps-IsRow_example =
    Steps-IsRow marshal tables (claim_event_delivery 6 tables).0 old_row refl after_claim (inl refl)

Steps-AllRouted_example : AllRouted (claim_event_delivery 6 tables).0
unfolding get
Steps-AllRouted_example =
    Steps-AllRouted marshal tables (claim_event_delivery 6 tables).0 after_claim
      ((λ live none_there. cc), ((λ live none_there. cc), tt))

tick-Rounds_example :
    Rounds network keys
      (λ i. 10 + i)
      (λ i. [])
      25
      0
      tables
      (tick network keys (λ i. 10 + i) (λ i. []) 25 0 tables)
tick-Rounds_example =
    tick-Rounds network keys (λ i. 10 + i) (λ i. []) 25 0 tables ((omega arith, tt), (tt, tt))

send-delivered_iff_example : ((send network keys [] row).0 ≡ delivered) ↔ (
    (body : Bytes) × Sent network keys [] row (answer 200 (some body))
    × (length body ≤ 4096)
    × (receipt_stored network row body ≡ true))
send-delivered_iff_example = send-delivered_iff network keys [] row

send-pending_iff_example :
    ((send network keys [] row).0 ≡ pending)
    ↔ ((reply : Answer) × Sent network keys [] row reply × IsRetried reply)
send-pending_iff_example = send-pending_iff network keys [] row
