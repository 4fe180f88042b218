-- ===== src/Delivery/Queue/Attachments.antt =====
-- internal/store/event_attachments.go: the queue of the pictures that follow delivered events.
pub mod Bodies
pub mod Kept
pub mod Backfill
pub mod Eligible
pub mod Queued
use face_recognition_proxy.Prelude.{
  ℕ, ◌+◌, ◌*◌, Bool, true, false, not, ◌&&◌, Option, none, some, List, [], ◌∷◌, ◌++◌, String, Bytes,
  leb, nat_eq, string_eq, ◌==◌, if◌then◌else◌, concat,
}
use face_recognition_proxy.Prelude.Table.{get}
use face_recognition_proxy.Result.{Result, ok, err, ◌>>=◌, ◌>>◌, refuse, require}
use face_recognition_proxy.AccessControl.{Readers}
use face_recognition_proxy.AccessControl.Picture.{
  Attachment, Availability, available, not_provided, unavailable, delivery_picture,
}
use face_recognition_proxy.Delivery.Types.{
  Status, pending, sending, failed, delivered, is_delivered, is_sending, is_failed, EventDelivery,
  EventMessage, AttachmentDelivery, Deliveries,
}
use face_recognition_proxy.Delivery.Queue.{
  QueueError, no_rows, lease_lost, is_enabled, is_past, find_delivery, seen_terminal,
  record_activity, null_if_zero, null_if_empty,
}
use face_recognition_proxy.PushSdk.Session.{second}
use face_recognition_proxy.Store.Tables.{number}
use face_recognition_proxy.Delivery.Queue.AttachmentMessage.{
  AttachmentMessage, Url, Surroundings, Written, write, attachments_url, message_for, first_body,
}

unfoldable pub is_row_due : ℕ → AttachmentDelivery → Bool
is_row_due now a = elim a.status [
  | pending ↦ leb a.next_attempt_at now
  | sending ↦ is_past a.lease_until now
  | failed ↦ false
  | delivered ↦ false
]

-- The event of a due attachment must be delivered, and its terminal's route enabled.
unfoldable pub is_row_claimable : ℕ → Deliveries → AttachmentDelivery → Bool
unfolding is_row_due
is_row_claimable now db a = elim (find_delivery a.event_delivery_id db.deliveries) [
  | none ↦ false
  | some d ↦
      is_enabled (get d.terminal_serial_number db.routes)
      && is_delivered d.status
      && is_row_due now a
]

-- `ORDER BY a.id LIMIT 1`: the first of the rows, with those before and after it.
unfoldable pub first_of :
    (AttachmentDelivery → Bool)
    → List AttachmentDelivery
    → Option (List AttachmentDelivery × (AttachmentDelivery × List AttachmentDelivery))
first_of candidate [] = none
first_of candidate (a ∷ rows) =
    let later = first_of candidate rows in
    if candidate a
    then some ([], (a, rows))
    else elim later [ none ↦ none | some (before, found) ↦ some (a ∷ before, found) ]

-- An `UPDATE ... WHERE`, and the number of its rows.
unfoldable pub update_attachments :
    (AttachmentDelivery → Bool)
    → (AttachmentDelivery → AttachmentDelivery)
    → List AttachmentDelivery
    → ℕ × List AttachmentDelivery
update_attachments chosen f [] = (0, [])
update_attachments chosen f (a ∷ rows) =
    let (n, rest) = update_attachments chosen f rows in
    if chosen a then (n + 1, f a ∷ rest) else (n, a ∷ rest)

module _ (s : Surroundings) (now : ℕ) where
  abbrev pub leased_row : Option Written → AttachmentDelivery → AttachmentDelivery
  leased_row written a = record (write written a) {
    status = sending;
    attempts = a.attempts + 1;
    lease_until = some (now + 60 * second);
  }

  abbrev body_text : Option Bytes → Bytes
  body_text none = []
  body_text (some body) = body

  -- What the worker gets: the row under its delivery's route.
  abbrev pub claimed_from : AttachmentDelivery → EventDelivery → String → EventDelivery
  claimed_from a parent endpoint = record {
    attachment = true;
    id = a.id;
    terminal_serial_number = parent.terminal_serial_number;
    endpoint_url = endpoint;
    signing_key_id = parent.signing_key_id;
    status = a.status;
    attempts = a.attempts;
    next_attempt_at = a.next_attempt_at;
    lease_until = a.lease_until;
    last_http_status = a.last_http_status;
    last_error = a.last_error;
    delivered_at = a.delivered_at;
    body = body_text a.request_body;
  }

  unfoldable pub lease_first :
      List AttachmentDelivery
      → AttachmentDelivery
      → List AttachmentDelivery
      → Deliveries
      → Result String (Deliveries × Option EventDelivery)
  unfolding attachments_url first_body
  lease_first before a after db = do
    parent ← require (find_delivery a.event_delivery_id db.deliveries) "no rows in result set"
    endpoint ← require (attachments_url s parent.endpoint_url) "parse endpoint"
    written ← first_body s a parent
    let row = leased_row written a
    ok (record db { attachments = before ++ row ∷ after }, some (claimed_from row parent endpoint))

  unfoldable pub claim_attachment : Deliveries → Result String (Deliveries × Option EventDelivery)
  unfolding first_of lease_first is_row_claimable
  claim_attachment db = elim (first_of (is_row_claimable now db) db.attachments) [
    | none ↦ ok (db, none)
    | some (before, (a, after)) ↦ lease_first before a after db
  ]

abbrev pub owns_row : EventDelivery → AttachmentDelivery → Bool
owns_row d row = row.id == d.id && row.attempts == d.attempts && is_sending row.status

unfoldable pub find_attachment : ℕ → List AttachmentDelivery → Option AttachmentDelivery
find_attachment id [] = none
find_attachment id (a ∷ rows) = if a.id == id then some a else find_attachment id rows

module _ (now : ℕ) where
  abbrev pub finished_row : Status → ℕ → String → ℕ → AttachmentDelivery → AttachmentDelivery
  finished_row status code failure next row = record row {
    status = status;
    last_http_status = null_if_zero code;
    last_error = null_if_empty failure;
    next_attempt_at = next;
    lease_until = none;
    delivered_at = if is_delivered status then some now else none;
  }

  unfoldable pub finish_attachment :
      EventDelivery
      → Status
      → ℕ
      → String
      → ℕ
      → Deliveries
      → Deliveries × Result QueueError (Unit {0})
  unfolding update_attachments
  finish_attachment d status code failure next db =
      let (n, rows) =
        update_attachments (owns_row d) (finished_row status code failure next) db.attachments in
      (record db { attachments = rows }, refuse (not (n == 1)) lease_lost)

  abbrev pub retried : AttachmentDelivery → AttachmentDelivery
  retried row = record row { status = pending; next_attempt_at = now; last_error = none }

  unfoldable pub retry_attachment_delivery : ℕ → ℕ → Deliveries → Result QueueError Deliveries
  unfolding find_attachment
  retry_attachment_delivery id actor db = do
    a ← require (find_attachment id db.attachments) no_rows
    d ← require (find_delivery a.event_delivery_id db.deliveries) no_rows
    refuse (not (seen_terminal d.terminal_serial_number db.terminals)) no_rows
    let (n, rows) =
        update_attachments (λ row. row.id == id && is_failed row.status) retried db.attachments
    refuse (n == 0) no_rows
    ok (
        record_activity "admin.attachment_delivery_retried" d.terminal_serial_number
          "failed attachment queued for retry"
          (("attachmentDeliveryId", number id) ∷ ("adminUserId", number actor) ∷ []) now
          (record db { attachments = rows }))
