-- ===== src/Delivery/Queue.antt =====
-- The queue of internal/store/event_deliveries.go: a call is a transaction over the delivery tables.
pub mod Candidates
pub mod Saved
pub mod Lease
pub mod Lifecycle
pub mod Routed
pub mod Final
pub mod AttachmentMessage
pub mod Attachments
use face_recognition_proxy.Prelude.{
  ℕ, ◌+◌, ◌*◌, Bool, true, false, not, ◌&&◌, ◌||◌, Option, none, some, List, [], ◌∷◌, ◌++◌, String,
  Bytes, leb, nat_eq, string_eq, ◌==◌, if◌then◌else◌, length,
}
use face_recognition_proxy.Prelude.Table.{get, put, remove}
use face_recognition_proxy.Result.{Result, ok, err, ◌>>=◌, ◌>>◌, refuse, require}
use face_recognition_proxy.Delivery.Types.{
  Status, pending, sending, failed, delivered, is_unfinished, is_delivered, is_sending, is_failed,
  DeliveryRoute, EventDelivery, EventMessage, AttachmentDelivery, Deliveries,
}
use face_recognition_proxy.Store.Tables.{Activity, Field, number}
use face_recognition_proxy.PushSdk.Session.{second}

pub data QueueError : Type 0 where
  route_busy route_unfinished lease_lost no_rows : QueueError

-- `lease_until <= now()`, which a NULL does not satisfy.
abbrev is_past : Option ℕ → ℕ → Bool
is_past none now = false
is_past (some at) now = leb at now

unfoldable pub is_due : ℕ → EventDelivery → Bool
is_due now d = elim d.status [
  | pending ↦ leb d.next_attempt_at now
  | sending ↦ is_past d.lease_until now
  | failed ↦ false
  | delivered ↦ false
]

abbrev pub is_enabled : Option DeliveryRoute → Bool
is_enabled none = false
is_enabled (some route) = route.enabled

-- `NULLIF`
abbrev pub null_if_zero : ℕ → Option ℕ
null_if_zero code = if code == 0 then none else some code

abbrev pub null_if_empty : String → Option String
null_if_empty failure = if failure == "" then none else some failure

module _ (now : ℕ) where
  -- Leased for a minute.
  abbrev pub leased : EventDelivery → EventDelivery
  leased d = record d {
    status = sending;
    attempts = d.attempts + 1;
    lease_until = some (now + 60 * second);
  }

  unfoldable pub is_candidate : Deliveries → EventDelivery → Bool
  is_candidate db d = is_enabled (get d.terminal_serial_number db.routes) && is_due now d

  -- `ORDER BY id LIMIT 1`: the first candidate, and the rows with its lease in them.
  unfoldable pub claim_first :
      (EventDelivery → Bool) → List EventDelivery → Option (EventDelivery × List EventDelivery)
  claim_first candidate [] = none
  claim_first candidate (d ∷ ds) =
      let rest = claim_first candidate ds in
      if candidate d
      then some (leased d, leased d ∷ ds)
      else elim rest [ none ↦ none | some (claimed, ds') ↦ some (claimed, d ∷ ds') ]

  unfoldable pub claim_event_delivery : Deliveries → Deliveries × Option EventDelivery
  claim_event_delivery db = elim (claim_first (is_candidate db) db.deliveries) [
    | none ↦ (db, none)
    | some (claimed, ds) ↦ (record db { deliveries = ds }, some claimed)
  ]

  abbrev pub owns : EventDelivery → EventDelivery → Bool
  owns d row = row.id == d.id && row.attempts == d.attempts && is_sending row.status

  abbrev pub finished : Status → ℕ → String → ℕ → EventDelivery → EventDelivery
  finished status http_status failure next row = record row {
    status = status;
    last_http_status = null_if_zero http_status;
    last_error = null_if_empty failure;
    next_attempt_at = next;
    lease_until = none;
    delivered_at = if is_delivered status then some now else none;
  }

  -- An `UPDATE ... WHERE`, and the number of its rows.
  unfoldable pub update_where :
      (EventDelivery → Bool)
      → (EventDelivery → EventDelivery)
      → List EventDelivery
      → ℕ × List EventDelivery
  update_where chosen f [] = (0, [])
  update_where chosen f (d ∷ ds) =
      let (n, rest) = update_where chosen f ds in
      if chosen d then (n + 1, f d ∷ rest) else (n, d ∷ rest)

  unfoldable pub finish_event_delivery :
      EventDelivery
      → Status
      → ℕ
      → String
      → ℕ
      → Deliveries
      → Deliveries × Result QueueError (Unit {0})
  finish_event_delivery d status http_status failure next db =
      let (n, ds) =
        update_where (owns d) (finished status http_status failure next) db.deliveries in
      (record db { deliveries = ds }, refuse (not (n == 1)) lease_lost)

unfoldable pub seen_terminal : String → List String → Bool
seen_terminal serial [] = false
seen_terminal serial (t ∷ ts) = t == serial || seen_terminal serial ts

-- `SELECT ... FROM event_deliveries WHERE id=$1`
unfoldable pub find_delivery : ℕ → List EventDelivery → Option EventDelivery
find_delivery id [] = none
find_delivery id (d ∷ ds) = if d.id == id then some d else find_delivery id ds

-- The condition on a delivery's attachment that both route changes put.
unfoldable pub any_attachment : (Status → Bool) → ℕ → List AttachmentDelivery → Bool
any_attachment bad id [] = false
any_attachment bad id (a ∷ rows) =
    (a.event_delivery_id == id && bad a.status) || any_attachment bad id rows

-- A delivery of the terminal whose status, or whose attachment's status, is of a kind.
unfoldable pub any_delivery :
    (Status → Bool) → String → List AttachmentDelivery → List EventDelivery → Bool
unfolding any_attachment
any_delivery bad serial attachments [] = false
any_delivery bad serial attachments (d ∷ ds) =
    (d.terminal_serial_number == serial && (bad d.status || any_attachment bad d.id attachments))
    || any_delivery bad serial attachments ds

-- insertGatewayActivity
abbrev pub record_activity :
    String → String → String → List (String × Field) → ℕ → Deliveries → Deliveries
record_activity kind terminal message fields now db = record db {
  activities =
      db.activities
      ++ record {
        id = length db.activities + 1;
        at = now;
        kind = kind;
        terminal = terminal;
        message = message;
        fields = fields;
      }
        ∷ [];
}

-- A connection error rolls a transaction back; the results here are those of a call that reaches the
-- database.
module _ (now : ℕ) where
  unfoldable pub retry_event_delivery : ℕ → ℕ → Deliveries → Result QueueError Deliveries
  unfolding find_delivery
  retry_event_delivery id actor db = do
    d ← require (find_delivery id db.deliveries) no_rows
    let (n, ds) =
        update_where now (λ row. row.id == id && is_failed row.status)
          (λ row. record row { status = pending; next_attempt_at = now; last_error = none })
          db.deliveries
    refuse (n == 0) no_rows
    ok (
        record_activity "admin.event_delivery_retried" d.terminal_serial_number
          "failed event delivery queued for retry"
          (("deliveryId", number id) ∷ ("adminUserId", number actor) ∷ []) now
          (record db { deliveries = ds }))

  -- Another endpoint or key for a terminal that has a route.
  abbrev changes : Option DeliveryRoute → DeliveryRoute → Bool
  changes none route = false
  changes (some old) route =
      not (old.endpoint_url == route.endpoint_url)
      || not (old.signing_key_id == route.signing_key_id)

  unfoldable pub save_delivery_route : DeliveryRoute → ℕ → Deliveries → Result QueueError Deliveries
  unfolding seen_terminal
  save_delivery_route route actor db = do
    let serial = route.terminal_serial_number
    refuse (not (seen_terminal serial db.terminals)) no_rows
    refuse
        (changes (get serial db.routes) route
          && any_delivery is_unfinished serial db.attachments db.deliveries)
        route_busy
    ok (
        record_activity "admin.event_delivery_route_saved" serial
          "event delivery configuration saved" (("adminUserId", number actor) ∷ []) now
          (record db { routes = put serial route db.routes }))

  unfoldable pub delete_delivery_route : String → ℕ → Deliveries → Result QueueError Deliveries
  unfolding seen_terminal
  delete_delivery_route serial actor db = do
    refuse (not (seen_terminal serial db.terminals)) no_rows
    route ← require (get serial db.routes) no_rows
    refuse (any_delivery (λ status. not (is_delivered status)) serial db.attachments db.deliveries)
        route_unfinished
    ok (
        record_activity "admin.event_delivery_route_removed" serial
          "event delivery destination removed" (("adminUserId", number actor) ∷ []) now
          (record db { routes = remove serial db.routes }))

-- The projection's test: an active authentication event.
unfoldable pub is_deliverable : EventMessage → Bool
is_deliverable message =
    message.major_event_type == 5
    && message.sub_event_type == 75
    && elim message.event_state [ none ↦ false | some state ↦ state == "active" ]

-- enqueueAttachment: the defaults of the table.
abbrev pub new_attachment : ℕ → ℕ → ℕ → AttachmentDelivery
new_attachment now id event_delivery_id = record {
  id = id;
  event_delivery_id = event_delivery_id;
  request_body = none;
  availability = none;
  reason = none;
  status = pending;
  attempts = 0;
  next_attempt_at = now;
  lease_until = none;
  last_http_status = none;
  last_error = none;
  delivered_at = none;
}

-- encoding/json
module _ (marshal : EventMessage → Bytes) where
  abbrev pub new_delivery : ℕ → ℕ → DeliveryRoute → EventMessage → EventDelivery
  new_delivery now id route message = record {
    attachment = false;
    id = id;
    terminal_serial_number = message.terminal_serial_number;
    endpoint_url = route.endpoint_url;
    signing_key_id = route.signing_key_id;
    status = pending;
    attempts = 0;
    next_attempt_at = now;
    lease_until = none;
    last_http_status = none;
    last_error = none;
    delivered_at = none;
    body = marshal message;
  }

  -- The message is the event's projection; the delivery and its attachment get their rows together.
  unfoldable pub enqueue_event_delivery : ℕ → EventMessage → Deliveries → Deliveries
  unfolding is_deliverable
  enqueue_event_delivery now message db = elim (get message.terminal_serial_number db.routes) [
    | none ↦ db
    | some route ↦ if not (route.enabled && is_deliverable message) then db else record db {
      deliveries = db.deliveries ++ new_delivery now db.next_id route message ∷ [];
      attachments = db.attachments ++ new_attachment now db.next_attachment_id db.next_id ∷ [];
      next_id = db.next_id + 1;
      next_attachment_id = db.next_attachment_id + 1;
    }
  ]
