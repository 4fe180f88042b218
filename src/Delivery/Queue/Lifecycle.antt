-- ===== src/Delivery/Queue/Lifecycle.antt =====
-- The calls of the delivery queue as steps, and what a successful call changes.
use face_recognition_proxy.Prelude.{
  ℕ, ◌≡◌, false, not, ◌&&◌, none, String, Bytes, arith, nat_eq, string_eq, ◌==◌, Option-cases, inl,
  inr,
}
use face_recognition_proxy.Prelude.Table.{get, put, remove}
use face_recognition_proxy.Result.{ok}
use face_recognition_proxy.Delivery.Types.{
  Status, pending, is_delivered, is_failed, DeliveryRoute, EventDelivery, EventMessage, Deliveries,
}
use face_recognition_proxy.Delivery.Queue.{
  claim_event_delivery, update_where, finish_event_delivery, retry_event_delivery,
  save_delivery_route, delete_delivery_route, enqueue_event_delivery, any_delivery, find_delivery,
}

-- One call of the queue, at any time and with any arguments.
pub data Step (marshal : EventMessage → Bytes) : Deliveries → Deliveries → Type 0 where
  claimed : (now : ℕ) (db : Deliveries) → Step marshal db (claim_event_delivery now db).0
  result_saved :
      (now : ℕ) (d : EventDelivery) (status : Status) (code : ℕ) (failure : String) (next : ℕ)
      (db : Deliveries)
      → Step marshal db (finish_event_delivery now d status code failure next db).0
  retried :
      (now id actor : ℕ) (db db' : Deliveries)
      → retry_event_delivery now id actor db ≡ ok db'
      → Step marshal db db'
  route_saved :
      (now : ℕ) (route : DeliveryRoute) (actor : ℕ) (db db' : Deliveries)
      → save_delivery_route now route actor db ≡ ok db'
      → Step marshal db db'
  route_deleted :
      (now : ℕ) (serial : String) (actor : ℕ) (db db' : Deliveries)
      → delete_delivery_route now serial actor db ≡ ok db'
      → Step marshal db db'
  enqueued :
      (now : ℕ) (message : EventMessage) (db : Deliveries)
      → Step marshal db (enqueue_event_delivery marshal now message db)

pub data Steps (marshal : EventMessage → Bytes) : Deliveries → Deliveries → Type 0 where
  done : (db : Deliveries) → Steps marshal db db
  step :
      (db db' db'' : Deliveries)
      → Step marshal db db'
      → Steps marshal db' db''
      → Steps marshal db db''

pub retry-eq-ok :
    (now id actor : ℕ) (db db' : Deliveries)
    → retry_event_delivery now id actor db ≡ ok db'
    → db' ≡ record db {
      deliveries =
          (update_where now
            (λ row. row.id == id && is_failed row.status)
            (λ row. record row { status = pending; next_attempt_at = now; last_error = none })
            db.deliveries).1;
      activities = db'.activities;
    }
unfolding retry_event_delivery
retry-eq-ok now id actor db db' e = elim (Option-cases (find_delivery id db.deliveries)) [
  | inl gone ↦ ground arith
  | inr (d, found) ↦ ground arith
]

pub save-eq-ok :
    (now : ℕ) (route : DeliveryRoute) (actor : ℕ) (db db' : Deliveries)
    → save_delivery_route now route actor db ≡ ok db'
    → db' ≡ record db {
      routes = put route.terminal_serial_number route db.routes;
      activities = db'.activities;
    }
unfolding save_delivery_route
save-eq-ok now route actor db db' e = ground arith

pub delete-eq-ok :
    (now : ℕ) (serial : String) (actor : ℕ) (db db' : Deliveries)
    → delete_delivery_route now serial actor db ≡ ok db'
    → (db' ≡ record db { routes = remove serial db.routes; activities = db'.activities })
      × (any_delivery (λ status. not (is_delivered status)) serial db.attachments db.deliveries
          ≡ false)
unfolding delete_delivery_route
delete-eq-ok now serial actor db db' e = elim (Option-cases (get serial db.routes)) [
  | inl gone ↦ ground arith
  | inr (route, found) ↦ ground arith
]
