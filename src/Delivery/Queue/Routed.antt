-- ===== src/Delivery/Queue/Routed.antt =====
-- Unfinished deliveries and the routes of their terminals.
use text.Mathlib.TextEquality.{eq_iff}
use face_recognition_proxy.Prelude.{
  ℕ, ◌≡◌, ◌≢◌, Bool, true, false, not, ◌&&◌, none, some, List, [], ◌∷◌, ◌++◌, String, Bytes, arith,
  nat_eq, string_eq, ◌==◌, Option-cases, Bool-cases, inl, inr, All,
}
use face_recognition_proxy.Prelude.Table.{Table, get, put, remove, get-put, get-remove}
use face_recognition_proxy.Result.{ok}
use face_recognition_proxy.Delivery.Types.{
  Status, pending, is_delivered, is_failed, DeliveryRoute, EventDelivery, EventMessage,
  AttachmentDelivery, Deliveries,
}
use face_recognition_proxy.Delivery.Queue.{
  leased, is_candidate, claim_first, claim_event_delivery, owns, finished, update_where,
  finish_event_delivery, retry_event_delivery, save_delivery_route, delete_delivery_route,
  enqueue_event_delivery, any_delivery, is_deliverable, new_delivery,
}
use face_recognition_proxy.Delivery.Queue.Lifecycle.{
  Step, Steps, claimed, result_saved, retried, route_saved, route_deleted, enqueued, done, step,
  retry-eq-ok, save-eq-ok, delete-eq-ok,
}

-- A property of the rows that an update keeps.
update_where-All :
    (P : EventDelivery → Type 0) (now : ℕ) (chosen : EventDelivery → Bool)
    (f : EventDelivery → EventDelivery)
    → ((d : EventDelivery) → chosen d ≡ true → P d → P (f d))
    → (ds : List EventDelivery) → All P ds
    → All P (update_where now chosen f ds).1
unfolding update_where
update_where-All P now chosen f keeps [] h = tt
update_where-All P now chosen f keeps (d ∷ ds) h =
    let rest = update_where-All P now chosen f keeps ds h.1 in
    elim (Bool-cases (chosen d)) [
      | inl e ↦ simp e (keeps d e h.0, rest)
      | inr e ↦ simp e (h.0, rest)
    ]

claim_first-All :
    (P : EventDelivery → Type 0) (now : ℕ) (candidate : EventDelivery → Bool)
    → ((d : EventDelivery) → candidate d ≡ true → P d → P (leased now d))
    → (ds ds' : List EventDelivery) (c : EventDelivery)
    → claim_first now candidate ds ≡ some (c, ds')
    → All P ds
    → All P ds'
unfolding claim_first
claim_first-All P now candidate keeps [] ds' c e h = cc
claim_first-All P now candidate keeps (d ∷ ds) ds' c e h = elim (Bool-cases (candidate d)) [
  | inl now_due ↦
      let same : leased now d ∷ ds ≡ ds' = ground arith in rw (← same) (keeps d now_due h.0, h.1)
  | inr later ↦ elim (Option-cases (claim_first now candidate ds)) [
    | inl gone ↦ absurd (ground arith)
    | inr ((c', rest), found) ↦
        let same : d ∷ rest ≡ ds' = ground arith in
        rw (← same) (h.0, claim_first-All P now candidate keeps ds rest c' found h.1)
  ]
]

append-All :
    (P : EventDelivery → Type 0) (ds : List EventDelivery) (d : EventDelivery)
    → All P ds
    → P d
    → All P (ds ++ d ∷ [])
append-All P [] d h last = (last, tt)
append-All P (x ∷ ds) d h last = (h.0, append-All P ds d h.1 last)

-- Every delivery that is not delivered belongs to a terminal with a route.
abbrev IsRouted : Deliveries → EventDelivery → Type 0
IsRouted db d = is_delivered d.status ≡ false → get d.terminal_serial_number db.routes ≢ none

abbrev pub AllRouted : Deliveries → Type 0
AllRouted db = All (IsRouted db) db.deliveries

claimed-AllRouted :
    (now : ℕ) (db : Deliveries) → AllRouted db → AllRouted (claim_event_delivery now db).0
unfolding claim_event_delivery is_candidate
claimed-AllRouted now db h =
    elim (Option-cases (claim_first now (is_candidate now db) db.deliveries)) [
      | inl e ↦ rw (e, claim_event_delivery) h
      | inr ((c, ds), e) ↦
          rw (e, claim_event_delivery)
            (claim_first-All (IsRouted db) now (is_candidate now db) (λ d due routed. ground arith)
              db.deliveries ds c e h)
    ]

finished-AllRouted :
    (now : ℕ) (d : EventDelivery) (status : Status) (code : ℕ) (failure : String) (next : ℕ)
    (db : Deliveries)
    → AllRouted db
    → AllRouted (finish_event_delivery now d status code failure next db).0
unfolding finish_event_delivery
finished-AllRouted now d status code failure next db h =
    update_where-All (IsRouted db) now (owns now d) (finished now status code failure next)
      (λ row owned routed. ground arith) db.deliveries h

retried-AllRouted :
    (now id actor : ℕ) (db db' : Deliveries)
    → retry_event_delivery now id actor db ≡ ok db'
    → AllRouted db
    → AllRouted db'
retried-AllRouted now id actor db db' e h = rw (retry-eq-ok now id actor db db' e) (
    update_where-All (IsRouted db) now (λ row. row.id == id && is_failed row.status)
      (λ row. record row { status = pending; next_attempt_at = now; last_error = none })
      (λ row failed_row routed. ground arith) db.deliveries h)

-- A route that is there stays there.
put_keeps :
    (route : DeliveryRoute) (db : Deliveries) (d : EventDelivery)
    → IsRouted db d
    → IsRouted (record db { routes = put route.terminal_serial_number route db.routes }) d
put_keeps route db d h live =
    ground
      (arith, h live, get-put route.terminal_serial_number d.terminal_serial_number route db.routes)

All-map :
    (P P' : EventDelivery → Type 0)
    → ((d : EventDelivery) → P d → P' d)
    → (ds : List EventDelivery) → All P ds
    → All P' ds
All-map P P' f [] h = tt
All-map P P' f (d ∷ ds) h = (f d h.0, All-map P P' f ds h.1)

saved-AllRouted :
    (now : ℕ) (route : DeliveryRoute) (actor : ℕ) (db db' : Deliveries)
    → save_delivery_route now route actor db ≡ ok db'
    → AllRouted db
    → AllRouted db'
saved-AllRouted now route actor db db' e h =
    rw (save-eq-ok now route actor db db' e)
      (All-map (IsRouted db) _ (put_keeps route db) db.deliveries h)

-- No row of the terminal is unfinished, so those that are belong to others.
others_routed :
    (serial : String) (attachments : List AttachmentDelivery) (routes : Table DeliveryRoute)
    (ds : List EventDelivery)
    → any_delivery (λ status. not (is_delivered status)) serial attachments ds ≡ false
    → All (λ d. is_delivered d.status ≡ false → get d.terminal_serial_number routes ≢ none) ds
    → All
        (λ d.
          is_delivered d.status ≡ false
          → get d.terminal_serial_number (remove serial routes) ≢ none)
        ds
unfolding any_delivery
others_routed serial attachments routes [] none_left h = tt
others_routed serial attachments routes (d ∷ ds) none_left h = (
  λ live. ground (
    arith,
    h.0 live,
    get-remove serial d.terminal_serial_number routes,
    eq_iff serial d.terminal_serial_number,
    eq_iff d.terminal_serial_number serial,
  ),
  others_routed serial attachments routes ds (ground arith) h.1,
)

deleted-AllRouted :
    (now : ℕ) (serial : String) (actor : ℕ) (db db' : Deliveries)
    → delete_delivery_route now serial actor db ≡ ok db'
    → AllRouted db
    → AllRouted db'
deleted-AllRouted now serial actor db db' e h =
    let (same, none_left) = delete-eq-ok now serial actor db db' e in
    rw same (others_routed serial db.attachments db.routes db.deliveries none_left h)

enqueued-AllRouted :
    (marshal : EventMessage → Bytes) (now : ℕ) (message : EventMessage) (db : Deliveries)
    → AllRouted db
    → AllRouted (enqueue_event_delivery marshal now message db)
unfolding enqueue_event_delivery
enqueued-AllRouted marshal now message db h =
    elim (Option-cases (get message.terminal_serial_number db.routes)) [
      | inl e ↦ rw (e, enqueue_event_delivery) h
      | inr (route, e) ↦ elim (Bool-cases (route.enabled && is_deliverable message)) [
        | inl ok_to_send ↦
            rw (e, enqueue_event_delivery, ok_to_send)
              (append-All (IsRouted db) db.deliveries
                (new_delivery marshal now db.next_id route message) h (λ live. ground arith))
        | inr passed ↦ rw (e, enqueue_event_delivery, passed) h
      ]
    ]

step-AllRouted :
    (marshal : EventMessage → Bytes) (db db' : Deliveries)
    → Step marshal db db'
    → AllRouted db
    → AllRouted db'
step-AllRouted marshal _ _ (claimed now db) h = claimed-AllRouted now db h
step-AllRouted marshal _ _ (result_saved now d status code failure next db) h =
    finished-AllRouted now d status code failure next db h
step-AllRouted marshal db db' (retried now id actor _ _ e) h =
    retried-AllRouted now id actor db db' e h
step-AllRouted marshal db db' (route_saved now route actor _ _ e) h =
    saved-AllRouted now route actor db db' e h
step-AllRouted marshal db db' (route_deleted now serial actor _ _ e) h =
    deleted-AllRouted now serial actor db db' e h
step-AllRouted marshal _ _ (enqueued now message db) h = enqueued-AllRouted marshal now message db h

-- If every delivery that is not delivered belongs to a terminal with a route, that still holds
-- after any calls of the queue, changes and removals of routes included.
pub Steps-AllRouted :
    (marshal : EventMessage → Bytes) (db db' : Deliveries)
    → Steps marshal db db'
    → AllRouted db
    → AllRouted db'
Steps-AllRouted marshal _ _ (done db) h = h
Steps-AllRouted marshal _ db'' (step db db' _ one rest) h =
    Steps-AllRouted marshal db' db'' rest (step-AllRouted marshal db db' one h)
