-- ===== src/Delivery/Queue/Final.antt =====
-- A delivered row is final.
use face_recognition_proxy.Prelude.{
  ℕ, ◌≡◌, ◌⊎◌, refl, Bool, false, ◌&&◌, none, some, List, [], ◌∷◌, ◌++◌, Bytes, arith, nat_eq,
  string_eq, ◌==◌, Option-cases, Bool-cases, inl, inr,
}
use face_recognition_proxy.Prelude.Table.{get}
use face_recognition_proxy.Delivery.Types.{
  pending, delivered, is_failed, EventDelivery, EventMessage, Deliveries,
}
use face_recognition_proxy.Delivery.Queue.{
  leased, is_candidate, is_due, claim_first, claim_event_delivery, owns, finished, update_where,
  finish_event_delivery, enqueue_event_delivery, is_deliverable,
}
use face_recognition_proxy.Delivery.Queue.Lifecycle.{
  Step, Steps, claimed, result_saved, retried, route_saved, route_deleted, enqueued, done, step,
  retry-eq-ok, save-eq-ok, delete-eq-ok,
}

-- A row of a list.
abbrev pub IsRow : EventDelivery → List EventDelivery → Type 0
IsRow d [] = ⊥
IsRow d (row ∷ rows) = (row ≡ d) ⊎ IsRow d rows

update_where-IsRow :
    (now : ℕ) (chosen : EventDelivery → Bool) (f : EventDelivery → EventDelivery)
    (d : EventDelivery)
    → chosen d ≡ false
    → (ds : List EventDelivery) → IsRow d ds
    → IsRow d (update_where now chosen f ds).1
unfolding update_where
update_where-IsRow now chosen f d passed [] row = elim row [ ]
update_where-IsRow now chosen f d passed (x ∷ ds) (inl same) = rw (same, passed) (inl refl)
update_where-IsRow now chosen f d passed (x ∷ ds) (inr later) =
    let rest = update_where-IsRow now chosen f d passed ds later in
    elim (Bool-cases (chosen x)) [ inl e ↦ simp e (inr rest) | inr e ↦ simp e (inr rest) ]

claim_first-IsRow :
    (now : ℕ) (candidate : EventDelivery → Bool) (d : EventDelivery)
    → candidate d ≡ false
    → (ds ds' : List EventDelivery) (c : EventDelivery)
    → claim_first now candidate ds ≡ some (c, ds')
    → IsRow d ds
    → IsRow d ds'
unfolding claim_first
claim_first-IsRow now candidate d passed [] ds' c e row = elim row [ ]
claim_first-IsRow now candidate d passed (x ∷ ds) ds' c e row = elim (Bool-cases (candidate x)) [
  | inl due ↦
      let same : leased now x ∷ ds ≡ ds' = ground arith in
      elim row [ inl it ↦ absurd (ground arith) | inr later ↦ rw (← same) (inr later) ]
  | inr not_due ↦ elim (Option-cases (claim_first now candidate ds)) [
    | inl gone ↦ absurd (ground arith)
    | inr ((c', rest), found) ↦
        let same : x ∷ rest ≡ ds' = ground arith in
        elim row [
          | inl it ↦ rw (← same) (inl it)
          | inr later ↦
              rw (← same) (inr (claim_first-IsRow now candidate d passed ds rest c' found later))
        ]
  ]
]

append-IsRow :
    (d last : EventDelivery) (ds : List EventDelivery) → IsRow d ds → IsRow d (ds ++ last ∷ [])
append-IsRow d last [] row = elim row [ ]
append-IsRow d last (x ∷ ds) (inl same) = inl same
append-IsRow d last (x ∷ ds) (inr later) = inr (append-IsRow d last ds later)

claimed-IsRow :
    (now : ℕ) (db : Deliveries) (d : EventDelivery)
    → d.status ≡ delivered
    → IsRow d db.deliveries
    → IsRow d (claim_event_delivery now db).0.deliveries
unfolding claim_event_delivery is_candidate is_due
claimed-IsRow now db d final row =
    elim (Option-cases (claim_first now (is_candidate now db) db.deliveries)) [
      | inl e ↦ rw (e, claim_event_delivery) row
      | inr ((c, ds), e) ↦
          rw (e, claim_event_delivery)
            (claim_first-IsRow now (is_candidate now db) d (ground arith) db.deliveries ds c e row)
    ]

enqueued-IsRow :
    (marshal : EventMessage → Bytes) (now : ℕ) (message : EventMessage) (db : Deliveries)
    (d : EventDelivery)
    → IsRow d db.deliveries
    → IsRow d (enqueue_event_delivery marshal now message db).deliveries
unfolding enqueue_event_delivery
enqueued-IsRow marshal now message db d row =
    elim (Option-cases (get message.terminal_serial_number db.routes)) [
      | inl e ↦ rw (e, enqueue_event_delivery) row
      | inr (route, e) ↦ elim (Bool-cases (route.enabled && is_deliverable message)) [
        | inl to_send ↦ rw (e, enqueue_event_delivery, to_send) (append-IsRow d _ db.deliveries row)
        | inr passed ↦ rw (e, enqueue_event_delivery, passed) row
      ]
    ]

step-IsRow :
    (marshal : EventMessage → Bytes) (db db' : Deliveries) (d : EventDelivery)
    → d.status ≡ delivered
    → Step marshal db db'
    → IsRow d db.deliveries
    → IsRow d db'.deliveries
unfolding finish_event_delivery
step-IsRow marshal _ _ d final (claimed now db) row = claimed-IsRow now db d final row
step-IsRow marshal _ _ d final (result_saved now o status code failure next db) row =
    update_where-IsRow now (owns now o) (finished now status code failure next) d (ground arith)
      db.deliveries row
step-IsRow marshal db db' d final (retried now id actor _ _ e) row =
    rw (retry-eq-ok now id actor db db' e) (
      update_where-IsRow now (λ r. r.id == id && is_failed r.status)
        (λ r. record r { status = pending; next_attempt_at = now; last_error = none }) d
        (ground arith) db.deliveries row)
step-IsRow marshal db db' d final (route_saved now route actor _ _ e) row =
    rw (save-eq-ok now route actor db db' e) row
step-IsRow marshal db db' d final (route_deleted now serial actor _ _ e) row =
    rw (delete-eq-ok now serial actor db db' e).0 row
step-IsRow marshal _ _ d final (enqueued now message db) row =
    enqueued-IsRow marshal now message db d row

-- Whatever calls the queue gets afterwards, a row that is delivered stays in the table as it is: it
-- is not claimed, finished, retried or sent again.
pub Steps-IsRow :
    (marshal : EventMessage → Bytes) (db db' : Deliveries) (d : EventDelivery)
    → d.status ≡ delivered
    → Steps marshal db db'
    → IsRow d db.deliveries
    → IsRow d db'.deliveries
Steps-IsRow marshal _ _ d final (done db) row = row
Steps-IsRow marshal _ db'' d final (step db db' _ one rest) row =
    Steps-IsRow marshal db' db'' d final rest (step-IsRow marshal db db' d final one row)
