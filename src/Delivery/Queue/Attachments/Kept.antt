-- ===== src/Delivery/Queue/Attachments/Kept.antt =====
-- Attachments over time: the calls of both queues as steps.
use face_recognition_proxy.Prelude.{
  ℕ, ◌≡◌, refl, ap, ◌∙◌, ◌&&◌, Option, none, some, List, [], ◌∷◌, String, Bytes, arith, nat_eq,
  ◌==◌, Bool-cases, Option-cases, inl, inr,
}
use face_recognition_proxy.Prelude.Table.{get}
use face_recognition_proxy.Result.{ok, require, >>=-eq-ok}
use face_recognition_proxy.Delivery.Queue.{
  find_delivery, claim_event_delivery, claim_first, is_candidate, finish_event_delivery,
  enqueue_event_delivery, is_deliverable, new_attachment,
}
use face_recognition_proxy.Delivery.Queue.AttachmentMessage.{
  Surroundings, attachments_url, first_body,
}
use face_recognition_proxy.Delivery.Queue.Attachments.{
  is_row_claimable, first_of, lease_first, claim_attachment, find_attachment, update_attachments,
  owns_row, finished_row, retried, finish_attachment, retry_attachment_delivery,
}
use face_recognition_proxy.Delivery.Queue.Attachments.Bodies.{
  KeepsBodies, replaced-KeepsBodies, updated-KeepsBodies, appended-KeepsBodies,
  claim_attachment-IsClaimed,
}
use face_recognition_proxy.Delivery.Queue.Lifecycle as Lifecycle
use face_recognition_proxy.Delivery.Types.{
  Status, is_failed, EventDelivery, EventMessage, AttachmentDelivery, Deliveries,
}

-- One call of the attachment queue, or one of the queue of events.
pub data Step (s : Surroundings) (marshal : EventMessage → Bytes) (db db' : Deliveries)
    : Type 0 where
  claimed :
      (now : ℕ) (claim : Option EventDelivery)
      → claim_attachment s now db ≡ ok (db', claim)
      → Step s marshal db db'
  result_saved :
      (now : ℕ) (d : EventDelivery) (status : Status) (code : ℕ) (failure : String) (next_at : ℕ)
      → db' ≡ (finish_attachment now d status code failure next_at db).0
      → Step s marshal db db'
  tried_again :
      (now id actor : ℕ)
      → retry_attachment_delivery now id actor db ≡ ok db'
      → Step s marshal db db'
  event_queue : Lifecycle.Step marshal db db' → Step s marshal db db'

pub data Steps (s : Surroundings) (marshal : EventMessage → Bytes) (db : Deliveries)
    : Deliveries → Type 0 where
  done : Steps s marshal db db
  next :
      {db1 db2 : Deliveries}
      → Steps s marshal db db1
      → Step s marshal db1 db2
      → Steps s marshal db db2

abbrev pub Keeps : Deliveries → Deliveries → Type 0
Keeps db db' = KeepsBodies db.attachments db'.attachments

same-Keeps : (db db' : Deliveries) → db'.attachments ≡ db.attachments → Keeps db db'
same-Keeps db db' same id b h = rw same h

never_none :
    (s : Surroundings) (now : ℕ) (before : List AttachmentDelivery) (a : AttachmentDelivery)
    (after : List AttachmentDelivery) (db db' : Deliveries)
    → lease_first s now before a after db ≡ ok (db', none)
    → ⊥
unfolding lease_first
never_none s now before a after db db' h =
    let (parent, _, h1) =
      >>=-eq-ok (require (find_delivery a.event_delivery_id db.deliveries) _) _ h in
    let (endpoint, _, h2) = >>=-eq-ok (require (attachments_url s parent.endpoint_url) _) _ h1 in
    let (written, _, h3) = >>=-eq-ok (first_body s a parent) _ h2 in ground arith

claimed-Keeps :
    (s : Surroundings) (now : ℕ) (claim : Option EventDelivery) (db db' : Deliveries)
    → claim_attachment s now db ≡ ok (db', claim)
    → Keeps db db'
unfolding claim_attachment
claimed-Keeps s now none db db' h =
    elim (Option-cases (first_of (is_row_claimable now db) db.attachments)) [
      | inl e ↦ same-Keeps db db' (ground arith)
      | inr ((before, (a, after)), e) ↦
          absurd (never_none s now before a after db db' (rw (e, claim_attachment) at h))
    ]
claimed-Keeps s now (some d) db db' h =
    let (before, a, after, a', parent, here, same, _, _, _, _, holds, keeps, id≡, _, _) =
      claim_attachment-IsClaimed s now db db' d h in
    rw (here, same)
      (replaced-KeepsBodies before a a' after id≡ (λ b e. holds ∙ ap some (keeps b e)))

retried-attachments :
    (now id actor : ℕ) (db db' : Deliveries)
    → retry_attachment_delivery now id actor db ≡ ok db'
    → db'.attachments
      ≡ (update_attachments
          (λ row. row.id == id && is_failed row.status)
          (retried now)
          db.attachments).1
unfolding retry_attachment_delivery
retried-attachments now id actor db db' h =
    elim (Option-cases (find_attachment id db.attachments)) [
      | inl e ↦ absurd (ground arith)
      | inr (a, e) ↦ elim (Option-cases (find_delivery a.event_delivery_id db.deliveries)) [
        | inl e' ↦ absurd (ground arith)
        | inr (d, e') ↦ ground arith
      ]
    ]

event_queue-Keeps :
    (marshal : EventMessage → Bytes) (db db' : Deliveries)
    → Lifecycle.Step marshal db db'
    → Keeps db db'
unfolding claim_event_delivery finish_event_delivery enqueue_event_delivery
event_queue-Keeps marshal _ _ (Lifecycle.claimed now db) =
    elim (Option-cases (claim_first now (is_candidate now db) db.deliveries)) [
      | inl e ↦ same-Keeps db (claim_event_delivery now db).0 (rw (e, claim_event_delivery) refl)
      | inr (claim, e) ↦
          same-Keeps db (claim_event_delivery now db).0 (rw (e, claim_event_delivery) refl)
    ]
event_queue-Keeps marshal _ _ (Lifecycle.result_saved now d status code failure next_at db) =
    same-Keeps db (finish_event_delivery now d status code failure next_at db).0 refl
event_queue-Keeps marshal db db' (Lifecycle.retried now id actor _ _ h) =
    same-Keeps db db' (ap (λ d. d.attachments) (Lifecycle.retry-eq-ok now id actor db db' h))
event_queue-Keeps marshal db db' (Lifecycle.route_saved now route actor _ _ h) =
    same-Keeps db db' (ap (λ d. d.attachments) (Lifecycle.save-eq-ok now route actor db db' h))
event_queue-Keeps marshal db db' (Lifecycle.route_deleted now serial actor _ _ h) =
    same-Keeps db db' (ap (λ d. d.attachments) (Lifecycle.delete-eq-ok now serial actor db db' h).0)
event_queue-Keeps marshal _ _ (Lifecycle.enqueued now message db) =
    elim (Option-cases (get message.terminal_serial_number db.routes)) [
      | inl e ↦
          same-Keeps db (enqueue_event_delivery marshal now message db)
            (rw (e, enqueue_event_delivery) refl)
      | inr (route, e) ↦ elim (Bool-cases (route.enabled && is_deliverable message)) [
        | inl to_send ↦
            rw (e, enqueue_event_delivery, to_send)
              (appended-KeepsBodies db.attachments
                (new_attachment now db.next_attachment_id db.next_id ∷ []))
        | inr passed ↦
            same-Keeps db (enqueue_event_delivery marshal now message db)
              (rw (e, enqueue_event_delivery, passed) refl)
      ]
    ]

Step-Keeps :
    (s : Surroundings) (marshal : EventMessage → Bytes) (db db' : Deliveries)
    → Step s marshal db db'
    → Keeps db db'
unfolding finish_attachment
Step-Keeps s marshal db db' (claimed now claim h) = claimed-Keeps s now claim db db' h
Step-Keeps s marshal db db' (result_saved now d status code failure next_at same) = rw same (
    updated-KeepsBodies (owns_row d) (finished_row now status code failure next_at) (λ a. refl)
      (λ a. refl) db.attachments)
Step-Keeps s marshal db db' (tried_again now id actor h) =
    rw (retried-attachments now id actor db db' h) (
      updated-KeepsBodies (λ row. row.id == id && is_failed row.status) (retried now) (λ a. refl)
        (λ a. refl) db.attachments)
Step-Keeps s marshal db db' (event_queue step) = event_queue-Keeps marshal db db' step

-- Over any sequence of calls of the attachment queue and of the queue of events, an attachment that
-- has a body keeps it: what was sent once is what every later attempt sends.
pub Steps-Keeps :
    (s : Surroundings) (marshal : EventMessage → Bytes) (db db' : Deliveries)
    → Steps s marshal db db'
    → Keeps db db'
Steps-Keeps s marshal db db' done id b h = h
Steps-Keeps s marshal db db' (next {db1} steps step) id b h =
    Step-Keeps s marshal db1 db' step id b (Steps-Keeps s marshal db db1 steps id b h)
