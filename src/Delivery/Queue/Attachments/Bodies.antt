-- ===== src/Delivery/Queue/Attachments/Bodies.antt =====
-- The body of an attachment, from the first claim on.
use face_recognition_proxy.Prelude.{
  ℕ, ◌+◌, ◌≡◌, refl, ap, sym, ◌∙◌, Bool, true, Option, none, some, List, [], ◌∷◌, ◌++◌, String,
  Bytes, arith, nat_eq, ◌==◌, Bool-cases, Option-cases, inl, inr,
}
use face_recognition_proxy.Result.{ok, require, >>=-eq-ok}
use face_recognition_proxy.Delivery.Queue.{find_delivery}
use face_recognition_proxy.Delivery.Queue.AttachmentMessage.{
  Surroundings, Written, write, attachments_url, first_body, AttachmentMessage, message_for,
}
use face_recognition_proxy.Delivery.Queue.Attachments.{
  is_row_claimable, first_of, update_attachments, body_text, leased_row, claimed_from, lease_first,
  claim_attachment, find_attachment,
}
use face_recognition_proxy.Delivery.Types.{
  Status, pending, sending, failed, delivered, is_delivered, EventDelivery, AttachmentDelivery,
  Deliveries,
}

abbrev body_of : Option AttachmentDelivery → Option Bytes
body_of none = none
body_of (some a) = a.request_body

-- The body in the row with an identifier.
abbrev pub body_at : ℕ → List AttachmentDelivery → Option Bytes
body_at id rows = body_of (find_attachment id rows)

abbrev pub KeepsBodies : List AttachmentDelivery → List AttachmentDelivery → Type 0
KeepsBodies rows rows' = (id : ℕ) (b : Bytes) → body_at id rows ≡ some b → body_at id rows' ≡ some b

pub replaced-KeepsBodies :
    (before : List AttachmentDelivery) (a a' : AttachmentDelivery) (after : List AttachmentDelivery)
    → a'.id ≡ a.id
    → ((b : Bytes) → a.request_body ≡ some b → a'.request_body ≡ some b)
    → KeepsBodies (before ++ a ∷ after) (before ++ a' ∷ after)
unfolding find_attachment
replaced-KeepsBodies [] a a' after same keeps id b h = elim (Bool-cases (a.id == id)) [
  | inl e ↦ rw (same, e) (keeps b (rw e at h))
  | inr e ↦ rw (same, e) (rw e at h)
]
replaced-KeepsBodies (x ∷ before) a a' after same keeps id b h = elim (Bool-cases (x.id == id)) [
  | inl e ↦ rw e (rw e at h)
  | inr e ↦ rw e (replaced-KeepsBodies before a a' after same keeps id b (rw e at h))
]

pub updated-KeepsBodies :
    (chosen : AttachmentDelivery → Bool) (f : AttachmentDelivery → AttachmentDelivery)
    → ((a : AttachmentDelivery) → (f a).id ≡ a.id)
    → ((a : AttachmentDelivery) → (f a).request_body ≡ a.request_body)
    → (rows : List AttachmentDelivery) → KeepsBodies rows (update_attachments chosen f rows).1
unfolding update_attachments find_attachment
updated-KeepsBodies chosen f same keeps [] id b h = h
updated-KeepsBodies chosen f same keeps (a ∷ rows) id b h =
    ground (arith, updated-KeepsBodies chosen f same keeps rows id b, same a, keeps a)

pub appended-KeepsBodies : (rows more : List AttachmentDelivery) → KeepsBodies rows (rows ++ more)
unfolding find_attachment
appended-KeepsBodies [] more id b h = cc
appended-KeepsBodies (a ∷ rows) more id b h = elim (Bool-cases (a.id == id)) [
  | inl e ↦ rw e (rw e at h)
  | inr e ↦ rw e (appended-KeepsBodies rows more id b (rw e at h))
]

pub first_of-some :
    (candidate : AttachmentDelivery → Bool) (rows before after : List AttachmentDelivery)
    (a : AttachmentDelivery)
    → first_of candidate rows ≡ some (before, (a, after))
    → (rows ≡ before ++ a ∷ after) × (candidate a ≡ true)
unfolding first_of
first_of-some candidate [] before after a h = cc
first_of-some candidate (x ∷ rows) before after a h = elim (Bool-cases (candidate x)) [
  | inl e ↦ ground arith
  | inr e ↦ elim (Option-cases (first_of candidate rows)) [
    | inl gone ↦ absurd (ground arith)
    | inr ((xs, (y, ys)), found) ↦
        let (same, due) = first_of-some candidate rows xs ys y found in
        let fronted : before ≡ x ∷ xs = ground arith in
        let it : a ≡ y = ground arith in
        let rest : after ≡ ys = ground arith in
        (rw (fronted, it, rest) (ap (λ l. x ∷ l) same), rw it due)
  ]
]

is_delivered-eq : (status : Status) → is_delivered status ≡ true → status ≡ delivered
is_delivered-eq delivered h = refl
is_delivered-eq pending h = cc
is_delivered-eq sending h = cc
is_delivered-eq failed h = cc

module _ (s : Surroundings) (now : ℕ) where
  -- One row is leased, and the delivery carries the body that it then holds.
  abbrev pub IsClaimed : Deliveries → Deliveries → EventDelivery → Type 0
  IsClaimed db db' d =
      (before : List AttachmentDelivery) × (a : AttachmentDelivery) × (after : List
        AttachmentDelivery)
      × (a' : AttachmentDelivery) × (parent : EventDelivery) × (db.attachments
          ≡ before ++ a ∷ after)
      × (db' ≡ record db { attachments = before ++ a' ∷ after })
      × (find_delivery a.event_delivery_id db.deliveries ≡ some parent)
      × (parent.status ≡ delivered)
      × (a'.status ≡ sending)
      × (a'.attempts ≡ a.attempts + 1)
      × (a'.request_body ≡ some d.body)
      × ((b : Bytes) → a.request_body ≡ some b → d.body ≡ b)
      × (a'.id ≡ a.id)
      × (d.id ≡ a.id)
      × (d.attempts ≡ a'.attempts)

  abbrev made_from : AttachmentMessage → Written
  made_from message = record {
    body = s.marshal message;
    availability = message.availability;
    reason = message.reason;
  }

  first_body-some :
      (a : AttachmentDelivery) (parent : EventDelivery) (written : Option Written)
      → first_body s a parent ≡ ok written
      → (body : Bytes) × ((write written a).request_body ≡ some body)
        × ((b : Bytes) → a.request_body ≡ some b → body ≡ b)
  unfolding first_body
  first_body-some a parent written h = elim (Option-cases a.request_body) [
    | inr (b, e) ↦
        let skipped : written ≡ none = ground arith in (b, rw skipped e, (λ b' e'. ground arith))
    | inl e ↦
        let (event, _, h1) =
          >>=-eq-ok (require (s.decode_message parent.body) _) _ (rw (e, first_body) at h) in
        let (message, _, h2) = >>=-eq-ok (message_for s event parent.id) _ h1 in
        let written≡ : written ≡ some (made_from message) = ground arith in
        (s.marshal message, rw written≡ refl, (λ b e'. absurd (ground arith)))
  ]

  write-id : (written : Option Written) (a : AttachmentDelivery) → (write written a).id ≡ a.id
  write-id none a = refl
  write-id (some made) a = refl

  IsClaimed-as :
      (db db1 db' : Deliveries) (d d1 : EventDelivery)
      → db' ≡ db1
      → d1 ≡ d
      → IsClaimed db db1 d1
      → IsClaimed db db' d
  IsClaimed-as db db1 db' d d1 same it claimed = rw (same, ← it) claimed

  leased_row-IsClaimed :
      (before : List AttachmentDelivery) (a : AttachmentDelivery) (after : List AttachmentDelivery)
      (parent : EventDelivery) (endpoint : String) (written : Option Written) (body : Bytes)
      (db : Deliveries)
      → db.attachments ≡ before ++ a ∷ after
      → find_delivery a.event_delivery_id db.deliveries ≡ some parent
      → parent.status ≡ delivered
      → (write written a).request_body ≡ some body
      → ((b : Bytes) → a.request_body ≡ some b → body ≡ b)
      → IsClaimed db
          (record db { attachments = before ++ leased_row s now written a ∷ after })
          (claimed_from s now (leased_row s now written a) parent endpoint)
  leased_row-IsClaimed before a after parent endpoint written body db here found over holds keeps =
      let text : body_text s now (write written a).request_body ≡ body = rw holds refl in
      (
        before,
        a,
        after,
        leased_row s now written a,
        parent,
        here,
        refl,
        found,
        over,
        refl,
        refl,
        holds ∙ ap some (sym text),
        (λ b e. text ∙ keeps b e),
        write-id written a,
        write-id written a,
        refl,
      )

  lease_first-IsClaimed :
      (before : List AttachmentDelivery) (a : AttachmentDelivery) (after : List AttachmentDelivery)
      (parent : EventDelivery) (db db' : Deliveries) (d : EventDelivery)
      → db.attachments ≡ before ++ a ∷ after
      → find_delivery a.event_delivery_id db.deliveries ≡ some parent
      → parent.status ≡ delivered
      → lease_first s now before a after db ≡ ok (db', some d)
      → IsClaimed db db' d
  unfolding lease_first
  lease_first-IsClaimed before a after parent db db' d here found over h =
      let (endpoint, _, h1) =
        >>=-eq-ok (require (attachments_url s parent.endpoint_url) _) _
          (rw (found, lease_first) at h) in
      let (written, first, h2) = >>=-eq-ok (first_body s a parent) _ h1 in
      let (body, holds, keeps) = first_body-some a parent written first in
      let a' = leased_row s now written a in
      let same : db' ≡ record db { attachments = before ++ a' ∷ after } = ground arith in
      let it : claimed_from s now a' parent endpoint ≡ d = ground arith in
      IsClaimed-as db _ db' d _ same it (
        leased_row-IsClaimed before a after parent endpoint written body db here found over holds
          keeps)

  pub claim_attachment-IsClaimed :
      (db db' : Deliveries) (d : EventDelivery)
      → claim_attachment s now db ≡ ok (db', some d)
      → IsClaimed db db' d
  unfolding claim_attachment is_row_claimable
  claim_attachment-IsClaimed db db' d h =
      elim (Option-cases (first_of (is_row_claimable now db) db.attachments)) [
        | inl e ↦ absurd (ground arith)
        | inr ((before, (a, after)), e) ↦
            let (here, due) =
              first_of-some (is_row_claimable now db) db.attachments before after a e in
            elim (Option-cases (find_delivery a.event_delivery_id db.deliveries)) [
              | inl gone ↦ absurd (ground arith)
              | inr (parent, found) ↦
                  lease_first-IsClaimed before a after parent db db' d here found
                    (is_delivered-eq parent.status (ground arith)) (rw (e, claim_attachment) at h)
            ]
      ]
