-- ===== src/Delivery/Worker/Outcome.antt =====
-- When a delivery counts as delivered, when it is tried again, and that the worker only makes the
-- queue's steps.
use face_recognition_proxy.Prelude.{
  ℕ, zero, suc, ◌+◌, ◌≤◌, ◌≡◌, ◌≢◌, ◌↔◌, ◌⊎◌, refl, ap, true, Option, none, some, [], ◌∷◌, String,
  Bytes, arith, nat_eq, ◌==◌, length, take, Option-cases, Bool-cases, inl, inr,
}
use face_recognition_proxy.Prelude.Table.{Table, get}
use face_recognition_proxy.Delivery.Backoff.{retry_delay}
use face_recognition_proxy.Delivery.Queue.{claim_event_delivery, finish_event_delivery}
use face_recognition_proxy.Delivery.Queue.Lifecycle.{Steps, claimed, result_saved, done, step}
use face_recognition_proxy.Delivery.Types.{
  Status, pending, failed, delivered, EventDelivery, EventMessage, Deliveries,
}
use face_recognition_proxy.Delivery.Worker.{
  Network, Answer, no_answer, answer, is_unavailable, receipt_stored, request_for, send, tick,
  on_answer, judged, limited,
}

take_whole : (n : ℕ) (xs : Bytes) → length xs ≤ n → take n xs ≡ xs
take_whole zero [] h = refl
take_whole zero (x ∷ xs) h = absurd (omega arith)
take_whole (suc n) [] h = refl
take_whole (suc n) (x ∷ xs) h = ap (λ l. x ∷ l) (take_whole n xs (omega arith))

take_short : (n : ℕ) (xs : Bytes) → length (take (suc n) xs) ≤ n → length xs ≤ n
take_short zero [] h = omega arith
take_short zero (x ∷ xs) h = absurd (omega arith)
take_short (suc n) [] h = omega arith
take_short (suc n) (x ∷ xs) h = omega (arith, take_short n xs (omega arith))

-- No answer, or one that says to come back later.
abbrev pub IsUnavailable : ℕ → Type 0
IsUnavailable code = (code ≡ 408) ⊎ ((code ≡ 429) ⊎ (500 ≤ code))

abbrev pub IsRetried : Answer → Type 0
IsRetried reply =
    (reply ≡ no_answer)
    ⊎ ((code : ℕ) × (body : Option Bytes) × (reply ≡ answer code body) × IsUnavailable code)

is_unavailable_iff :
    (net : Network) (code : ℕ) → (is_unavailable net code ≡ true) ↔ IsUnavailable code
is_unavailable_iff net code = ground arith

module _ (net : Network) (d : EventDelivery) where
  abbrev IsStored : Answer → Type 0
  IsStored reply =
      (body : Bytes) × (reply ≡ answer 200 (some body))
      × (length body ≤ 4096)
      × (receipt_stored net d body ≡ true)

  judged_delivered :
      (code : ℕ) (body : Bytes)
      → (judged net d code (some body)).0 ≡ delivered
      → (length body ≤ 4096) × (receipt_stored net d body ≡ true)
  judged_delivered code body h = ground arith

  answered_200 :
      (code : ℕ) (body : Option Bytes)
      → (on_answer net d (answer code body)).0 ≡ delivered
      → (code ≡ 200) × ((judged net d code (limited net body)).0 ≡ delivered)
  answered_200 code body h = elim (Bool-cases (is_unavailable net code)) [
    | inl e ↦ absurd (ground arith)
    | inr e ↦ elim (Bool-cases (code == 200)) [
      | inl e' ↦ (ground arith, simp (e, e') at h)
      | inr e' ↦ (let bad : failed ≡ delivered = simp (e, e') at h in cc)
    ]
  ]

  delivered_answer : (reply : Answer) → (on_answer net d reply).0 ≡ delivered → IsStored reply
  delivered_answer no_answer h = cc
  delivered_answer (answer code none) h = absurd (ground arith)
  delivered_answer (answer code (some body)) h =
      let (code≡, good) = answered_200 code (some body) h in
      let (size, stored) = judged_delivered code (take 4097 body) good in
      let whole = take_whole 4097 body (omega (arith, take_short 4096 body size)) in
      (body, rw code≡, take_short 4096 body size, rw whole at stored)

  stored_answer : (reply : Answer) → IsStored reply → (on_answer net d reply).0 ≡ delivered
  stored_answer reply (body, same, size, stored) =
      let whole = take_whole 4097 body (omega arith) in rw (same, whole) (ground arith)

  judged_not_pending : (code : ℕ) (body : Option Bytes) → (judged net d code body).0 ≢ pending
  judged_not_pending code none h = cc
  judged_not_pending code (some body) h = ground arith

  waits :
      (code : ℕ) (body : Option Bytes)
      → (on_answer net d (answer code body)).0 ≡ pending
      → IsRetried (answer code body)
  waits code body h = elim (Bool-cases (is_unavailable net code)) [
    | inl e ↦ inr (code, body, refl, (is_unavailable_iff net code).0 e)
    | inr e ↦ elim (Bool-cases (code == 200)) [
      | inl e' ↦ absurd (judged_not_pending code (limited net body) (simp (e, e') at h))
      | inr e' ↦ (let bad : failed ≡ pending = simp (e, e') at h in cc)
    ]
  ]

  again :
      (code : ℕ) (body : Option Bytes)
      → IsRetried (answer code body)
      → (on_answer net d (answer code body)).0 ≡ pending
  again code body (inl h) = cc
  again code body (inr (c, b, same, e)) = let e' = (is_unavailable_iff net c).1 e in ground arith

  pending_answer : (reply : Answer) → ((on_answer net d reply).0 ≡ pending) ↔ IsRetried reply
  pending_answer no_answer = (λ h. inl refl, λ h. refl)
  pending_answer (answer code body) = (waits code body, again code body)

module _ (net : Network) (keys : Table String) (timestamp : Bytes) (d : EventDelivery) where
  -- The request went out: the key is there and the destination is a URL.
  abbrev pub Sent : Answer → Type 0
  Sent reply =
      (key : String) × (get d.signing_key_id keys ≡ some key)
      × (net.valid_url d.endpoint_url ≡ true)
      × (net.post (request_for net key timestamp d) ≡ reply)

  on_sent :
      (P : Status × ℕ × String → Type 0)
      → P (failed, 0, "signing_key_unavailable")
      → P (failed, 0, "invalid_destination")
      → ((reply : Answer) → Sent reply → P (on_answer net d reply))
      → P (send net keys timestamp d)
  unfolding send
  on_sent P no_key bad_url sent = elim (Option-cases (get d.signing_key_id keys)) [
    | inl e ↦ rw (e, send) no_key
    | inr (key, e) ↦ elim (Bool-cases (net.valid_url d.endpoint_url)) [
      | inl e' ↦ rw (e, send, e') (sent _ (key, e, e', refl))
      | inr e' ↦ rw (e, send, e') bad_url
    ]
  ]

  Sent-answer : (reply : Answer) → Sent reply → send net keys timestamp d ≡ on_answer net d reply
  unfolding send
  Sent-answer reply (key, e, e', same) = rw (e, send, e', same)

  -- A delivery counts as delivered exactly when its key is known and its destination is a URL,
  -- the signed request was answered by status 200 with a body of at most 4096 bytes, and that
  -- body is a valid receipt for the message.
  pub send-delivered_iff : ((send net keys timestamp d).0 ≡ delivered) ↔ (
      (body : Bytes) × Sent (answer 200 (some body))
      × (length body ≤ 4096)
      × (receipt_stored net d body ≡ true))
  send-delivered_iff = (
    on_sent
        (λ r.
          r.0 ≡ delivered
          → (body : Bytes) × Sent (answer 200 (some body))
            × (length body ≤ 4096)
            × (receipt_stored net d body ≡ true))
        (λ h. cc) (λ h. cc)
        (λ reply sent h.
          let (body, same, size, stored) = delivered_answer net d reply h in
          (body, rw same at sent, size, stored)),
    λ (body, sent, size, stored).
        rw (Sent-answer (answer 200 (some body)) sent)
          (stored_answer net d (answer 200 (some body)) (body, refl, size, stored)),
  )

  -- A delivery is tried again exactly when its request went out and there was no answer, or the
  -- answer's status was 408, 429 or at least 500.
  pub send-pending_iff :
      ((send net keys timestamp d).0 ≡ pending) ↔ ((reply : Answer) × Sent reply × IsRetried reply)
  send-pending_iff = (
    on_sent (λ r. r.0 ≡ pending → (reply : Answer) × Sent reply × IsRetried reply) (λ h. cc)
        (λ h. cc) (λ reply sent h. (reply, sent, (pending_answer net d reply).0 h)),
    λ (reply, sent, retried). rw (Sent-answer reply sent) ((pending_answer net d reply).1 retried),
  )

-- A tick of the worker over any number of rounds is a sequence of the queue's claims and saved
-- results, so that what holds after any calls of the queue holds after it.
tick-Steps :
    (net : Network) (keys : Table String) (now : ℕ → ℕ) (timestamp : ℕ → Bytes)
    (marshal : EventMessage → Bytes) (rounds i : ℕ) (db : Deliveries)
    → Steps marshal db (tick net keys now timestamp rounds i db)
unfolding tick
tick-Steps net keys now timestamp marshal zero i db = done db
tick-Steps net keys now timestamp marshal (suc rounds) i db =
    let db' = (claim_event_delivery (now i) db).0 in
    elim (Option-cases (claim_event_delivery (now i) db).1) [
      | inl e ↦ rw (e, tick) (step db db' db' (claimed (now i) db) (done db'))
      | inr (d, e) ↦
          let r = send net keys (timestamp i) d in
          let next = now i + retry_delay d.attempts in
          let db'' = (finish_event_delivery (now i) d r.0 r.1 r.2 next db').0 in
          rw (e, tick)
            (step db db' _ (claimed (now i) db) (
              step db' db'' _ (result_saved (now i) d r.0 r.1 r.2 next db')
                (tick-Steps net keys now timestamp marshal rounds (i + 1) db'')))
    ]
