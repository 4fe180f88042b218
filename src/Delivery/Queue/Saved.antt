-- ===== src/Delivery/Queue/Saved.antt =====
-- What `FinishEventDelivery` of internal/store/event_deliveries.go saves of a result.
use face_recognition_proxy.Prelude.{
  ℕ, ◌≡◌, ◌≢◌, refl, none, some, String, arith, nat_eq, ◌⊎◌, suc, zero, eq_iff, string_eq, ◌==◌,
  if◌then◌else◌, Bool-cases, inl, inr,
}
use face_recognition_proxy.Delivery.Types.{
  Status, pending, sending, failed, delivered, is_delivered, EventDelivery,
}
use face_recognition_proxy.Delivery.Queue.{null_if_zero, null_if_empty, finished}

-- What is saved of a result: its status, the HTTP status unless it is 0, the failure unless it is
-- empty, the next attempt, and the time of the delivery if it is one; the lease is over, and
-- everything else of the row stays.
pub record IsSaved (now : ℕ) (status : Status) (code : ℕ) (failure : String) (next : ℕ)
    (d row : EventDelivery) : Type 0 where
  pub its_status : row.status ≡ status
  pub its_http_status :
      ((code ≡ 0) × (row.last_http_status ≡ none))
      ⊎ ((code ≢ 0) × (row.last_http_status ≡ some code))
  pub its_error :
      ((failure ≡ "") × (row.last_error ≡ none))
      ⊎ ((failure ≢ "") × (row.last_error ≡ some failure))
  pub next_attempt : row.next_attempt_at ≡ next
  pub no_lease : row.lease_until ≡ none
  pub its_delivery :
      ((status ≡ delivered) × (row.delivered_at ≡ some now))
      ⊎ ((status ≢ delivered) × (row.delivered_at ≡ none))
  pub same_row : row ≡ record d {
    status = row.status;
    last_http_status = row.last_http_status;
    last_error = row.last_error;
    next_attempt_at = row.next_attempt_at;
    lease_until = row.lease_until;
    delivered_at = row.delivered_at;
  }

http_status_saved :
    (code : ℕ)
    → ((code ≡ 0) × (null_if_zero code ≡ none)) ⊎ ((code ≢ 0) × (null_if_zero code ≡ some code))
http_status_saved zero = inl (refl, refl)
http_status_saved (suc code) = inr (omega arith, ground arith)

failure_saved :
    (failure : String)
    → ((failure ≡ "") × (null_if_empty failure ≡ none))
      ⊎ ((failure ≢ "") × (null_if_empty failure ≡ some failure))
failure_saved failure = elim (Bool-cases (failure == "")) [
  | inl e ↦ inl ((eq_iff failure "").0 e, rw e refl)
  | inr e ↦ inr ((λ same. (let e' = (eq_iff failure "").1 same in cc)), rw e refl)
]

delivery_saved :
    (now : ℕ) (status : Status)
    → ((status ≡ delivered) × ((if is_delivered status then some now else none) ≡ some now))
      ⊎ ((status ≢ delivered) × ((if is_delivered status then some now else none) ≡ none))
delivery_saved now pending = inr ((λ h. cc), refl)
delivery_saved now sending = inr ((λ h. cc), refl)
delivery_saved now failed = inr ((λ h. cc), refl)
delivery_saved now delivered = inl (refl, refl)

pub finished-IsSaved :
    (now : ℕ) (status : Status) (code : ℕ) (failure : String) (next : ℕ) (d : EventDelivery)
    → IsSaved now status code failure next d (finished now status code failure next d)
finished-IsSaved now status code failure next d = record {
  its_status = refl;
  its_http_status = http_status_saved code;
  its_error = failure_saved failure;
  next_attempt = refl;
  no_lease = refl;
  its_delivery = delivery_saved now status;
  same_row = refl;
}
