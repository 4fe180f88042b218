-- ===== src/Delivery/Queue/Candidates.antt =====
-- What `ClaimEventDelivery` of internal/store/event_deliveries.go asks of a row, and its lease.
use face_recognition_proxy.Prelude.{
  ℕ, ◌≡◌, refl, true, Option, none, some, String, arith, nat_eq, ◌+◌, ◌≤◌, ◌⊎◌, ◌↔◌, suc, string_eq,
  Option-cases, inl, inr,
}
use face_recognition_proxy.Prelude.Table.{get}
use face_recognition_proxy.Delivery.Types.{
  Status, pending, sending, failed, delivered, DeliveryRoute, EventDelivery, Deliveries,
}
use face_recognition_proxy.Delivery.Queue.{is_enabled, is_due, is_candidate}

-- `JOIN event_delivery_routes r ... WHERE r.enabled`
abbrev pub IsEnabled : Deliveries → String → Type 0
IsEnabled db serial =
    (route : DeliveryRoute) × (get serial db.routes ≡ some route) × (route.enabled ≡ true)

-- Its next attempt has come, or its lease is over.
abbrev pub IsDue : ℕ → EventDelivery → Type 0
IsDue now d =
    ((d.status ≡ pending) × (d.next_attempt_at ≤ now))
    ⊎ ((d.status ≡ sending) × ((at : ℕ) × (d.lease_until ≡ some at) × (at ≤ now)))

abbrev pub IsCandidate : ℕ → Deliveries → EventDelivery → Type 0
IsCandidate now db d = IsEnabled db d.terminal_serial_number × IsDue now d

-- The row as its claim leaves it: sent once more, and leased for sixty seconds.
abbrev pub sent_again : ℕ → EventDelivery → EventDelivery
sent_again now d = record d {
  status = sending;
  attempts = suc d.attempts;
  lease_until = some (now + 60_000_000_000);
}

is_enabled_iff :
    (db : Deliveries) (serial : String)
    → (is_enabled (get serial db.routes) ≡ true) ↔ IsEnabled db serial
is_enabled_iff db serial = elim (Option-cases (get serial db.routes)) [
  | inl e ↦ (λ h. absurd (ground arith), λ (route, found, h). absurd (ground arith))
  | inr (route, e) ↦ (λ h. (route, e, ground arith), λ (r, found, h). ground arith)
]

is_due_in :
    (now : ℕ) (d : EventDelivery) (status : Status) (lease : Option ℕ)
    → d.status ≡ status
    → d.lease_until ≡ lease
    → (is_due now d ≡ true) ↔ IsDue now d
unfolding is_due
is_due_in now d pending lease e e' = (λ h. inl (e, ground arith), λ h. ground arith)
is_due_in now d sending none e e' = (λ h. absurd (ground arith), λ h. absurd (ground arith))
is_due_in now d sending (some at) e e' = (λ h. inr (e, (at, e', ground arith)), λ h. ground arith)
is_due_in now d failed lease e e' = (λ h. absurd (ground arith), λ h. absurd (ground arith))
is_due_in now d delivered lease e e' = (λ h. absurd (ground arith), λ h. absurd (ground arith))

pub is_candidate_iff :
    (now : ℕ) (db : Deliveries) (d : EventDelivery)
    → (is_candidate now db d ≡ true) ↔ IsCandidate now db d
unfolding is_candidate
is_candidate_iff now db d =
    let enabled = is_enabled_iff db d.terminal_serial_number in
    let due = is_due_in now d d.status d.lease_until refl refl in
    (
      λ h. (enabled.0 (ground (arith, h)), due.0 (ground (arith, h))),
      λ (e, e'). rw (enabled.1 e, due.1 e') refl,
    )
