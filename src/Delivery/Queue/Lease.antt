-- ===== src/Delivery/Queue/Lease.antt =====
-- Who owns a delivery, and whose result counts.
use face_recognition_proxy.Prelude.{
  ℕ, ◌≡◌, ◌≢◌, refl, Bool, true, false, Option, none, some, List, [], ◌∷◌, ◌++◌, ap, String, arith,
  nat_eq, ◌↔◌, string_eq, Option-cases, Bool-cases, inl, inr, All,
}
use face_recognition_proxy.Result.{ok, err}
use face_recognition_proxy.Delivery.Types.{Status, sending, EventDelivery, Deliveries}
use face_recognition_proxy.Delivery.Queue.{
  is_candidate, claim_first, claim_event_delivery, owns, finished, update_where,
  finish_event_delivery, lease_lost,
}
use face_recognition_proxy.Delivery.Queue.Candidates.{IsCandidate, sent_again, is_candidate_iff}
use face_recognition_proxy.Delivery.Queue.Saved.{IsSaved, finished-IsSaved}

-- The claimed row is the first that may be; it is leased and nothing else changes.
abbrev pub ClaimsFirst :
    ℕ → (EventDelivery → Type 0) → List EventDelivery → EventDelivery × List EventDelivery → Type 0
ClaimsFirst now P ds (claimed, ds') =
    (before : List EventDelivery) × (d : EventDelivery) × (after : List EventDelivery) × (ds
      ≡ before ++ d ∷ after)
    × (ds' ≡ before ++ sent_again now d ∷ after)
    × (claimed ≡ sent_again now d)
    × P d
    × All (λ row. ¬ P row) before

module _ (now : ℕ) (candidate : EventDelivery → Bool) (P : EventDelivery → Type 0)
    (candidate_iff : (d : EventDelivery) → (candidate d ≡ true) ↔ P d) where
  not_candidate : (d : EventDelivery) → candidate d ≡ false → ¬ P d
  not_candidate d e h = let e' = (candidate_iff d).1 h in absurd (ground arith)

  claim_first-none :
      (ds : List EventDelivery) → claim_first now candidate ds ≡ none → All (λ d. ¬ P d) ds
  unfolding claim_first
  claim_first-none [] h = tt
  claim_first-none (d ∷ ds) h = (not_candidate d (ground arith), claim_first-none ds (ground arith))

  claim_first-some :
      (ds : List EventDelivery) (claim : EventDelivery × List EventDelivery)
      → claim_first now candidate ds ≡ some claim
      → ClaimsFirst now P ds claim
  unfolding claim_first
  claim_first-some [] claim h = cc
  claim_first-some (d ∷ ds) (claimed, ds') h = elim (Bool-cases (candidate d)) [
    | inl e ↦ ([], d, ds, refl, ground arith, ground arith, (candidate_iff d).0 e, tt)
    | inr e ↦ elim (Option-cases (claim_first now candidate ds)) [
      | inl gone ↦ ground arith
      | inr ((c, rest), found) ↦
          let (before, x, after, same, leased_there, is_it, due, skipped) =
            claim_first-some ds (c, rest) found in
          (
            d ∷ before,
            x,
            after,
            ap (λ l. d ∷ l) same,
            ground arith,
            ground arith,
            due,
            (not_candidate d e, skipped),
          )
    ]
  ]

-- A claim takes the first delivery that is due and whose route is enabled, or finds none.
abbrev pub ClaimOutcome : ℕ → Deliveries → Deliveries × Option EventDelivery → Type 0
ClaimOutcome now db (db', none) = (db' ≡ db) × All (λ row. ¬ IsCandidate now db row) db.deliveries
ClaimOutcome now db (db', some claimed) =
    (db' ≡ record db { deliveries = db'.deliveries })
    × ClaimsFirst now (IsCandidate now db) db.deliveries (claimed, db'.deliveries)

-- A claim that finds a delivery takes the first whose terminal has an enabled route and that is
-- pending with its next attempt come, or being sent with its lease over; that row is then being
-- sent, with one attempt more and a lease of sixty seconds, it is the delivery handed out, and
-- nothing else changes. A claim that finds none leaves the tables as they are, and no delivery is
-- such a candidate.
pub claim_event_delivery-ClaimOutcome :
    (now : ℕ) (db : Deliveries) → ClaimOutcome now db (claim_event_delivery now db)
unfolding claim_event_delivery
claim_event_delivery-ClaimOutcome now db =
    let iff = is_candidate_iff now db in
    elim (Option-cases (claim_first now (is_candidate now db) db.deliveries)) [
      | inl e ↦
          rw (e, claim_event_delivery)
            (
              refl,
              claim_first-none now (is_candidate now db) (IsCandidate now db) iff db.deliveries e,
            )
      | inr (claim, e) ↦
          rw (e, claim_event_delivery)
            (
              refl,
              claim_first-some now (is_candidate now db) (IsCandidate now db) iff db.deliveries
                  claim e,
            )
    ]

-- A row is not the owner's if its attempts have moved on, and an update leaves it.
disowned :
    (now : ℕ) (d : EventDelivery) (f : EventDelivery → EventDelivery) (ds : List EventDelivery)
    → All (λ row. row.id ≡ d.id → row.attempts ≢ d.attempts) ds
    → update_where now (owns now d) f ds ≡ (0, ds)
unfolding update_where
disowned now d f [] h = refl
disowned now d f (row ∷ ds) h = ground (arith, disowned now d f ds h.1, h.0)

-- If the attempts of every row with the delivery's identifier have moved on, the result of the
-- earlier attempt is refused as a lost lease and changes nothing.
pub finish-lease_lost :
    (now : ℕ) (d : EventDelivery) (status : Status) (code : ℕ) (failure : String) (next : ℕ)
    (db : Deliveries)
    → All (λ row. row.id ≡ d.id → row.attempts ≢ d.attempts) db.deliveries
    → finish_event_delivery now d status code failure next db ≡ (db, err lease_lost)
unfolding finish_event_delivery
finish-lease_lost now d status code failure next db moved =
    rw (disowned now d (finished now status code failure next) db.deliveries moved)

other_rows :
    (now : ℕ) (d : EventDelivery) (f : EventDelivery → EventDelivery) (ds : List EventDelivery)
    → All (λ row. row.id ≢ d.id) ds
    → update_where now (owns now d) f ds ≡ (0, ds)
unfolding update_where
other_rows now d f [] h = refl
other_rows now d f (row ∷ ds) h = ground (arith, other_rows now d f ds h.1, h.0)

owned_row :
    (now : ℕ) (d : EventDelivery) (f : EventDelivery → EventDelivery)
    (before after : List EventDelivery)
    → d.status ≡ sending
    → All (λ row. row.id ≢ d.id) before
    → All (λ row. row.id ≢ d.id) after
    → update_where now (owns now d) f (before ++ d ∷ after) ≡ (1, before ++ f d ∷ after)
unfolding update_where
owned_row now d f [] after live others others' = ground (arith, other_rows now d f after others')
owned_row now d f (row ∷ before) after live others others' =
    ground (arith, owned_row now d f before after live others.1 others', others.0)

-- If a delivery that is being sent stands in the table and no other row has its identifier, the
-- call succeeds and changes that row alone: the row gets the status, the HTTP status unless it is
-- 0, the failure unless it is empty, the next attempt and, if it is delivered, the time of the
-- delivery; its lease is over and the rest of it stays.
pub finish-leased :
    (now : ℕ) (d : EventDelivery) (before after : List EventDelivery) (status : Status) (code : ℕ)
    (failure : String) (next : ℕ) (db : Deliveries)
    → db.deliveries ≡ before ++ d ∷ after
    → d.status ≡ sending
    → All (λ row. row.id ≢ d.id) before
    → All (λ row. row.id ≢ d.id) after
    → (row : EventDelivery) × (finish_event_delivery now d status code failure next db
        ≡ (record db { deliveries = before ++ row ∷ after }, ok tt))
      × IsSaved now status code failure next d row
unfolding finish_event_delivery
finish-leased now d before after status code failure next db here live others others' = (
  finished now status code failure next d,
  rw (
    here,
    owned_row now d (finished now status code failure next) before after live others others',
  ),
  finished-IsSaved now status code failure next d,
)
