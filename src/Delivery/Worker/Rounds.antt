-- ===== src/Delivery/Worker/Rounds.antt =====
-- What a tick of the loop of internal/delivery/worker.go does to the queue, round by round.
use face_recognition_proxy.Prelude.{
  ℕ, zero, suc, ◌+◌, ◌≡◌, ◌≢◌, refl, sym, ap, ◌∙◌, Option, none, some, List, [], ◌∷◌, ◌++◌, String,
  Bytes, All,
}
use face_recognition_proxy.Prelude.Table.{Table}
use face_recognition_proxy.Delivery.Backoff.{retry_delay}
use face_recognition_proxy.Delivery.Queue.{claim_event_delivery}
use face_recognition_proxy.Delivery.Queue.Candidates.{IsCandidate, sent_again}
use face_recognition_proxy.Delivery.Queue.Saved.{IsSaved}
use face_recognition_proxy.Delivery.Queue.Lease.{
  ClaimOutcome, claim_event_delivery-ClaimOutcome, finish-leased,
}
use face_recognition_proxy.Delivery.Types.{EventDelivery, Deliveries}
use face_recognition_proxy.Delivery.Worker.{Network, send, deliver, tick}

-- The primary key of event_deliveries.
abbrev pub HasDistinctIds : List EventDelivery → Type 0
HasDistinctIds [] = Unit
HasDistinctIds (d ∷ ds) = All (λ row. row.id ≢ d.id) ds × HasDistinctIds ds

module _ (net : Network) (keys : Table String) (now : ℕ → ℕ) (timestamp : ℕ → Bytes) where
  -- One delivery: the first candidate is claimed, its request is sent once, and what came of it
  -- is saved in its row with the delay of its attempts; no other row and no other table changes.
  abbrev pub IsHandled : ℕ → Deliveries → Deliveries → Type 0
  IsHandled i db db' =
      (before : List EventDelivery) × (d : EventDelivery) × (after : List EventDelivery)
      × (row : EventDelivery) × (db.deliveries ≡ before ++ d ∷ after)
      × IsCandidate (now i) db d
      × All (λ other. ¬ IsCandidate (now i) db other) before
      × (db' ≡ record db { deliveries = before ++ row ∷ after })
      × (let claimed = sent_again (now i) d in
          let result = send net keys (timestamp i) claimed in
          IsSaved (now i) result.0 result.1 result.2 (now i + retry_delay claimed.attempts) claimed
            row)

  -- The rounds of a tick; one that finds no candidate is the last.
  pub data Rounds : ℕ → ℕ → Deliveries → Deliveries → Type 0 where
    all_used : (i : ℕ) (db : Deliveries) → Rounds zero i db db
    none_due :
        (rounds i : ℕ) (db : Deliveries)
        → All (λ d. ¬ IsCandidate (now i) db d) db.deliveries
        → Rounds (suc rounds) i db db
    handled :
        (rounds i : ℕ) (db db1 db2 : Deliveries)
        → IsHandled i db db1
        → Rounds rounds (i + 1) db1 db2
        → Rounds (suc rounds) i db db2

-- The others of a row with distinct identifiers, and the row in another state.
at_row :
    (P : EventDelivery → Type 0) (before after : List EventDelivery) (d : EventDelivery)
    → All P (before ++ d ∷ after)
    → P d
at_row P [] after d all = all.0
at_row P (x ∷ before) after d all = at_row P before after d all.1

row_replaced :
    (P : EventDelivery → Type 0) (before after : List EventDelivery) (d row : EventDelivery)
    → P row
    → All P (before ++ d ∷ after)
    → All P (before ++ row ∷ after)
row_replaced P [] after d row new all = (new, all.1)
row_replaced P (x ∷ before) after d row new all =
    (all.0, row_replaced P before after d row new all.1)

others_before :
    (before after : List EventDelivery) (d : EventDelivery)
    → HasDistinctIds (before ++ d ∷ after)
    → All (λ row. row.id ≢ d.id) before
others_before [] after d h = tt
others_before (x ∷ before) after d (new, h) = (
  (λ same. at_row (λ row. row.id ≢ x.id) before after d new (sym same)),
  others_before before after d h,
)

others_after :
    (before after : List EventDelivery) (d : EventDelivery)
    → HasDistinctIds (before ++ d ∷ after)
    → All (λ row. row.id ≢ d.id) after
others_after [] after d h = h.0
others_after (x ∷ before) after d h = others_after before after d h.1

distinct_still :
    (before after : List EventDelivery) (d row : EventDelivery)
    → row.id ≡ d.id
    → HasDistinctIds (before ++ d ∷ after)
    → HasDistinctIds (before ++ row ∷ after)
distinct_still [] after d row same (new, h) = (rw same new, h)
distinct_still (x ∷ before) after d row same (new, h) = (
  row_replaced (λ other. other.id ≢ x.id) before after d row
      (rw same (at_row (λ other. other.id ≢ x.id) before after d new)) new,
  distinct_still before after d row same h,
)

module _ (net : Network) (keys : Table String) (now : ℕ → ℕ) (timestamp : ℕ → Bytes) where
  -- A claim that found one, and the saved result of its request.
  claim-IsHandled :
      (i : ℕ) (db db1 : Deliveries) (claimed : EventDelivery)
      → HasDistinctIds db.deliveries
      → ClaimOutcome (now i) db (db1, some claimed)
      → IsHandled net keys now timestamp i db (deliver net keys now timestamp i claimed db1)
        × HasDistinctIds (deliver net keys now timestamp i claimed db1).deliveries
  claim-IsHandled i db db1 claimed distinct
        (kept, (before, d, after, here, there, it, due, skipped)) =
      let sent = sent_again (now i) d in
      let result = send net keys (timestamp i) sent in
      let apart : HasDistinctIds (before ++ d ∷ after) = rw (sym here) distinct in
      let (row, saved, good) =
        finish-leased (now i) sent before after result.0 result.1 result.2
          (now i + retry_delay sent.attempts) db1 there refl (others_before before after d apart)
          (others_after before after d apart) in
      let db2≡ : deliver net keys now timestamp i claimed db1
          ≡ record db { deliveries = before ++ row ∷ after } =
        rw it (
          ap (λ r. r.0) saved
          ∙ ap (λ (x : Deliveries). record x { deliveries = before ++ row ∷ after }) kept) in
      (
        (before, d, after, row, here, due, skipped, db2≡, good),
        rw db2≡ (distinct_still before after d row (ap (λ r. r.id) good.same_row) apart),
      )

  round-Rounds :
      (rounds i : ℕ) (db : Deliveries) (outcome : Deliveries × Option EventDelivery)
      → claim_event_delivery (now i) db ≡ outcome
      → ClaimOutcome (now i) db outcome
      → HasDistinctIds db.deliveries
      → ((db1 : Deliveries)
          → HasDistinctIds db1.deliveries
          → Rounds net keys now timestamp rounds
              (i + 1)
              db1
              (tick net keys now timestamp rounds (i + 1) db1))
      → Rounds net keys now timestamp
          (suc rounds)
          i
          db
          (tick net keys now timestamp (suc rounds) i db)
  unfolding tick
  round-Rounds rounds i db (db', none) e (same, idle) distinct rest =
      let ended : tick net keys now timestamp (suc rounds) i db ≡ db =
        rw (tick, e) (ap (λ r. r.0) e ∙ same) in
      rw ended (none_due rounds i db idle)
  round-Rounds rounds i db (db1, some claimed) e outcome distinct rest =
      let (done, distinct') = claim-IsHandled i db db1 claimed distinct outcome in
      let db2 = deliver net keys now timestamp i claimed db1 in
      let went : tick net keys now timestamp (suc rounds) i db
          ≡ tick net keys now timestamp rounds (i + 1) db2 =
        rw (tick, e)
          (ap
            (λ r.
              tick net keys now timestamp rounds (i + 1)
                (deliver net keys now timestamp i claimed r.0))
            e) in
      rw went (handled rounds i db db2 _ done (rest db2 distinct'))

  -- Where the deliveries have distinct identifiers, a tick is a sequence of at most so many
  -- rounds, of which one without a candidate is the last. In each other round the first candidate
  -- is leased, its request is made once, and what came of it is saved in its row, the next
  -- attempt being due after the delay of its attempts; no other row and no other table changes.
  pub tick-Rounds :
      (rounds i : ℕ) (db : Deliveries)
      → HasDistinctIds db.deliveries
      → Rounds net keys now timestamp rounds i db (tick net keys now timestamp rounds i db)
  unfolding tick
  tick-Rounds zero i db distinct = all_used i db
  tick-Rounds (suc rounds) i db distinct =
      round-Rounds rounds i db (claim_event_delivery (now i) db) refl
        (claim_event_delivery-ClaimOutcome (now i) db) distinct (tick-Rounds rounds (i + 1))
