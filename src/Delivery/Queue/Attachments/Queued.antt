-- ===== src/Delivery/Queue/Attachments/Queued.antt =====
-- What `QueueAttachmentBackfill` leaves.
use mathlib.Core.List.{append_assoc, append-nil}
use face_recognition_proxy.Prelude.{
  ℕ, suc, ◌≡◌, ◌≤◌, ◌<◌, refl, sym, ap, ◌∙◌, true, false, not, List, [], ◌∷◌, ◌++◌, String, Bytes,
  arith, ltb, nat_eq, string_eq, ◌==◌, length, map, take, bytes_beq, All, Bool-cases, inl, inr,
  utf8, zero,
}
use face_recognition_proxy.Prelude.Table.{get}
use face_recognition_proxy.Result.{Result, ok, refuse, require, >>=-eq-ok}
use face_recognition_proxy.Delivery.Queue.{any_attachment, new_attachment, seen_terminal}
use face_recognition_proxy.Delivery.Types.{EventDelivery, AttachmentDelivery, Deliveries}
use face_recognition_proxy.Store.Tables.{Activity}
use face_recognition_proxy.Delivery.Queue.Attachments.Backfill.{
  BackfillError, preview_changed, nothing_eligible, AttachmentBackfillPreview, is_eligible, until,
  eligible_rows, rows_asked, enqueue_all, preview_of, preview_attachments,
  queue_attachment_backfill,
}
use face_recognition_proxy.Delivery.Queue.Attachments.Eligible.{
  has_row, IsEligible, Selects, eligible_rows-Selects,
}

has_row-append_left :
    (xs ys : List AttachmentDelivery) (id : ℕ) → has_row xs id ≡ true → has_row (xs ++ ys) id ≡ true
unfolding any_attachment
has_row-append_left [] ys id h = absurd (ground arith)
has_row-append_left (x ∷ xs) ys id h = ground (arith, has_row-append_left xs ys id)

has_row-append_right :
    (xs ys : List AttachmentDelivery) (id : ℕ) → has_row ys id ≡ true → has_row (xs ++ ys) id ≡ true
unfolding any_attachment
has_row-append_right [] ys id h = h
has_row-append_right (x ∷ xs) ys id h = ground (arith, has_row-append_right xs ys id h)

-- Every row of a list is found in whatever holds that list.
rows-All :
    (added later : List AttachmentDelivery)
    → ((id : ℕ) → has_row added id ≡ true → has_row later id ≡ true)
    → All (λ id. has_row later id ≡ true) (map (λ a. a.event_delivery_id) added)
unfolding any_attachment
rows-All [] later grows = tt
rows-All (a ∷ added) later grows = (
  grows a.event_delivery_id (ground arith),
  rows-All added later (λ id h. grows id (ground (arith, h))),
)

none_eligible :
    (serial : String) (through : ℕ) (before later : List AttachmentDelivery)
    → ((id : ℕ) → has_row before id ≡ true → has_row later id ≡ true)
    → (ds : List EventDelivery)
    → All (λ id. has_row later id ≡ true) (map (λ d. d.id) (eligible_rows serial through before ds))
    → eligible_rows serial through later ds ≡ []
unfolding eligible_rows
none_eligible serial through before later grows [] all = refl
none_eligible serial through before later grows (d ∷ ds) all =
    elim (Bool-cases (is_eligible serial through before d)) [
      | inl chosen ↦
          let (here, rest) = rw chosen at all in
          let gone : is_eligible serial through later d ≡ false = ground (arith, here) in
          rw gone (none_eligible serial through before later grows ds rest)
      | inr passed ↦
          let rest = rw passed at all in
          let gone : is_eligible serial through later d ≡ false =
            ground (arith, passed, grows d.id) in
          rw gone (none_eligible serial through before later grows ds rest)
    ]

take-short : (n : ℕ) (ds : List EventDelivery) → length (take n ds) < n → take n ds ≡ ds
take-short zero ds short = absurd (omega arith)
take-short (suc n) [] short = refl
take-short (suc n) (d ∷ ds) short = ap (λ rest. d ∷ rest) (take-short n ds (omega arith))

rows_asked-short : (ds : List EventDelivery) → length (rows_asked ds) ≤ 5000 → rows_asked ds ≡ ds
unfolding rows_asked
rows_asked-short ds short = take-short 5001 ds (omega (arith, short))

length-map_ids : (ds : List EventDelivery) → length (map (λ d. d.id) ds) ≡ length ds
length-map_ids [] = refl
length-map_ids (d ∷ ds) = ap suc (length-map_ids ds)

enqueue_all-eq-ok :
    (now : ℕ) (ids : List ℕ) (db db' : Deliveries)
    → enqueue_all now ids db ≡ ok db'
    → (added : List AttachmentDelivery) × (db'.attachments ≡ db.attachments ++ added)
      × (map (λ a. a.event_delivery_id) added ≡ ids)
      × (db'.deliveries ≡ db.deliveries)
unfolding enqueue_all
enqueue_all-eq-ok now [] db db' h =
    let same : db ≡ db' = ground arith in
    (
      [],
      (sym (append-nil db'.attachments) ∙ ap (λ x. x.attachments ++ []) (sym same)),
      refl,
      ap (λ x. x.deliveries) (sym same),
    )
enqueue_all-eq-ok now (id ∷ ids) db db' h =
    let (_, _, h1) = >>=-eq-ok (refuse (has_row db.attachments id) _) _ h in
    let (added, grows, same, kept) = enqueue_all-eq-ok now ids _ db' h1 in
    let row = new_attachment now db.next_attachment_id id in
    (
      row ∷ added,
      grows ∙ append_assoc db.attachments (row ∷ []) added,
      ap (λ xs. id ∷ xs) same,
      kept,
    )

-- What a run of the backfill leaves: a new attachment for each eligible delivery in turn, and no
-- delivery that is eligible still.
pub IsQueued : String → ℕ → Deliveries → Deliveries → ℕ → Type 0
IsQueued serial bound db db' n =
    (added : List AttachmentDelivery) × (db'.attachments ≡ db.attachments ++ added)
    × (map (λ a. a.event_delivery_id) added
        ≡ map (λ d. d.id) (eligible_rows serial bound db.attachments db.deliveries))
    × Selects (IsEligible serial bound db.attachments) db.deliveries
        (eligible_rows serial bound db.attachments db.deliveries)
    × (db'.deliveries ≡ db.deliveries)
    × (n ≡ length (eligible_rows serial bound db.attachments db.deliveries))
    × (0 < n)
    × (n ≤ 5000)
    × (eligible_rows serial bound db'.attachments db'.deliveries ≡ [])

IsQueued-enqueued :
    (now : ℕ) (serial : String) (bound : ℕ) (ids : List ℕ) (db db1 db' : Deliveries) (n : ℕ)
    → enqueue_all now ids db ≡ ok db1
    → ids ≡ map (λ d. d.id) (eligible_rows serial bound db.attachments db.deliveries)
    → n ≡ length (eligible_rows serial bound db.attachments db.deliveries)
    → 0 < n
    → n ≤ 5000
    → db'.attachments ≡ db1.attachments
    → db'.deliveries ≡ db1.deliveries
    → IsQueued serial bound db db' n
unfolding IsQueued
IsQueued-enqueued now serial bound ids db db1 db' n h ids≡ n≡ some_row few rows≡ same =
    let (added, grows, each, kept) = enqueue_all-eq-ok now ids db db1 h in
    let later : db'.attachments ≡ db.attachments ++ added = rows≡ ∙ grows in
    let found =
      rows-All added (db.attachments ++ added) (has_row-append_right db.attachments added) in
    let none_left =
      none_eligible serial bound db.attachments (db.attachments ++ added)
        (has_row-append_left db.attachments added) db.deliveries (rw (sym (each ∙ ids≡)) found) in
    (
      added,
      later,
      each ∙ ids≡,
      eligible_rows-Selects serial bound db.attachments db.deliveries,
      same ∙ kept,
      n≡,
      some_row,
      few,
      rw (later, same ∙ kept) none_left,
    )

some_eligible :
    (k : ℕ) {x : Unit {0}} → refuse {E = BackfillError} (k == 0) nothing_eligible ≡ ok x → 0 < k
some_eligible zero h = absurd (ground arith)
some_eligible (suc k) h = omega arith

-- From the preview that was confirmed on.
IsQueued-confirmed :
    (now : ℕ) (serial : String) (bound : ℕ) (preview : AttachmentBackfillPreview)
    (db db1 db' : Deliveries) (n : ℕ) (log : List Activity)
    → (preview.ids
        ≡ map (λ d. d.id) (rows_asked (eligible_rows serial bound db.attachments db.deliveries)))
      × (preview.eligible
          ≡ length (rows_asked (eligible_rows serial bound db.attachments db.deliveries)))
      × (length (rows_asked (eligible_rows serial bound db.attachments db.deliveries)) ≤ 5000)
    → 0 < preview.eligible
    → enqueue_all now preview.ids db ≡ ok db1
    → ◌≡◌ {A = Result BackfillError (Deliveries × ℕ)}
        (ok (record db1 { activities = log }, preview.eligible))
        (ok (db', n))
    → IsQueued serial bound db db' n
IsQueued-confirmed now serial bound preview db db1 db' n log (ids≡, n≡, few) present queued h =
    let all = eligible_rows serial bound db.attachments db.deliveries in
    let whole : rows_asked all ≡ all = rows_asked-short all few in
    let last : record db1 { activities = log } ≡ db' = cc in
    let counted : preview.eligible ≡ n = cc in
    let ids≡' : preview.ids ≡ map (λ d. d.id) all = ids≡ ∙ ap (λ ds. map (λ d. d.id) ds) whole in
    let n≡' : n ≡ length all = sym counted ∙ n≡ ∙ ap length whole in
    IsQueued-enqueued now serial bound preview.ids db db1 db' n queued ids≡' n≡'
      (rw (sym counted) present) (omega (arith, counted, n≡, few))
      (ap (λ x. x.attachments) (sym last)) (ap (λ x. x.deliveries) (sym last))

module _ (encode : String → ℕ → List (ℕ × String × String) → Bytes)
    (sha256_sum : Bytes → Bytes) where
  preview_of-eq-ok :
      (serial : String) (bound : ℕ) (rows : List EventDelivery)
      (preview : AttachmentBackfillPreview)
      → preview_of encode sha256_sum serial bound rows ≡ ok preview
      → (preview.ids ≡ map (λ d. d.id) rows)
        × (preview.eligible ≡ length rows)
        × (length rows ≤ 5000)
  unfolding preview_of
  preview_of-eq-ok serial bound rows preview h = elim (Bool-cases (ltb 5000 (length rows))) [
    | inl many ↦ absurd (ground (arith, many))
    | inr few ↦ let shown = rw few at h in (cc, cc, ground (arith, few))
  ]

  -- If a backfill of a terminal's attachments goes through, its eligible deliveries up to the
  -- bound were 1 to 5,000 - those delivered that have no attachment -, it makes exactly one new
  -- attachment for each of them, in their order, and answers their number; it changes no
  -- delivery, and none up to the bound is eligible any more.
  pub queue_attachment_backfill-IsQueued :
      (now : ℕ) (serial : String) (through : ℕ) (token : String) (actor : ℕ) (db db' : Deliveries)
      (n : ℕ)
      → queue_attachment_backfill encode sha256_sum now serial through token actor db ≡ ok (db', n)
      → IsQueued serial (until through serial db.deliveries) db db' n
  unfolding queue_attachment_backfill preview_attachments
  queue_attachment_backfill-IsQueued now serial through token actor db db' n h =
      let (_, _, h1) = >>=-eq-ok (refuse (not (seen_terminal serial db.terminals)) _) _ h in
      let (preview, shown, h2) =
        >>=-eq-ok (preview_attachments encode sha256_sum serial through db) _ h1 in
      let (_, _, h3) =
        >>=-eq-ok (refuse (not (bytes_beq preview.token (utf8 token))) preview_changed) _ h2 in
      let (_, present, h4) = >>=-eq-ok (refuse (preview.eligible == 0) nothing_eligible) _ h3 in
      let (db1, queued, h5) = >>=-eq-ok (enqueue_all now preview.ids db) _ h4 in
      let bound = until through serial db.deliveries in
      let all = eligible_rows serial bound db.attachments db.deliveries in
      let (route, _, k1) = >>=-eq-ok (require (get serial db.routes) _) _ shown in
      let (_, _, k2) = >>=-eq-ok (refuse (not route.enabled) _) _ k1 in
      IsQueued-confirmed now serial bound preview db db1 db' n _
        (preview_of-eq-ok serial bound (rows_asked all) preview k2)
        (some_eligible preview.eligible present) queued h5
