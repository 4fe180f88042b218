-- ===== src/Delivery/Queue/Attachments/Eligible.antt =====
-- Which deliveries the SELECT of `previewAttachments` takes.
use face_recognition_proxy.Prelude.{
  ℕ, ◌≡◌, ◌≤◌, ◌↔◌, ◌≢◌, eq_iff, refl, Bool, true, false, List, [], ◌∷◌, String, arith, nat_eq,
  string_eq, All, Bool-cases, inl, inr,
}
use face_recognition_proxy.Delivery.Queue.{any_attachment}
use face_recognition_proxy.Delivery.Types.{
  Status, pending, sending, failed, delivered, is_delivered, EventDelivery, AttachmentDelivery,
}
use face_recognition_proxy.Delivery.Queue.Attachments.Backfill.{is_eligible, eligible_rows}

abbrev pub has_row : List AttachmentDelivery → ℕ → Bool
has_row attachments id = any_attachment (λ status. true) id attachments

-- The delivered deliveries of a terminal, up to a bound, that have no attachment.
abbrev pub IsEligible : String → ℕ → List AttachmentDelivery → EventDelivery → Type 0
IsEligible serial through attachments d =
    (d.terminal_serial_number ≡ serial)
    × (d.id ≤ through)
    × (d.status ≡ delivered)
    × All (λ a. a.event_delivery_id ≢ d.id) attachments

-- Those of a list that have a property, in their order.
pub data Selects (P : EventDelivery → Type 0)
    : List EventDelivery → List EventDelivery → Type 0 where
  at_end : Selects P [] []
  chosen :
      (d : EventDelivery) (ds rows : List EventDelivery)
      → P d
      → Selects P ds rows
      → Selects P (d ∷ ds) (d ∷ rows)
  passed :
      (d : EventDelivery) (ds rows : List EventDelivery)
      → ¬ P d
      → Selects P ds rows
      → Selects P (d ∷ ds) rows

no_row_iff :
    (attachments : List AttachmentDelivery) (id : ℕ)
    → (has_row attachments id ≡ false) ↔ All (λ a. a.event_delivery_id ≢ id) attachments
unfolding any_attachment
no_row_iff [] id = (λ h. tt, λ h. refl)
no_row_iff (a ∷ attachments) id =
    let (there, back) = no_row_iff attachments id in
    (
      λ h. ((λ same. absurd (ground arith)), there (ground arith)),
      λ (new, rest). ground (arith, new, back rest),
    )

is_delivered_iff : (status : Status) → (is_delivered status ≡ true) ↔ (status ≡ delivered)
is_delivered_iff pending = (λ h. cc, λ h. cc)
is_delivered_iff sending = (λ h. cc, λ h. cc)
is_delivered_iff failed = (λ h. cc, λ h. cc)
is_delivered_iff delivered = (λ h. refl, λ h. refl)

is_eligible_iff :
    (serial : String) (through : ℕ) (attachments : List AttachmentDelivery) (d : EventDelivery)
    → (is_eligible serial through attachments d ≡ true) ↔ IsEligible serial through attachments d
is_eligible_iff serial through attachments d =
    let owned = eq_iff d.terminal_serial_number serial in
    let sent = is_delivered_iff d.status in
    let free = no_row_iff attachments d.id in
    (
      λ h. (owned.0 (ground arith), ground arith, sent.0 (ground arith), free.0 (ground arith)),
      λ (e, low, e', new). rw (owned.1 e, sent.1 e', free.1 new) (ground arith),
    )

pub eligible_rows-Selects :
    (serial : String) (through : ℕ) (attachments : List AttachmentDelivery)
    (ds : List EventDelivery)
    → Selects
        (IsEligible serial through attachments)
        ds
        (eligible_rows serial through attachments ds)
unfolding eligible_rows
eligible_rows-Selects serial through attachments [] = at_end
eligible_rows-Selects serial through attachments (d ∷ ds) =
    let rest = eligible_rows-Selects serial through attachments ds in
    let iff = is_eligible_iff serial through attachments d in
    elim (Bool-cases (is_eligible serial through attachments d)) [
      | inl e ↦ rw e (chosen d ds _ (iff.0 e) rest)
      | inr e ↦ rw e (passed d ds _ (λ it. (let e' = iff.1 it in absurd (ground arith))) rest)
    ]
