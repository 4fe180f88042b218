-- ===== src/Delivery/Queue/Attachments/Backfill.antt =====
-- `previewAttachments` and `QueueAttachmentBackfill`: attachments for events that were delivered
-- without one.
use face_recognition_proxy.Prelude.{
  ℕ, ◌+◌, Bool, true, not, ◌&&◌, List, [], ◌∷◌, ◌++◌, String, Bytes, ltb, leb, nat_eq, string_eq,
  ◌==◌, if◌then◌else◌, length, map, take, bytes_beq, utf8,
}
use face_recognition_proxy.Prelude.Table.{get}
use face_recognition_proxy.Result.{Result, ok, ◌>>=◌, ◌>>◌, refuse, require}
use face_recognition_proxy.Encoding.Hex
use face_recognition_proxy.Delivery.Queue.{
  any_attachment, new_attachment, seen_terminal, record_activity,
}
use face_recognition_proxy.Delivery.Types.{
  is_delivered, EventDelivery, AttachmentDelivery, Deliveries,
}
use face_recognition_proxy.Store.Tables.{number, text}

pub data BackfillError : Type 0 where
  no_rows route_disabled too_large preview_changed nothing_eligible duplicate_row : BackfillError

pub record AttachmentBackfillPreview : Type 0 where
  pub through_delivery_id : ℕ
  pub eligible : ℕ
  pub token : Bytes
  pub ids : List ℕ

-- `SELECT coalesce(max(id),0)` of a terminal's deliveries.
unfoldable pub last_id : String → List EventDelivery → ℕ
last_id serial [] = 0
last_id serial (d ∷ ds) =
    let rest = last_id serial ds in
    if d.terminal_serial_number == serial && ltb rest d.id then d.id else rest

-- The condition of the SELECT.
abbrev pub is_eligible : String → ℕ → List AttachmentDelivery → EventDelivery → Bool
is_eligible serial through attachments d =
    d.terminal_serial_number == serial
    && leb d.id through
    && is_delivered d.status
    && not (any_attachment (λ status. true) d.id attachments)

unfoldable pub eligible_rows :
    String → ℕ → List AttachmentDelivery → List EventDelivery → List EventDelivery
unfolding any_attachment
eligible_rows serial through attachments [] = []
eligible_rows serial through attachments (d ∷ ds) =
    let rest = eligible_rows serial through attachments ds in
    if is_eligible serial through attachments d then d ∷ rest else rest

-- A bound of 0 stands for the last delivery there is.
abbrev pub until : ℕ → String → List EventDelivery → ℕ
until through serial ds = if through == 0 then last_id serial ds else through

-- LIMIT 5001
unfoldable pub rows_asked : List EventDelivery → List EventDelivery
rows_asked rows = take 5001 rows

-- The loop of enqueueAttachment; an event has one attachment at most.
unfoldable pub enqueue_all : ℕ → List ℕ → Deliveries → Result BackfillError Deliveries
enqueue_all now [] db = ok db
enqueue_all now (id ∷ ids) db = do
  refuse (any_attachment (λ status. true) id db.attachments) duplicate_row
  enqueue_all now ids (record db {
    attachments = db.attachments ++ new_attachment now db.next_attachment_id id ∷ [];
    next_attachment_id = db.next_attachment_id + 1;
  })

-- encoding/json and crypto/sha256 over the terminal, the bound and the rows.
module _ (encode : String → ℕ → List (ℕ × String × String) → Bytes)
    (sha256_sum : Bytes → Bytes) where
  -- From the rows of the SELECT on.
  unfoldable pub preview_of :
      String → ℕ → List EventDelivery → Result BackfillError AttachmentBackfillPreview
  preview_of serial bound rows = do
    refuse (ltb 5000 (length rows)) too_large
    ok (record {
      through_delivery_id = bound;
      eligible = length rows;
      token = Hex.encode (
          sha256_sum
            (encode serial bound (map (λ d. (d.id, d.endpoint_url, d.signing_key_id)) rows)));
      ids = map (λ d. d.id) rows;
    })

  unfoldable pub preview_attachments :
      String → ℕ → Deliveries → Result BackfillError AttachmentBackfillPreview
  unfolding eligible_rows last_id rows_asked preview_of
  preview_attachments serial through db = do
    route ← require (get serial db.routes) no_rows
    refuse (not route.enabled) route_disabled
    let bound = until through serial db.deliveries
    preview_of serial bound (rows_asked (eligible_rows serial bound db.attachments db.deliveries))

  -- The text of a token is ASCII.
  unfoldable pub queue_attachment_backfill :
      ℕ → String → ℕ → String → ℕ → Deliveries → Result BackfillError (Deliveries × ℕ)
  unfolding preview_attachments enqueue_all
  queue_attachment_backfill now serial through token actor db = do
    refuse (not (seen_terminal serial db.terminals)) no_rows
    preview ← preview_attachments serial through db
    refuse (not (bytes_beq preview.token (utf8 token))) preview_changed
    refuse (preview.eligible == 0) nothing_eligible
    db1 ← enqueue_all now preview.ids db
    ok (
      record_activity "admin.attachment_backfill_queued" serial
          "historical attachment receipts queued without attendance replay"
          (("queuedCount", number preview.eligible)
            ∷ ("throughDeliveryId", number through)
            ∷ ("previewToken", text token)
            ∷ ("adminUserId", number actor)
            ∷ [])
          now db1,
      preview.eligible,
    )
