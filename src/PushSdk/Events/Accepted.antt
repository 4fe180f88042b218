-- ===== src/PushSdk/Events/Accepted.antt =====
-- Which event batches the parser accepts, and what it makes of them.
use face_recognition_proxy.Prelude.{
  ◌≤◌, ◌≡◌, ◌≢◌, ◌↔◌, refl, true, false, some, none, List, [], ◌∷◌, map, String, Bytes, eq_iff,
  codes, arith, nat_eq, string_eq, length, All,
}
use face_recognition_proxy.Result.{ok, >>=-eq-ok}
use face_recognition_proxy.Config.{seen}
use face_recognition_proxy.PushSdk.Wire.{pos, value, EventItem, EventEnvelope, Platform}
use face_recognition_proxy.PushSdk.Events.{
  ParsedEvent, is_vendor_event_id, supported_data_format, is_base64, parsed_event, parse_item,
  parse_items, parse_event_batch,
}

abbrev pub payload_of : EventItem → String
payload_of item = elim item.payload [ none ↦ "" | some payload ↦ payload ]

-- One documented item.
pub record IsDocumented (item : EventItem) : Type 0 where
  pub identified : is_vendor_event_id (codes item.uuid) ≡ true
  pub format : supported_data_format item.data_format ≡ true
  pub present : item.payload ≢ none
  pub encoded : is_base64 (payload_of item) ≡ true
  pub empty : item.data_format ≡ "noData" → payload_of item ≡ ""

-- The items with their own identifiers, and every value as it came.
abbrev verbatim_item : String → EventItem → ParsedEvent
verbatim_item serial item = record {
  uuid = item.uuid;
  format = item.data_format;
  event = record {
    terminal_serial_number = serial;
    vendor_event_id = item.uuid;
    data_format = item.data_format;
    payload_base64 = payload_of item;
  };
}

abbrev pub verbatim : String → List EventItem → List ParsedEvent
verbatim serial = map (verbatim_item serial)

-- No two items share an identifier.
abbrev pub Distinct : List EventItem → Type 0
Distinct [] = Unit {0}
Distinct (item ∷ items) = All (λ other. item.uuid ≢ other.uuid) items × Distinct items

module _ (p : Platform) (serial : String) where
  item-IsDocumented :
      (uuids : List String) (item : EventItem) (event : ParsedEvent)
      → parse_item p serial uuids item ≡ ok event
      → IsDocumented item
        × (seen item.uuid uuids ≡ false)
        × (event ≡ parsed_event serial item (payload_of item))
  unfolding parse_item
  item-IsDocumented uuids item event h =
      ground (arith, eq_iff item.data_format "noData", eq_iff (payload_of item) "")

  item_accepted :
      (uuids : List String) (item : EventItem)
      → IsDocumented item
      → seen item.uuid uuids ≡ false
      → parse_item p serial uuids item ≡ ok (parsed_event serial item (payload_of item))
  unfolding parse_item
  item_accepted uuids item d new =
      ground (arith, eq_iff item.data_format "noData", eq_iff (payload_of item) "")

  items_split :
      (uuids : List String) (item : EventItem) (items : List EventItem) (events : List ParsedEvent)
      → parse_items p serial uuids (item ∷ items) ≡ ok events
      → (event : ParsedEvent) × (rest : List ParsedEvent) × (parse_item p serial uuids item
          ≡ ok event)
        × (parse_items p serial (item.uuid ∷ uuids) items ≡ ok rest)
        × (events ≡ event ∷ rest)
  unfolding parse_items
  items_split uuids item items events h =
      let (event, one, more) = >>=-eq-ok (parse_item p serial uuids item) _ h in
      let (rest, others, joined) =
        >>=-eq-ok (parse_items p serial (item.uuid ∷ uuids) items) _ more in
      (event, rest, one, others, cc)

abbrev IsNew : List String → EventItem → Type 0
IsNew uuids item = seen item.uuid uuids ≡ false

split-IsNew :
    (uuid : String) (uuids : List String) (items : List EventItem)
    → All (IsNew (uuid ∷ uuids)) items
    → All (λ other. uuid ≢ other.uuid) items × All (IsNew uuids) items
unfolding seen
split-IsNew uuid uuids [] new = (tt, tt)
split-IsNew uuid uuids (item ∷ items) new =
    ground (arith, eq_iff uuid item.uuid, split-IsNew uuid uuids items new.1)

join-IsNew :
    (uuid : String) (uuids : List String) (items : List EventItem)
    → All (λ other. uuid ≢ other.uuid) items
    → All (IsNew uuids) items
    → All (IsNew (uuid ∷ uuids)) items
unfolding seen
join-IsNew uuid uuids [] other new = tt
join-IsNew uuid uuids (item ∷ items) other new =
    ground (arith, eq_iff uuid item.uuid, join-IsNew uuid uuids items other.1 new.1)

module _ (p : Platform) (serial : String) where
  items-IsDocumented :
      (uuids : List String) (items : List EventItem) (events : List ParsedEvent)
      → parse_items p serial uuids items ≡ ok events
      → All IsDocumented items
        × Distinct items
        × All (IsNew uuids) items
        × (events ≡ verbatim serial items)
  unfolding parse_items
  items-IsDocumented uuids [] events h = (tt, tt, tt, ground arith)
  items-IsDocumented uuids (item ∷ items) events h =
      let (event, rest, one, others, joined) = items_split p serial uuids item items events h in
      let (documented, new, made) = item-IsDocumented p serial uuids item event one in
      let (all_documented, distinct, All-IsNew, all_made) =
        items-IsDocumented (item.uuid ∷ uuids) items rest others in
      let (apart, still_new) = split-IsNew item.uuid uuids items All-IsNew in
      ((documented, all_documented), (apart, distinct), (new, still_new), cc)

  items_accepted :
      (uuids : List String) (items : List EventItem)
      → All IsDocumented items
      → Distinct items
      → All (IsNew uuids) items
      → parse_items p serial uuids items ≡ ok (verbatim serial items)
  unfolding parse_items
  items_accepted uuids [] documented distinct new = refl
  items_accepted uuids (item ∷ items) documented distinct new = rw (
    item_accepted p serial uuids item documented.0 new.0,
    items_accepted (item.uuid ∷ uuids) items documented.1 distinct.1
        (join-IsNew item.uuid uuids items distinct.0 new.1),
  )

-- The documented envelope: both fields, 0 to 20 items, as many as announced.
abbrev pub IsDocumentedBatch : EventEnvelope → List EventItem → Type 0
IsDocumentedBatch envelope items =
    (envelope.event_list ≡ some items)
    × (envelope.event_num ≡ some (pos (length items)))
    × (length items ≤ 20)
    × All IsDocumented items
    × Distinct items

All-IsNew : (items : List EventItem) → All (IsNew []) items
unfolding seen
All-IsNew [] = tt
All-IsNew (item ∷ items) = (refl, All-IsNew items)

module _ (p : Platform) (serial : String) (body : Bytes) (events : List ParsedEvent) where
  batch_cases :
      parse_event_batch p serial body ≡ ok events
      → (envelope : EventEnvelope) × (items : List EventItem) × (p.decode_events body
          ≡ value envelope)
        × (envelope.event_list ≡ some items)
        × (envelope.event_num ≡ some (pos (length items)))
        × (length items ≤ 20)
        × (parse_items p serial [] items ≡ ok events)
  unfolding parse_event_batch
  batch_cases h = ground arith

  batch-IsDocumentedBatch :
      parse_event_batch p serial body ≡ ok events
      → (envelope : EventEnvelope) × (items : List EventItem) × (p.decode_events body
          ≡ value envelope)
        × IsDocumentedBatch envelope items
        × (events ≡ verbatim serial items)
  batch-IsDocumentedBatch h =
      let (envelope, items, decoded, list, num, few, parsed) = batch_cases h in
      let (documented, distinct, _, made) = items-IsDocumented p serial [] items events parsed in
      (envelope, items, decoded, (list, num, few, documented, distinct), made)

  documented_accepted :
      (envelope : EventEnvelope) (items : List EventItem)
      → p.decode_events body ≡ value envelope
      → IsDocumentedBatch envelope items
      → parse_event_batch p serial body ≡ ok (verbatim serial items)
  unfolding parse_event_batch
  documented_accepted envelope items decoded (list, num, few, documented, distinct) =
      ground (arith, items_accepted p serial [] items documented distinct (All-IsNew items))

  -- The parser accepts exactly the envelopes with both fields, at most 20 items and as many as
  -- announced, whose items are documented and have distinct identifiers; it then returns every
  -- item in order with its own identifier, format and payload text unchanged.
  pub parse_event_batch-eq-ok_iff : (parse_event_batch p serial body ≡ ok events) ↔ (
      (envelope : EventEnvelope) × (items : List EventItem) × (p.decode_events body
        ≡ value envelope)
      × IsDocumentedBatch envelope items
      × (events ≡ verbatim serial items))
  parse_event_batch-eq-ok_iff =
      (batch-IsDocumentedBatch, λ d. rw d.4 (documented_accepted d.0 d.1 d.2 d.3))
