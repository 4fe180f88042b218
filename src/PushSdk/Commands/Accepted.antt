-- ===== src/PushSdk/Commands/Accepted.antt =====
-- Which command result batches the parser accepts, and what it makes of them.
use face_recognition_proxy.Prelude.{
  ◌≤◌, ◌≡◌, ◌≢◌, ◌↔◌, refl, true, false, some, none, List, [], ◌∷◌, map, String, Bytes, Option,
  eq_iff, codes, arith, nat_eq, string_eq, length, All,
}
use face_recognition_proxy.Result.{ok, >>=-eq-ok}
use face_recognition_proxy.Config.{seen}
use face_recognition_proxy.PushSdk.Events.{supported_data_format, is_base64}
use face_recognition_proxy.PushSdk.Wire.{
  pos, value, RawFormat, null, not_text, text, CommandResultItem, CommandResultEnvelope, Platform,
}
use face_recognition_proxy.PushSdk.Commands.{
  IsapiCommandResult, is_command_uuid, result_format, parse_result, parse_results,
  parse_command_result_batch,
}

abbrev pub payload_of : CommandResultItem → String
payload_of item = elim item.payload [ none ↦ "" | some payload ↦ payload ]

abbrev pub format_of : Option RawFormat → Option String
format_of (some (text format)) = some format
format_of _ = none

-- An absent format, or a supported text that is "noData" exactly when the payload is empty.
abbrev pub IsDocumentedFormat : Option RawFormat → String → Type 0
IsDocumentedFormat none payload = Unit {0}
IsDocumentedFormat (some null) payload = ⊥
IsDocumentedFormat (some not_text) payload = ⊥
IsDocumentedFormat (some (text format)) payload =
    (supported_data_format format ≡ true) × ((format ≡ "noData") ↔ (payload ≡ ""))

pub record IsDocumented (item : CommandResultItem) : Type 0 where
  pub identified : is_command_uuid (codes item.uuid) ≡ true
  pub present : item.payload ≢ none
  pub encoded : is_base64 (payload_of item) ≡ true
  pub format : IsDocumentedFormat item.data_format (payload_of item)

abbrev pub verbatim_item : CommandResultItem → IsapiCommandResult
verbatim_item item = record {
  uuid = item.uuid;
  data_format = format_of item.data_format;
  data_base64 = payload_of item;
}

-- No two items share an identifier.
abbrev pub Distinct : List CommandResultItem → Type 0
Distinct [] = Unit {0}
Distinct (item ∷ items) = All (λ other. item.uuid ≢ other.uuid) items × Distinct items

module _ (p : Platform) where
  format-IsDocumentedFormat :
      (uuid : String) (declared : Option RawFormat) (payload : String) (format : Option String)
      → result_format p uuid declared payload ≡ ok format
      → IsDocumentedFormat declared payload × (format ≡ format_of declared)
  unfolding result_format
  format-IsDocumentedFormat uuid none payload format h = ground arith
  format-IsDocumentedFormat uuid (some null) payload format h = cc
  format-IsDocumentedFormat uuid (some not_text) payload format h = cc
  format-IsDocumentedFormat uuid (some (text declared)) payload format h =
      ground (arith, eq_iff declared "noData", eq_iff payload "")

  format_accepted :
      (uuid : String) (declared : Option RawFormat) (payload : String)
      → IsDocumentedFormat declared payload
      → result_format p uuid declared payload ≡ ok (format_of declared)
  unfolding result_format
  format_accepted uuid none payload d = refl
  format_accepted uuid (some null) payload d = absurd d
  format_accepted uuid (some not_text) payload d = absurd d
  format_accepted uuid (some (text declared)) payload d =
      ground (arith, eq_iff declared "noData", eq_iff payload "")

  result_parts :
      (uuids : List String) (item : CommandResultItem) (result : IsapiCommandResult)
      → parse_result p uuids item ≡ ok result
      → (format : Option String) × (is_command_uuid (codes item.uuid) ≡ true)
        × (seen item.uuid uuids ≡ false)
        × (item.payload ≢ none)
        × (is_base64 (payload_of item) ≡ true)
        × (result_format p item.uuid item.data_format (payload_of item) ≡ ok format)
        × (result
            ≡ record { uuid = item.uuid; data_format = format; data_base64 = payload_of item })
  unfolding parse_result
  result_parts uuids item result h = (
    result.data_format,
    ground arith,
    ground arith,
    ground arith,
    ground arith,
    ground arith,
    ground arith,
  )

  result-IsDocumented :
      (uuids : List String) (item : CommandResultItem) (result : IsapiCommandResult)
      → parse_result p uuids item ≡ ok result
      → IsDocumented item × (seen item.uuid uuids ≡ false) × (result ≡ verbatim_item item)
  result-IsDocumented uuids item result h =
      let (format, identified, new, present, encoded, formatted, made) =
        result_parts uuids item result h in
      let (documented, same) =
        format-IsDocumentedFormat item.uuid item.data_format (payload_of item) format formatted in
      (
        record {
          identified = identified;
          present = present;
          encoded = encoded;
          format = documented;
        },
        new,
        cc (made, same),
      )

  result_accepted :
      (uuids : List String) (item : CommandResultItem)
      → IsDocumented item
      → seen item.uuid uuids ≡ false
      → parse_result p uuids item ≡ ok (verbatim_item item)
  unfolding parse_result
  result_accepted uuids item d new =
      ground (arith, format_accepted item.uuid item.data_format (payload_of item) d.format)

  results_split :
      (uuids : List String) (item : CommandResultItem) (items : List CommandResultItem)
      (results : List IsapiCommandResult)
      → parse_results p uuids (item ∷ items) ≡ ok results
      → (result : IsapiCommandResult) × (rest : List IsapiCommandResult) × (parse_result p uuids
            item
          ≡ ok result)
        × (parse_results p (item.uuid ∷ uuids) items ≡ ok rest)
        × (results ≡ result ∷ rest)
  unfolding parse_results
  results_split uuids item items results h =
      let (result, one, more) = >>=-eq-ok (parse_result p uuids item) _ h in
      let (rest, others, joined) = >>=-eq-ok (parse_results p (item.uuid ∷ uuids) items) _ more in
      (result, rest, one, others, cc)

abbrev IsNew : List String → CommandResultItem → Type 0
IsNew uuids item = seen item.uuid uuids ≡ false

split-IsNew :
    (uuid : String) (uuids : List String) (items : List CommandResultItem)
    → All (IsNew (uuid ∷ uuids)) items
    → All (λ other. uuid ≢ other.uuid) items × All (IsNew uuids) items
unfolding seen
split-IsNew uuid uuids [] new = (tt, tt)
split-IsNew uuid uuids (item ∷ items) new =
    ground (arith, eq_iff uuid item.uuid, split-IsNew uuid uuids items new.1)

join-IsNew :
    (uuid : String) (uuids : List String) (items : List CommandResultItem)
    → All (λ other. uuid ≢ other.uuid) items
    → All (IsNew uuids) items
    → All (IsNew (uuid ∷ uuids)) items
unfolding seen
join-IsNew uuid uuids [] other new = tt
join-IsNew uuid uuids (item ∷ items) other new =
    ground (arith, eq_iff uuid item.uuid, join-IsNew uuid uuids items other.1 new.1)

module _ (p : Platform) where
  results-IsDocumented :
      (uuids : List String) (items : List CommandResultItem) (results : List IsapiCommandResult)
      → parse_results p uuids items ≡ ok results
      → All IsDocumented items
        × Distinct items
        × All (IsNew uuids) items
        × (results ≡ map verbatim_item items)
  unfolding parse_results
  results-IsDocumented uuids [] results h = (tt, tt, tt, ground arith)
  results-IsDocumented uuids (item ∷ items) results h =
      let (result, rest, one, others, joined) = results_split p uuids item items results h in
      let (documented, new, made) = result-IsDocumented p uuids item result one in
      let (all_documented, distinct, All-IsNew, all_made) =
        results-IsDocumented (item.uuid ∷ uuids) items rest others in
      let (apart, still_new) = split-IsNew item.uuid uuids items All-IsNew in
      ((documented, all_documented), (apart, distinct), (new, still_new), cc)

  results_accepted :
      (uuids : List String) (items : List CommandResultItem)
      → All IsDocumented items
      → Distinct items
      → All (IsNew uuids) items
      → parse_results p uuids items ≡ ok (map verbatim_item items)
  unfolding parse_results
  results_accepted uuids [] documented distinct new = refl
  results_accepted uuids (item ∷ items) documented distinct new = rw (
    result_accepted p uuids item documented.0 new.0,
    results_accepted (item.uuid ∷ uuids) items documented.1 distinct.1
        (join-IsNew item.uuid uuids items distinct.0 new.1),
  )

-- The documented envelope: both fields, 0 to 20 items, as many as announced.
abbrev pub IsDocumentedBatch : CommandResultEnvelope → List CommandResultItem → Type 0
IsDocumentedBatch envelope items =
    (envelope.command_list ≡ some items)
    × (envelope.command_num ≡ some (pos (length items)))
    × (length items ≤ 20)
    × All IsDocumented items
    × Distinct items

All-IsNew : (items : List CommandResultItem) → All (IsNew []) items
unfolding seen
All-IsNew [] = tt
All-IsNew (item ∷ items) = (refl, All-IsNew items)

module _ (p : Platform) (body : Bytes) (results : List IsapiCommandResult) where
  batch_cases :
      parse_command_result_batch p body ≡ ok results
      → (envelope : CommandResultEnvelope) × (items : List CommandResultItem) × (p.decode_results
            body
          ≡ value envelope)
        × (envelope.command_list ≡ some items)
        × (envelope.command_num ≡ some (pos (length items)))
        × (length items ≤ 20)
        × (parse_results p [] items ≡ ok results)
  unfolding parse_command_result_batch
  batch_cases h = ground arith

  batch-IsDocumentedBatch :
      parse_command_result_batch p body ≡ ok results
      → (envelope : CommandResultEnvelope) × (items : List CommandResultItem) × (p.decode_results
            body
          ≡ value envelope)
        × IsDocumentedBatch envelope items
        × (results ≡ map verbatim_item items)
  batch-IsDocumentedBatch h =
      let (envelope, items, decoded, list, num, few, parsed) = batch_cases h in
      let (documented, distinct, _, made) = results-IsDocumented p [] items results parsed in
      (envelope, items, decoded, (list, num, few, documented, distinct), made)

  documented_accepted :
      (envelope : CommandResultEnvelope) (items : List CommandResultItem)
      → p.decode_results body ≡ value envelope
      → IsDocumentedBatch envelope items
      → parse_command_result_batch p body ≡ ok (map verbatim_item items)
  unfolding parse_command_result_batch
  documented_accepted envelope items decoded (list, num, few, documented, distinct) =
      ground (arith, results_accepted p [] items documented distinct (All-IsNew items))

  -- The parser accepts exactly the envelopes with both fields, at most 20 items and as many as
  -- announced, whose items are documented and have distinct identifiers; it returns every item in
  -- order with its payload text unchanged, and keeps an absent format absent.
  pub parse_command_result_batch-eq-ok_iff : (parse_command_result_batch p body ≡ ok results) ↔ (
      (envelope : CommandResultEnvelope) × (items : List CommandResultItem) × (p.decode_results body
        ≡ value envelope)
      × IsDocumentedBatch envelope items
      × (results ≡ map verbatim_item items))
  parse_command_result_batch-eq-ok_iff =
      (batch-IsDocumentedBatch, λ d. rw d.4 (documented_accepted d.0 d.1 d.2 d.3))
