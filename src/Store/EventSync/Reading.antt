-- ===== src/Store/EventSync/Reading.antt =====
-- What is known of an accepted page of a search.
use face_recognition_proxy.Prelude.{
  ℕ, ◌+◌, ◌≡◌, ◌≤◌, ◌<◌, refl, not, Option, List, [], ◌∷◌, String, Bytes, arith, ltb, string_eq,
  nat_eq, ◌==◌, inl, inr, length,
}
use face_recognition_proxy.Result.{ok, refuse, require, >>=-eq-ok, Result-cases}
use face_recognition_proxy.AccessControl.{Readers}
use face_recognition_proxy.AccessControl.Retained.{
  RetainedEventPage, ResponseStatus, more, final, no_match, parse_retained_event_page,
  extract_retained_event,
}
use face_recognition_proxy.AccessControl.Retained.Accepted.{
  IsCounted, parse_retained_event_page-eq-ok_iff,
}
use face_recognition_proxy.Store.EventSync.Pages.{
  PageAnswer, active_page, advance, next_position, retained_rows, read_page, changed_total,
}
use face_recognition_proxy.Store.EventSync.Tables.{SyncRun, RetainedRow}

-- A page goes on to a later position below the total, or it ends the search there.
abbrev pub Advances : ResponseStatus → ℕ → ℕ → ℕ → Type 0
Advances more position next total = (position < next) × (next < total)
Advances _ position next total = next ≡ total

abbrev pub IsRead : ℕ → PageAnswer → Type 0
IsRead position a =
    (a.position ≡ position)
    × (a.next ≡ position + a.answer.num_of_matches)
    × (length a.rows ≡ a.answer.num_of_matches)
    × (a.answer.num_of_matches ≤ 30)
    × (a.answer.total_matches ≤ 150_000)
    × Advances a.answer.response_status position a.next a.answer.total_matches

advance_from :
    (status : ResponseStatus) (position : ℕ) (answer : RetainedEventPage) (next : ℕ)
    → next ≡ position + answer.num_of_matches
    → IsCounted status answer.num_of_matches answer.total_matches answer.info_list
    → advance status position answer next ≡ ok tt
    → Advances status position next answer.total_matches
unfolding advance
advance_from more position answer next e counted h = ground arith
advance_from final position answer next e counted h = ground arith
advance_from no_match position answer next e counted h = ground arith

next_from :
    (run : SyncRun) (position : ℕ) (answer : RetainedEventPage) (next : ℕ)
    → IsCounted answer.response_status answer.num_of_matches answer.total_matches answer.info_list
    → next_position run position answer ≡ ok next
    → (next ≡ position + answer.num_of_matches)
      × Advances answer.response_status position next answer.total_matches
unfolding next_position
next_from run position answer next counted h =
    let here = position + answer.num_of_matches in
    let (_, _, h1) = >>=-eq-ok (refuse (not (answer.search_id == run.search_id)) _) _ h in
    let (_, _, h2) =
      >>=-eq-ok (refuse (changed_total run.total_matches answer.total_matches) _) _ h1 in
    let (_, _, h3) = >>=-eq-ok (refuse (ltb answer.total_matches here) _) _ h2 in
    let (_, went, h4) = >>=-eq-ok (advance answer.response_status position answer here) _ h3 in
    let same : next ≡ here = ground arith in
    (same, rw same (advance_from answer.response_status position answer here refl counted went))

length_counted :
    (status : ResponseStatus) (num total : ℕ) (infos : List Bytes)
    → IsCounted status num total infos
    → num ≡ length infos
length_counted more num total infos h = h
length_counted final num total infos h = h
length_counted no_match num total infos h = omega arith

module _ (r : Readers) (random : ℕ → ℕ → Option Bytes) (gateway_location : String) (now : ℕ) where
  length-retained_rows :
      (uuid : String) (run : SyncRun) (command_uuid : String) (raws : List Bytes)
      (rows : List RetainedRow)
      → retained_rows r random gateway_location now uuid run command_uuid raws ≡ ok rows
      → length rows ≡ length raws
  unfolding retained_rows
  length-retained_rows uuid run command_uuid [] rows h = ground arith
  length-retained_rows uuid run command_uuid (raw ∷ raws) rows h =
      elim (Result-cases (extract_retained_event r raw)) [
        | inr (reason, e) ↦ absurd (ground arith)
        | inl (projection, e) ↦
            let (rest, first, h1) =
              >>=-eq-ok (retained_rows r random gateway_location now uuid run command_uuid raws) _
                (rw (e, retained_rows) at h) in
            ground (arith, length-retained_rows uuid run command_uuid raws rest first)
      ]

  pub read_page-IsRead :
      (uuid : String) (run : SyncRun) (position : ℕ) (command_uuid : String) (source : Bytes)
      (a : PageAnswer)
      → read_page r random gateway_location now uuid run position command_uuid source ≡ ok a
      → IsRead position a
  unfolding read_page
  read_page-IsRead uuid run position command_uuid source a h =
      let (ended_at, _, h1) = >>=-eq-ok (require (active_page run) _) _ h in
      elim (Result-cases (parse_retained_event_page r source)) [
        | inr (reason, e) ↦ absurd (ground arith)
        | inl (answer, e) ↦
            let (document, _, _, (_, _, few, below, counted)) =
              (parse_retained_event_page-eq-ok_iff r source answer).0 e in
            let (next, moved, h2) = >>=-eq-ok (next_position run position answer) _ (rw e at h1) in
            let (rows, made, h3) =
              >>=-eq-ok
                (retained_rows r random gateway_location now uuid run command_uuid answer.info_list)
                _ h2 in
            let (next≡, advances) = next_from run position answer next counted moved in
            let length≡ = length-retained_rows uuid run command_uuid answer.info_list rows made in
            let num≡ = length_counted answer.response_status _ _ _ counted in
            let same : a ≡ record {
              answer = answer;
              position = position;
              ended_at = ended_at;
              next = next;
              rows = rows;
            } =
              ground arith in
            rw same (refl, next≡, omega arith, few, below, advances)
      ]
