-- ===== src/AccessControl/Retained.antt =====
-- The search of a terminal's own archive: internal/accesscontrol/retained.go.
pub mod Accepted
use face_recognition_proxy.Prelude.{
  ℕ, Bool, true, false, not, ◌||◌, ◌&&◌, Option, none, some, List, [], ◌∷◌, String, Bytes, utf8,
  codes, is_space, all, ltb, leb, nat_eq, string_eq, ◌==◌, if◌then◌else◌, length,
}
use face_recognition_proxy.Result.{Result, ok, err, ◌>>=◌, ◌>>◌, refuse, require}
use face_recognition_proxy.AccessControl.{
  Readers, Projection, Moment, RetainedDocument, PageDocument, TimeDocument, XmlToken, characters,
  other_token, RetainedEventSearchRequest, within, natural, project_face_rect,
}
use face_recognition_proxy.PushSdk.Wire.{ℤ, Decoded, value, malformed, trailing}

abbrev pub retained_event_search_url : String
retained_event_search_url = "/ISAPI/AccessControl/AcsEvent?format=json"

abbrev pub retained_event_page_size : ℕ
retained_event_page_size = 30

-- The highest position and the highest total.
abbrev pub archive_limit : ℕ
archive_limit = 150_000

abbrev pub is_search_id : String → Bool
is_search_id id = not (id == "") && leb (length (utf8 id)) 64

pub data ResponseStatus : Type 0 where
  more final no_match : ResponseStatus

abbrev pub status_of_text : String → Option ResponseStatus
status_of_text text =
    if text == "MORE"
    then some more
    else if text == "OK"
    then some final
    else if text == "NO MATCH"
    then some no_match
    else none

pub record RetainedEventPage : Type 0 where
  pub search_id : String
  pub response_status : ResponseStatus
  pub num_of_matches : ℕ
  pub total_matches : ℕ
  pub info_list : List Bytes

-- The `switch page.ResponseStatus`.
unfoldable pub checked_status : String → ℕ → ℕ → List Bytes → Result String ResponseStatus
checked_status text num total infos = elim (status_of_text text) [
  | none ↦ err "AcsEvent result has unsupported responseStatusStrg"
  | some no_match ↦ do
    refuse (not (num == 0) || not (total == 0) || not (length infos == 0))
        "AcsEvent NO MATCH result has records or a non-zero count"
    ok no_match
  | some listed ↦ do
    refuse (not (num == length infos)) "AcsEvent result numOfMatches does not equal InfoList length"
    ok listed
]

unfoldable pub checked_page : String → String → ℤ → ℤ → List Bytes → Result String RetainedEventPage
unfolding checked_status
checked_page search_id status num total infos = do
  refuse (not (is_search_id search_id)) "AcsEvent result has an invalid searchID"
  num_of_matches ←
      require (within 0 retained_event_page_size num)
        "AcsEvent result has an out-of-range pagination count"
  total_matches ←
      require (within 0 archive_limit total) "AcsEvent result has an out-of-range pagination count"
  response_status ← checked_status status num_of_matches total_matches infos
  ok (record {
    search_id = search_id;
    response_status = response_status;
    num_of_matches = num_of_matches;
    total_matches = total_matches;
    info_list = infos;
  })

-- json.Decoder with requireJSONEOF.
abbrev exact : {A : Type 0} → String → Decoded A → Result String A
exact what (value a) = ok a
exact what (malformed _) = err what
exact what trailing = err "JSON document contains trailing value"

abbrev omitted : String
omitted = "AcsEvent result omits a required pagination field"

module _ (r : Readers) where
  unfoldable pub new_retained_event_search_request : String → ℕ → Moment → Result String Bytes
  new_retained_event_search_request search_id position terminal_now = do
    refuse (not (is_search_id search_id)) "retained event search ID must contain 1..64 bytes"
    refuse (ltb archive_limit position) "retained event search position must be 0..150000"
    refuse (terminal_now.instant == r.zero_instant) "terminal time is required"
    let start = r.start_of_2000 terminal_now.location
    refuse (leb terminal_now.instant start)
        "terminal time precedes the supported retained-event range"
    ok (
        r.encode_search (record {
          search_id = search_id;
          search_result_position = position;
          max_results = retained_event_page_size;
          major = 0;
          minor = 0;
          start_time =
              r.format_rfc3339 (record { instant = start; location = terminal_now.location });
          end_time = r.format_rfc3339 terminal_now;
          time_reverse_order = true;
        }))

  -- The loop over the tokens after the root.
  abbrev is_blank : XmlToken → Bool
  is_blank (characters text) = all is_space (codes text)
  is_blank other_token = false

  unfoldable pub blank_after : List XmlToken → Option String → Result String (Unit {0})
  blank_after tokens after_error = do
    refuse (not (all is_blank tokens)) "System/time XML contains trailing content"
    elim after_error [ none ↦ ok tt | some e ↦ err e ]

  unfoldable pub parse_terminal_time : Bytes → Result String Moment
  unfolding blank_after
  parse_terminal_time source = do
    document ← require (r.decode_time source) "decode System/time XML"
    refuse
        (not (document.space == "http://www.isapi.org/ver20/XMLSchema")
          || not (document.root == "Time"))
        "System/time XML root is not the documented Time element"
    blank_after document.after document.after_error
    refuse (document.local_time == "") "System/time XML omits localTime"
    require (r.parse_rfc3339 document.local_time) "parse terminal localTime"

  unfoldable pub parse_retained_event_page : Bytes → Result String RetainedEventPage
  unfolding checked_page
  parse_retained_event_page source = do
    answer ← exact "decode AcsEvent result" (r.decode_page source)
    document ← require answer omitted
    search_id ← require document.search_id omitted
    status ← require document.response_status omitted
    num ← require document.num_of_matches omitted
    total ← require document.total_matches omitted
    checked_page search_id status num total document.info_list

  unfoldable pub extract_retained_event : Bytes → Result String Projection
  extract_retained_event source = do
    document ← exact "decode retained AcsEvent record" (r.decode_retained source)
    declared_major ← require document.major "retained AcsEvent record omits major, minor, or time"
    declared_minor ← require document.minor "retained AcsEvent record omits major, minor, or time"
    declared_time ← require document.time "retained AcsEvent record omits major, minor, or time"
    major ←
        require (within 1 5 declared_major)
          "retained AcsEvent record has invalid major or minor code"
    minor ←
        require (natural declared_minor) "retained AcsEvent record has invalid major or minor code"
    occurred_at ← require (r.parse_rfc3339 declared_time) "parse retained AcsEvent time"
    ok (record {
      major_event_type = major;
      sub_event_type = minor;
      event_description = none;
      event_state = none;
      occurred_at = some occurred_at;
      source_mac_address = none;
      channel_id = none;
      active_post_count = none;
      short_serial_number = none;
      device_name = none;
      employee_number = document.employee_no_string;
      employee_name = document.name;
      card_number = document.card_no;
      card_reader_number = document.card_reader_no;
      door_number = document.door_no;
      event_serial_number = document.serial_no;
      front_serial_number = none;
      user_type = document.user_type;
      current_verify_mode = document.current_verify_mode;
      current_event = none;
      mask = document.mask;
      pictures_number = none;
      pure_pwd_verify_enable = none;
      face_rect = project_face_rect document.face_rect;
      source_ip_address = none;
    })
