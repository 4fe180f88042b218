-- ===== src/PushSdk/Events.antt =====
-- `ParseEventBatch` of internal/pushsdk/events.go.
pub mod Accepted
use face_recognition_proxy.Prelude.{
  ℕ, Bool, true, false, not, ◌&&◌, ◌||◌, Option, none, some, List, [], ◌∷◌, map, String, Bytes,
  codes, utf8, concat, is_digit, is_upper, is_lower, ltb, leb, nat_eq, string_eq, ◌==◌,
  if◌then◌else◌, length, all,
}
use face_recognition_proxy.Result.{Result, ok, err, ◌>>=◌, ◌>>◌, refuse, require}
use face_recognition_proxy.Config.{seen}
use face_recognition_proxy.Encoding.Base64
use face_recognition_proxy.Protocol.{Failure, bad_request}
use face_recognition_proxy.PushSdk.Wire.{
  ℤ, pos, negsuc, Decoded, value, malformed, trailing, EventItem, EventEnvelope, Platform,
}

pub record NewDeviceEvent : Type 0 where
  pub terminal_serial_number : String
  pub vendor_event_id : String
  pub data_format : String
  pub payload_base64 : String

pub record ParsedEvent : Type 0 where
  pub uuid : String
  pub format : String
  pub event : NewDeviceEvent

-- `^[A-Za-z0-9._:-]{1,64}$`
unfoldable pub is_vendor_event_id : Bytes → Bool
is_vendor_event_id cs =
    leb 1 (length cs)
    && leb (length cs) 64
    && all
        (λ c.
          is_upper c
          || is_lower c
          || is_digit c
          || c == b'.'
          || c == b'_'
          || c == b':'
          || c == b'-')
        cs

unfoldable pub supported_data_format : String → Bool
supported_data_format format =
    format == "jsonData" || format == "xmlData" || format == "boundaryData" || format == "noData"

-- Whether base64.StdEncoding.DecodeString gives no error.
unfoldable pub is_base64 : String → Bool
is_base64 payload = elim (Base64.decode (utf8 payload)) [ none ↦ false | some _ ↦ true ]

-- `n < 0 || n > 20`
abbrev pub out_of_batch : ℤ → Bool
out_of_batch (pos n) = ltb 20 n
out_of_batch (negsuc n) = true

-- `length == n`
abbrev pub counts : ℤ → ℕ → Bool
counts (pos n) size = size == n
counts (negsuc n) size = false

abbrev pub parsed_event : String → EventItem → String → ParsedEvent
parsed_event terminal_serial item payload = record {
  uuid = item.uuid;
  format = item.data_format;
  event = record {
    terminal_serial_number = terminal_serial;
    vendor_event_id = item.uuid;
    data_format = item.data_format;
    payload_base64 = payload;
  };
}

module _ (p : Platform) (terminal_serial : String) where
  -- The tests on one item, in the order of the loop's body.
  unfoldable pub parse_item : List String → EventItem → Result Failure ParsedEvent
  parse_item seen_uuids item = do
    refuse (not (is_vendor_event_id (codes item.uuid))) (bad_request "event UUID is invalid")
    refuse (seen item.uuid seen_uuids) (bad_request "eventList contains a duplicate UUID")
    refuse (not (supported_data_format item.data_format))
        (bad_request (concat ("event " ∷ item.uuid ∷ " has an unsupported dataFormat" ∷ [])))
    payload ←
        require item.payload (bad_request (concat ("event " ∷ item.uuid ∷ " has no data" ∷ [])))
    refuse (not (is_base64 payload)) (
        bad_request (
          concat
            ("event " ∷ item.uuid ∷ " data is not base64: " ∷ p.base64_error (utf8 payload) ∷ [])))
    refuse (item.data_format == "noData" && not (payload == ""))
        (bad_request (concat ("event " ∷ item.uuid ∷ " noData payload must be empty" ∷ [])))
    ok (parsed_event terminal_serial item payload)

  unfoldable pub parse_items : List String → List EventItem → Result Failure (List ParsedEvent)
  parse_items seen_uuids [] = ok []
  parse_items seen_uuids (item ∷ items) = do
    event ← parse_item seen_uuids item
    events ← parse_items (item.uuid ∷ seen_uuids) items
    ok (event ∷ events)

  parse_envelope : Decoded EventEnvelope → Result Failure (List ParsedEvent)
  parse_envelope (malformed e) =
      err (bad_request (concat ("event envelope is not valid JSON: " ∷ e ∷ [])))
  parse_envelope trailing = err (bad_request "event envelope contains a trailing JSON value")
  parse_envelope (value envelope) = do
    let missing = bad_request "event envelope must contain eventNum and eventList"
    num ← require envelope.event_num missing
    list ← require envelope.event_list missing
    refuse (out_of_batch num) (bad_request "eventNum must be between 0 and 20")
    refuse (not (counts num (length list))) (bad_request "eventNum must equal eventList length")
    parse_items [] list

  unfoldable pub parse_event_batch : Bytes → Result Failure (List ParsedEvent)
  unfolding parse_envelope
  parse_event_batch body = parse_envelope (p.decode_events body)
