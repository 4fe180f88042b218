-- ===== src/PushSdk/Commands.antt =====
-- `ParseCommandResultBatch` and the command items of internal/pushsdk/commands.go.
pub mod Accepted
use face_recognition_proxy.Prelude.{
  ℕ, Bool, true, false, not, ◌&&◌, ◌||◌, Option, none, some, List, [], ◌∷◌, String, Bytes, codes,
  concat, utf8, is_lower_hex, nat_eq, string_eq, ◌==◌, if◌then◌else◌, length,
}
use face_recognition_proxy.Result.{Result, ok, err, ◌>>=◌, ◌>>◌, refuse, require}
use face_recognition_proxy.Config.{seen}
use face_recognition_proxy.Encoding.Base64
use face_recognition_proxy.Protocol.{Failure, bad_request}
use face_recognition_proxy.PushSdk.Events.{supported_data_format, is_base64, out_of_batch, counts}
use face_recognition_proxy.PushSdk.Wire.{
  Decoded, value, malformed, trailing, RawFormat, null, not_text, text, CommandResultItem,
  CommandResultEnvelope, Platform,
}

pub record IsapiCommandResult : Type 0 where
  pub uuid : String
  pub data_format : Option String
  pub data_base64 : String

-- `pattern` has an `x` where a lower-case hexadecimal digit stands.
fits : Bytes → Bytes → Bool
fits [] [] = true
fits (x ∷ pattern) (c ∷ cs) = (if x == b'x' then is_lower_hex c else c == x) && fits pattern cs
fits _ _ = false

-- `^[0-9a-f]{8}-[0-9a-f]{4}-[0-9a-f]{4}-[0-9a-f]{4}-[0-9a-f]{12}$`
unfoldable pub is_command_uuid : Bytes → Bool
unfolding fits
is_command_uuid = fits (codes "xxxxxxxx-xxxx-xxxx-xxxx-xxxxxxxxxxxx")

abbrev about : String → String → Failure
about uuid what = bad_request (concat ("command result " ∷ uuid ∷ what ∷ []))

module _ (p : Platform) where
  -- The tests on a declared format; an absent one is kept absent.
  unfoldable pub result_format : String → Option RawFormat → String → Result Failure (Option String)
  result_format uuid none payload = ok none
  result_format uuid (some null) payload =
      err (about uuid " dataFormat must be a string when present")
  result_format uuid (some not_text) payload =
      err (about uuid " dataFormat must be a string when present")
  result_format uuid (some (text format)) payload = do
    refuse (not (supported_data_format format)) (about uuid " has an unsupported dataFormat")
    refuse (format == "noData" && not (payload == "")) (about uuid " noData payload must be empty")
    refuse (not (format == "noData") && payload == "") (about uuid " payload must not be empty")
    ok (some format)

  unfoldable pub parse_result : List String → CommandResultItem → Result Failure IsapiCommandResult
  parse_result seen_uuids item = do
    refuse (not (is_command_uuid (codes item.uuid))) (bad_request "command result UUID is invalid")
    refuse (seen item.uuid seen_uuids) (bad_request "command result contains a duplicate UUID")
    payload ← require item.payload (about item.uuid " has no data")
    refuse (not (is_base64 payload)) (
        bad_request (
          concat (
            "command result "
            ∷ item.uuid
            ∷ " data is not base64: "
            ∷ p.base64_error (utf8 payload)
            ∷ [])))
    format ← result_format item.uuid item.data_format payload
    ok (record { uuid = item.uuid; data_format = format; data_base64 = payload })

  unfoldable pub parse_results :
      List String → List CommandResultItem → Result Failure (List IsapiCommandResult)
  parse_results seen_uuids [] = ok []
  parse_results seen_uuids (item ∷ items) = do
    result ← parse_result seen_uuids item
    results ← parse_results (item.uuid ∷ seen_uuids) items
    ok (result ∷ results)

  parse_envelope : Decoded CommandResultEnvelope → Result Failure (List IsapiCommandResult)
  parse_envelope (malformed e) =
      err (bad_request (concat ("command result envelope is not valid JSON: " ∷ e ∷ [])))
  parse_envelope trailing =
      err (bad_request "command result envelope is not valid JSON: trailing JSON value")
  parse_envelope (value envelope) = do
    let missing = bad_request "command result must contain commandNum and commandList"
    num ← require envelope.command_num missing
    list ← require envelope.command_list missing
    refuse (out_of_batch num) (bad_request "commandNum must be between 0 and 20")
    refuse (not (counts num (length list))) (bad_request "commandNum must equal commandList length")
    parse_results [] list

  unfoldable pub parse_command_result_batch : Bytes → Result Failure (List IsapiCommandResult)
  unfolding parse_envelope
  parse_command_result_batch body = parse_envelope (p.decode_results body)

pub record IsapiCommandDelivery : Type 0 where
  pub uuid : String
  pub method : String
  pub url : String
  pub data_format : String
  pub payload : Bytes

pub record CommandRequestItem : Type 0 where
  pub uuid : String
  pub url : String
  pub data_format : String
  pub payload : Bytes

unfoldable pub command_request_item_for : IsapiCommandDelivery → CommandRequestItem
command_request_item_for delivery = record {
  uuid = delivery.uuid;
  url = concat (delivery.method ∷ " " ∷ delivery.url ∷ []);
  data_format = delivery.data_format;
  payload = Base64.encode delivery.payload;
}
