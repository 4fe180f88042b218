-- ===== src/Examples/Parsing.antt =====
-- Paths, batches, payloads, random identifiers and configurations.
use face_recognition_proxy.Prelude.{
  ◌≡◌, ◌↔◌, refl, some, List, [], ◌∷◌, map, replicate, Bytes, arith, All, codes, is_space, utf8,
}
use face_recognition_proxy.Result.{ok}
use face_recognition_proxy.Config.{
  validate, validate_terminal, validate_terminals, terminal_by_push_sdk_serial,
  terminal_by_serial_number,
}
use face_recognition_proxy.Config.Valid.{
  IsValidTerminal, validate-IsValidTerminal, lookup_own_identifiers,
}
use face_recognition_proxy.Crypto.Padding.{pad_pkcs7, unpad_pkcs7, unpad-eq-ok_iff}
use face_recognition_proxy.Crypto.Random.{random_alpha_numeric, random_custom_challenge}
use face_recognition_proxy.Encoding.Hex
use face_recognition_proxy.PushSdk.Envelope.{decrypt, encrypt, EncryptionParameters}
use face_recognition_proxy.PushSdk.Envelope.RoundTrip.{decrypt-encrypt}
use face_recognition_proxy.PushSdk.Events.{parse_event_batch, parsed_event}
use face_recognition_proxy.PushSdk.Events.Accepted
use face_recognition_proxy.PushSdk.Commands.{parse_command_result_batch, IsapiCommandResult}
use face_recognition_proxy.PushSdk.Commands.Accepted as Results
use face_recognition_proxy.PushSdk.Route.{parse_route}
use face_recognition_proxy.PushSdk.Route.Paths.{IsTerminalPath, parse_route-eq-some_iff}
use face_recognition_proxy.PushSdk.Wire.{
  value, EventEnvelope, EventItem, CommandResultEnvelope, CommandResultItem,
}
use face_recognition_proxy.Examples.Data.{
  door, sample_config, sample_platform, sample-IsBlockCipher, opened, hex_64,
}

unpad-eq-ok_iff_example : (unpad_pkcs7 (replicate 16 16) ≡ ok []) ↔ (replicate 16 16 ≡ pad_pkcs7 [])
unpad-eq-ok_iff_example = unpad-eq-ok_iff (replicate 16 16) []

abbrev params : EncryptionParameters
params = record { security_version = 3; iv = replicate 16 0; random = "0123456789abcdef" }

decrypt-encrypt_example :
    decrypt sample_platform door hex_64 4096 params
      (encrypt sample_platform door hex_64 4096 params (1 ∷ 2 ∷ 3 ∷ []))
    ≡ ok (1 ∷ 2 ∷ 3 ∷ [])
decrypt-encrypt_example =
    decrypt-encrypt sample_platform sample-IsBlockCipher door hex_64 4096 params (1 ∷ 2 ∷ 3 ∷ [])
      (omega arith, (omega arith, (omega arith, tt)))

parse_route-eq-some_iff_example :
    (parse_route "/iot/PS-1/global/0-global/model/service/operate/PUSH/Login"
      ≡ some ("PS-1", "Login"))
    ↔ IsTerminalPath "/iot/PS-1/global/0-global/model/service/operate/PUSH/Login" "PS-1" "Login"
parse_route-eq-some_iff_example =
    parse_route-eq-some_iff "/iot/PS-1/global/0-global/model/service/operate/PUSH/Login" "PS-1"
      "Login"

sample_config_valid : validate sample_config ≡ ok tt
unfolding validate is_space validate_terminals validate_terminal utf8
sample_config_valid = refl

validate-IsValidTerminal_example : All IsValidTerminal (door ∷ [])
validate-IsValidTerminal_example = validate-IsValidTerminal sample_config sample_config_valid

lookup_own_identifiers_example :
    All
      (λ t.
        (terminal_by_push_sdk_serial sample_config t.push_sdk_serial ≡ some t)
        × (terminal_by_serial_number sample_config t.serial_number ≡ some t))
      (door ∷ [])
lookup_own_identifiers_example = lookup_own_identifiers sample_config sample_config_valid

-- The byte 255 is passed over.
two_letters : random_alpha_numeric 2 ((255 ∷ 10 ∷ []) ∷ (61 ∷ 0 ∷ []) ∷ []) ≡ some (codes "Az")
unfolding random_alpha_numeric
two_letters = refl

abbrev zero_digits : Bytes
zero_digits = replicate 64 b'0'

zeros : random_custom_challenge (replicate 32 0 ∷ []) ≡ some zero_digits
unfolding random_custom_challenge Hex.encode
zeros = refl

parse_event_batch-eq-ok_iff_example :
    (parse_event_batch sample_platform "DS-1" [] ≡ ok (parsed_event "DS-1" opened "e30=" ∷ [])) ↔ (
      (envelope : EventEnvelope) × (items : List EventItem) × (sample_platform.decode_events []
        ≡ value envelope)
      × Accepted.IsDocumentedBatch envelope items
      × ((parsed_event "DS-1" opened "e30=" ∷ []) ≡ Accepted.verbatim "DS-1" items))
parse_event_batch-eq-ok_iff_example =
    Accepted.parse_event_batch-eq-ok_iff sample_platform "DS-1" []
      (parsed_event "DS-1" opened "e30=" ∷ [])

abbrev result : IsapiCommandResult
result = record {
  uuid = "00000000-0000-4000-8000-000000000000";
  data_format = some "jsonData";
  data_base64 = "e30=";
}

parse_command_result_batch-eq-ok_iff_example :
    (parse_command_result_batch sample_platform [] ≡ ok (result ∷ [])) ↔ (
      (envelope : CommandResultEnvelope) × (items : List CommandResultItem)
      × (sample_platform.decode_results [] ≡ value envelope)
      × Results.IsDocumentedBatch envelope items
      × ((result ∷ []) ≡ map Results.verbatim_item items))
parse_command_result_batch-eq-ok_iff_example =
    Results.parse_command_result_batch-eq-ok_iff sample_platform [] (result ∷ [])
