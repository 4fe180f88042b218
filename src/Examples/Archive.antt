-- ===== src/Examples/Archive.antt =====
-- A terminal's archive: a standard library that reads every document as one of a few, a page, a form
-- with one picture, and a random identifier.
use face_recognition_proxy.Prelude.{
  ◌≡◌, ◌↔◌, refl, true, false, some, none, [], ◌∷◌, String, Bytes, codes, utf8, string_eq, ◌==◌,
  if◌then◌else◌, replicate, length, nat_eq,
}
use face_recognition_proxy.Encoding.Base64
use face_recognition_proxy.Result.{ok}
use face_recognition_proxy.PushSdk.Wire.{pos, value}
use face_recognition_proxy.PushSdk.Commands.{is_command_uuid}
use face_recognition_proxy.AccessControl.{
  EventDocument, project_face_rect, Readers, Projection, PageDocument, RetainedDocument, RawPart,
}
use face_recognition_proxy.AccessControl.Form.{
  EventPicture, extract_picture, multipart_form_parts, form_part, only_part,
}
use face_recognition_proxy.AccessControl.Form.Exactly.{HasPicture, extract_picture-eq-some_iff}
use face_recognition_proxy.AccessControl.Retained.{
  RetainedEventPage, more, parse_retained_event_page, extract_retained_event,
}
use face_recognition_proxy.AccessControl.Retained.Accepted.{
  Declares, IsPage, parse_retained_event_page-eq-ok_iff,
}
use face_recognition_proxy.Store.IsapiCommands.Queueing.{new_isapi_command_uuid}
use face_recognition_proxy.Store.IsapiCommands.Queueing.Fresh.{
  new_isapi_command_uuid-is_command_uuid,
}

abbrev pub first_page : PageDocument
first_page = record {
  search_id = some "01010101-0101-4101-8101-010101010101";
  response_status = some "MORE";
  num_of_matches = some (pos 1);
  total_matches = some (pos 2);
  info_list = codes "{}" ∷ [];
}

abbrev face_event : RetainedDocument
face_event = record {
  major = some (pos 5);
  minor = some (pos 75);
  time = some "2026-01-01T09:00:00+03:00";
  card_no = none;
  name = none;
  employee_no_string = some "17";
  card_reader_no = none;
  door_no = none;
  serial_no = some (pos 4);
  user_type = none;
  current_verify_mode = none;
  mask = none;
  face_rect = none;
}

abbrev face_report : EventDocument
face_report = record {
  event_type = "AccessControllerEvent";
  event_description = none;
  event_state = some "active";
  date_time = some "2026-01-01T09:00:00+03:00";
  ip_address = none;
  mac_address = none;
  channel_id = none;
  active_post_count = none;
  short_serial_number = none;
  access_controller_event = some (record {
    device_name = none;
    major_event_type = some (pos 5);
    sub_event_type = some (pos 75);
    card_no = none;
    name = none;
    employee_no_string = some "17";
    card_reader_no = none;
    door_no = none;
    serial_no = some (pos 4);
    front_serial_no = none;
    user_type = none;
    current_verify_mode = none;
    current_event = none;
    mask = none;
    pictures_number = none;
    pure_pwd_verify_enable = none;
    face_rect = none;
  });
}

abbrev picture_part : Bytes → RawPart
picture_part contents = record {
  disposition = "form-data";
  content_type = "image/jpeg";
  content_id = "";
  contents = some contents;
}

abbrev pub sample_readers : Readers
sample_readers = record {
  decode_event = λ source. value face_report;
  decode_retained = λ source. value face_event;
  decode_page = λ source. value (some first_page);
  decode_time = λ source. some (record {
    space = "http://www.isapi.org/ver20/XMLSchema";
    root = "Time";
    local_time = "2026-01-01T12:00:00+03:00";
    after = [];
    after_error = none;
  });
  encode_search = λ request. request.search_result_position ∷ [];
  parse_rfc3339 = λ text. some (record { instant = 100; location = "+03:00" });
  format_rfc3339 = λ moment. moment.location;
  zero_instant = 0;
  start_of_2000 = λ location. 5;
  read_mime_header = λ payload. some ("multipart/form-data", payload);
  parse_media_type =
      λ header. some (header, λ key. if key == "name" then "Picture" else "face.jpg");
  read_form = λ boundary payload. record { parts = picture_part payload ∷ []; fails = false };
  jpeg_config = λ payload. some (pos 1, pos 1);
  jpeg_decodes = λ payload. true;
  sha256_sum = λ input. replicate 32 (length input);
}

abbrev pub read_first : RetainedEventPage
read_first = record {
  search_id = "01010101-0101-4101-8101-010101010101";
  response_status = more;
  num_of_matches = 1;
  total_matches = 2;
  info_list = codes "{}" ∷ [];
}

parse_retained_event_page-eq-ok_iff_example :
    (parse_retained_event_page sample_readers (codes "{}") ≡ ok read_first) ↔ (
      (document : PageDocument) × (sample_readers.decode_page (codes "{}") ≡ value (some document))
      × Declares document read_first
      × IsPage read_first)
parse_retained_event_page-eq-ok_iff_example =
    parse_retained_event_page-eq-ok_iff sample_readers (codes "{}") read_first

parses_first : parse_retained_event_page sample_readers (codes "{}") ≡ ok read_first
unfolding parse_retained_event_page utf8
parses_first = refl

abbrev face : EventPicture
face = record {
  content_type = "image/jpeg";
  file_name = "face.jpg";
  content_id = "";
  data_base64 = utf8 "AAEC";
}

extract_picture-eq-some_iff_example :
    (extract_picture sample_readers "boundaryData" "AAEC" ≡ some face)
    ↔ ((◌≡◌ {A = String} "boundaryData" "boundaryData") × HasPicture sample_readers "AAEC" face)
extract_picture-eq-some_iff_example =
    extract_picture-eq-some_iff sample_readers "boundaryData" "AAEC" face

extracts_face : extract_picture sample_readers "boundaryData" "AAEC" ≡ some face
unfolding extract_picture multipart_form_parts form_part only_part Base64.decode Base64.encode utf8
extracts_face = refl

new_isapi_command_uuid-is_command_uuid_example :
    is_command_uuid (codes "01010101-0101-4101-8101-010101010101") ≡ true
unfolding new_isapi_command_uuid
new_isapi_command_uuid-is_command_uuid_example =
    new_isapi_command_uuid-is_command_uuid (some (replicate 16 1))
      "01010101-0101-4101-8101-010101010101" refl

abbrev pub face_projection : Projection
face_projection = record {
  major_event_type = 5;
  sub_event_type = 75;
  event_description = none;
  event_state = none;
  occurred_at = some (record { instant = 100; location = "+03:00" });
  source_mac_address = none;
  channel_id = none;
  active_post_count = none;
  short_serial_number = none;
  device_name = none;
  employee_number = some "17";
  employee_name = none;
  card_number = none;
  card_reader_number = none;
  door_number = none;
  event_serial_number = some (pos 4);
  front_serial_number = none;
  user_type = none;
  current_verify_mode = none;
  current_event = none;
  mask = none;
  pictures_number = none;
  pure_pwd_verify_enable = none;
  face_rect = none;
  source_ip_address = none;
}

extracts_event : extract_retained_event sample_readers (codes "{}") ≡ ok face_projection
unfolding extract_retained_event project_face_rect
extracts_event = refl
