-- ===== src/AccessControl/Form.antt =====
-- The MIME form that wraps an event: `multipartFormParts`, `accessControllerEventPart` and
-- `ExtractPicture` of internal/accesscontrol/events.go.
pub mod Exactly
use face_recognition_proxy.Prelude.{
  Bool, true, false, not, ◌||◌, ◌&&◌, Option, none, some, List, [], ◌∷◌, String, Bytes, utf8,
  string_eq, ◌==◌, if◌then◌else◌,
}
use face_recognition_proxy.Encoding.Base64
use face_recognition_proxy.AccessControl.{Readers, RawPart, RawForm}

pub record FormPart : Type 0 where
  pub name : String
  pub file_name : String
  pub content_id : String
  pub media_type : String
  pub contents : Bytes

-- Picture; the data is base64 text.
pub record EventPicture : Type 0 where
  pub content_type : String
  pub file_name : String
  pub content_id : String
  pub data_base64 : Bytes

-- `found` and one more part of the wanted kind: a part with the name that is not as it should be, or
-- that is the second one, refuses the form.
unfoldable pub only_part :
    String → (FormPart → Bool) → Option FormPart → List FormPart → Option FormPart
only_part name valid found [] = found
only_part name valid found (part ∷ parts) =
    let skipped = only_part name valid found parts in
    let taken = only_part name valid (some part) parts in
    if not (part.name == name)
    then skipped
    else if not (valid part)
    then none
    else elim found [ none ↦ taken | some _ ↦ none ]

abbrev pub is_json_part : FormPart → Bool
is_json_part part = part.media_type == "application/json"

abbrev pub is_picture_part : FormPart → Bool
is_picture_part part = part.media_type == "image/jpeg" && not (part.file_name == "")

module _ (r : Readers) where
  -- One turn of the loop over the parts.
  unfoldable pub form_part : RawPart → Option FormPart
  form_part raw = elim (r.parse_media_type raw.disposition) [
    | none ↦ none
    | some (disposition, parameters) ↦
        if not (disposition == "form-data") || parameters "name" == ""
        then none
        else elim (r.parse_media_type raw.content_type) [
          | none ↦ none
          | some (media_type, _) ↦ elim raw.contents [
            | none ↦ none
            | some contents ↦ some (record {
              name = parameters "name";
              file_name = parameters "filename";
              content_id = raw.content_id;
              media_type = media_type;
              contents = contents;
            })
          ]
        ]
  ]

  abbrev put_first : Option FormPart → Option (List FormPart) → Option (List FormPart)
  put_first (some part) (some parts) = some (part ∷ parts)
  put_first _ _ = none

  unfoldable pub form_parts : List RawPart → Bool → Option (List FormPart)
  form_parts [] true = none
  form_parts [] false = some []
  form_parts (raw ∷ raws) fails = put_first (form_part raw) (form_parts raws fails)

  unfoldable pub multipart_form_parts : Bytes → Option (List FormPart)
  unfolding form_parts
  multipart_form_parts payload = elim (r.read_mime_header payload) [
    | none ↦ none
    | some (content_type, rest) ↦ elim (r.parse_media_type content_type) [
      | none ↦ none
      | some (media_type, parameters) ↦
          if not (media_type == "multipart/form-data") || parameters "boundary" == ""
          then none
          else let form = r.read_form (parameters "boundary") rest in
            form_parts form.parts form.fails
    ]
  ]

  -- An empty part is a nil slice only where the part was not found: io.ReadAll gives no nil.
  unfoldable pub access_controller_event_part : Bytes → Option Bytes
  access_controller_event_part payload = elim (multipart_form_parts payload) [
    | none ↦ none
    | some parts ↦ elim (only_part "AccessControllerEvent" is_json_part none parts) [
      | none ↦ none
      | some part ↦ some part.contents
    ]
  ]

  abbrev picture_of : FormPart → EventPicture
  picture_of part = record {
    content_type = part.media_type;
    file_name = part.file_name;
    content_id = part.content_id;
    data_base64 = Base64.encode part.contents;
  }

  unfoldable pub extract_picture : String → String → Option EventPicture
  extract_picture data_format payload_base64 =
      if not (data_format == "boundaryData")
      then none
      else elim (Base64.decode (utf8 payload_base64)) [
        | none ↦ none
        | some payload ↦ elim (multipart_form_parts payload) [
          | none ↦ none
          | some parts ↦ elim (only_part "Picture" is_picture_part none parts) [
            | none ↦ none
            | some part ↦ some (picture_of part)
          ]
        ]
      ]
