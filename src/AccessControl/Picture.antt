-- ===== src/AccessControl/Picture.antt =====
-- `DeliveryPicture` of internal/accesscontrol/attachments.go: the evidence that goes with an event,
-- or why there is none.
use face_recognition_proxy.Prelude.{
  ℕ, ◌*◌, Bool, true, false, not, ◌&&◌, Option, none, some, List, [], ◌∷◌, String, Bytes, utf8, ltb,
  string_eq, nat_eq, ◌==◌, if◌then◌else◌, length,
}
use face_recognition_proxy.Result.{Result, ok, err, ◌>>=◌, ◌>>◌, refuse, require}
use face_recognition_proxy.Encoding.Base64
use face_recognition_proxy.Encoding.Hex
use face_recognition_proxy.AccessControl.{Readers}
use face_recognition_proxy.AccessControl.Event.{extract}
use face_recognition_proxy.AccessControl.Form.{FormPart, is_picture_part, multipart_form_parts}
use face_recognition_proxy.PushSdk.Wire.{ℤ, pos, negsuc}

abbrev pub max_picture_bytes : ℕ
max_picture_bytes = 5_242_880

pub record Attachment : Type 0 where
  pub content_type : String
  pub byte_size : ℕ
  pub sha256 : Bytes
  pub data_base64 : Bytes

-- The attachment; no picture, and none expected; or why a picture cannot be had.
pub data Availability : Type 0 where
  available : Attachment → Availability
  not_provided : Availability
  unavailable : String → Availability

-- The declared number of pictures.
abbrev pub counts_to : Option ℤ → ℕ → Bool
counts_to (some (pos n)) expected = n == expected
counts_to _ expected = false

abbrev pub unsupported_count : Option ℤ → Bool
unsupported_count none = false
unsupported_count (some (pos n)) = ltb 1 n
unsupported_count (some (negsuc _)) = true

-- The loop over the parts: the contents of the one Picture part.
unfoldable pub picture_contents : Option Bytes → List FormPart → Result String (Option Bytes)
picture_contents found [] = ok found
picture_contents found (part ∷ parts) =
    let skipped = picture_contents found parts in
    let taken = picture_contents (some part.contents) parts in
    if not (part.name == "Picture") then skipped else elim found [
      | some _ ↦ err "invalid_picture"
      | none ↦ if not (is_picture_part part) then err "invalid_picture" else taken
    ]

abbrev is_empty_picture : Option Bytes → Bool
is_empty_picture (some []) = true
is_empty_picture _ = false

-- 40,000,000 pixels at most, and both sides positive.
abbrev has_size : Option (ℤ × ℤ) → Bool
has_size (some (pos width, pos height)) =
    ltb 0 width && ltb 0 height && not (ltb 40_000_000 (width * height))
has_size _ = false

module _ (r : Readers) where
  unfoldable pub raw_picture : String → String → Result String (Option Bytes)
  unfolding picture_contents
  raw_picture format payload = if not (format == "boundaryData") then ok none else do
    decoded ← require (Base64.decode (utf8 payload)) "invalid_multipart"
    parts ← require (multipart_form_parts r decoded) "invalid_multipart"
    found ← picture_contents none parts
    refuse (is_empty_picture found) "invalid_picture"
    ok found

  unfoldable pub judge_picture : Option ℤ → Option Bytes → Result String (Option Attachment)
  judge_picture count none = do refuse (counts_to count 1) "missing_picture"; ok none
  judge_picture count (some raw) = do
    refuse (counts_to count 0) "invalid_picture"
    refuse (ltb max_picture_bytes (length raw)) "picture_too_large"
    refuse (not (has_size (r.jpeg_config raw))) "invalid_jpeg"
    refuse (not (r.jpeg_decodes raw)) "invalid_jpeg"
    ok (
        some (record {
          content_type = "image/jpeg";
          byte_size = length raw;
          sha256 = Hex.encode (r.sha256_sum raw);
          data_base64 = Base64.encode raw;
        }))

  unfoldable pub find_picture : String → String → Result String (Option Attachment)
  unfolding raw_picture judge_picture
  find_picture format payload = do
    projection ← require (extract r format payload) "invalid_multipart"
    refuse (unsupported_count projection.pictures_number) "unsupported_picture_count"
    raw ← raw_picture format payload
    judge_picture projection.pictures_number raw

  abbrev availability_of : Result String (Option Attachment) → Availability
  availability_of (err reason) = unavailable reason
  availability_of (ok none) = not_provided
  availability_of (ok (some attachment)) = available attachment

  unfoldable pub delivery_picture : String → String → Availability
  unfolding find_picture
  delivery_picture format payload = availability_of (find_picture format payload)
