-- ===== src/AccessControl/Form/Exactly.antt =====
-- The one part of a form that has a name: `accessControllerEventPart` and `ExtractPicture`.
use text.Mathlib.TextEquality.{eq_iff}
use face_recognition_proxy.Prelude.{
  ◌≡◌, ◌≢◌, ◌↔◌, refl, Bool, true, Option, none, some, List, [], ◌∷◌, String, Bytes, utf8, arith,
  string_eq, ◌==◌, Bool-cases, Option-cases, inl, inr, if◌then◌else◌,
}
use face_recognition_proxy.Encoding.Base64
use face_recognition_proxy.AccessControl.{Readers}
use face_recognition_proxy.AccessControl.Form.{
  FormPart, EventPicture, only_part, is_picture_part, picture_of, multipart_form_parts,
  extract_picture,
}

-- The parts with a name.
unfoldable pub named : String → List FormPart → List FormPart
named name [] = []
named name (part ∷ parts) =
    let rest = named name parts in if part.name == name then part ∷ rest else rest

abbrev after : Option FormPart → List FormPart → List FormPart
after none parts = parts
after (some found) parts = found ∷ parts

abbrev FoundValid : (FormPart → Bool) → Option FormPart → Type 0
FoundValid valid none = Unit
FoundValid valid (some found) = valid found ≡ true

module _ (name : String) (valid : FormPart → Bool) where
  only_from :
      (found : Option FormPart) (parts : List FormPart) (part : FormPart)
      → FoundValid valid found
      → only_part name valid found parts ≡ some part
      → (after found (named name parts) ≡ part ∷ []) × (valid part ≡ true)
  unfolding only_part named
  only_from none [] part ready h = cc
  only_from (some found) [] part ready h = ground arith
  only_from none (x ∷ parts) part ready h = elim (Bool-cases (x.name == name)) [
    | inr e ↦ rw e (only_from none parts part tt (ground arith))
    | inl e ↦
        let good : valid x ≡ true = ground arith in
        rw e (only_from (some x) parts part good (ground arith))
  ]
  only_from (some found) (x ∷ parts) part ready h = elim (Bool-cases (x.name == name)) [
    | inr e ↦ rw e (only_from (some found) parts part ready (ground arith))
    | inl e ↦ absurd (ground arith)
  ]

  only_to :
      (found : Option FormPart) (parts : List FormPart) (part : FormPart)
      → after found (named name parts) ≡ part ∷ []
      → valid part ≡ true
      → only_part name valid found parts ≡ some part
  unfolding only_part named
  only_to none [] part h good = cc
  only_to (some found) [] part h good = ground arith
  only_to none (x ∷ parts) part h good = elim (Bool-cases (x.name == name)) [
    | inr e ↦ rw e (only_to none parts part (ground arith) good)
    | inl e ↦
        let same : x ≡ part = ground arith in
        rw (e, same, good) (only_to (some part) parts part (ground arith) good)
  ]
  only_to (some found) (x ∷ parts) part h good = elim (Bool-cases (x.name == name)) [
    | inr e ↦ rw e (only_to (some found) parts part (ground arith) good)
    | inl e ↦ absurd (ground arith)
  ]

  pub only_part-eq-some_iff :
      (parts : List FormPart) (part : FormPart)
      → (only_part name valid none parts ≡ some part)
        ↔ ((named name parts ≡ part ∷ []) × (valid part ≡ true))
  only_part-eq-some_iff parts part =
      (only_from none parts part tt, λ (one, good). only_to none parts part one good)

module _ (r : Readers) where
  -- The one Picture part, and what is made of it.
  abbrev pub HasPicture : String → EventPicture → Type 0
  HasPicture payload_base64 picture =
      (payload : Bytes) × (Base64.decode (utf8 payload_base64) ≡ some payload)
      × ((parts : List FormPart) × (multipart_form_parts r payload ≡ some parts)
          × ((part : FormPart) × (named "Picture" parts ≡ part ∷ [])
              × (part.media_type ≡ "image/jpeg")
              × (part.file_name ≢ "")
              × (picture ≡ picture_of r part)))

  picture_valid :
      (part : FormPart)
      → (is_picture_part part ≡ true) ↔ ((part.media_type ≡ "image/jpeg") × (part.file_name ≢ ""))
  picture_valid part = (
    λ h. (
      (eq_iff part.media_type "image/jpeg").0 (ground arith),
      λ e. ground (arith, eq_iff part.file_name ""),
    ),
    λ (kind, some_name). elim (Bool-cases (part.file_name == "")) [
      | inl e ↦ absurd (some_name ((eq_iff part.file_name "").0 e))
      | inr e ↦ rw e (ground (arith, eq_iff part.media_type "image/jpeg"))
    ],
  )

  picture_from :
      (data_format payload_base64 : String) (picture : EventPicture)
      → extract_picture r data_format payload_base64 ≡ some picture
      → (data_format ≡ "boundaryData") × HasPicture payload_base64 picture
  unfolding extract_picture
  picture_from data_format payload_base64 picture h =
      elim (Bool-cases (data_format == "boundaryData")) [
        | inr e ↦ absurd (ground arith)
        | inl e ↦ elim (Option-cases (Base64.decode (utf8 payload_base64))) [
          | inl e1 ↦ absurd (ground arith)
          | inr (payload, e1) ↦ elim (Option-cases (multipart_form_parts r payload)) [
            | inl e2 ↦ absurd (ground arith)
            | inr (parts, e2) ↦
                elim (Option-cases (only_part "Picture" is_picture_part none parts)) [
                  | inl e3 ↦ absurd (ground arith)
                  | inr (part, e3) ↦
                      let (one, good) =
                        (only_part-eq-some_iff "Picture" is_picture_part parts part).0 e3 in
                      let (kind, some_name) = (picture_valid part).0 good in
                      (
                        (eq_iff data_format "boundaryData").0 e,
                        (payload, e1, (parts, e2, (part, one, kind, some_name, ground arith))),
                      )
                ]
          ]
        ]
      ]

  -- A picture is extracted exactly if the data is a readable MIME form in base64 with exactly one
  -- part named Picture, which declares image/jpeg and a file name; the picture has the part's
  -- headers and the base64 text of its contents.
  pub extract_picture-eq-some_iff :
      (data_format payload_base64 : String) (picture : EventPicture)
      → (extract_picture r data_format payload_base64 ≡ some picture)
        ↔ ((data_format ≡ "boundaryData") × HasPicture payload_base64 picture)
  unfolding extract_picture
  extract_picture-eq-some_iff data_format payload_base64 picture = (
    picture_from data_format payload_base64 picture,
    λ (form, (payload, e1, (parts, e2, (part, one, kind, some_name, made)))).
        let e3 =
          (only_part-eq-some_iff "Picture" is_picture_part parts part).1
            (one, (picture_valid part).1 (kind, some_name)) in
        rw (form, e1, e2, e3, made) refl,
  )
