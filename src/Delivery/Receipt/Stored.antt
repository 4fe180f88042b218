-- ===== src/Delivery/Receipt/Stored.antt =====
-- What an accepted receipt says.
use text.Mathlib.TextEquality.{eq_iff}
use text.Mathlib.TextPositions.{eq_refl}
use face_recognition_proxy.Prelude.{
  ℕ, ◌+◌, ◌≡◌, ◌≤◌, ◌⊎◌, inl, inr, Bool, true, false, ◌&&◌, Option, none, some, List, [], ◌∷◌,
  String, Bytes, arith, nat_eq, string_eq, ◌==◌, if◌then◌else◌, length, Option-cases, Bool-cases,
}
use face_recognition_proxy.Prelude.Table.{get, score}
use face_recognition_proxy.Delivery.Receipt.{
  JsonValue, is_text, is_number, accepts, seen_name, read_members, valid_receipt, expected_fields,
}

abbrev is_there : (JsonValue → Bool) → Option JsonValue → Bool
is_there good none = false
is_there good (some value) = good value

read_members-length :
    (accept : String → JsonValue → Bool) (seen : List String) (members : List (String × JsonValue))
    (all_seen : List String)
    → read_members accept seen members ≡ some all_seen
    → length all_seen ≡ length members + length seen
unfolding read_members
read_members-length accept seen [] all_seen h = ground arith
read_members-length accept seen ((name, value) ∷ members) all_seen h =
    ground (arith, read_members-length accept (name ∷ seen) members all_seen)

-- The value under each name is accepted.
accepted_under :
    (accept : String → JsonValue → Bool) (seen : List String) (members : List (String × JsonValue))
    (all_seen : List String) (name : String) (value : JsonValue)
    → read_members accept seen members ≡ some all_seen
    → get name members ≡ some value
    → accept name value ≡ true
unfolding read_members get
accepted_under accept seen [] all_seen name value h found = cc
accepted_under accept seen ((n, v) ∷ members) all_seen name value h found =
    elim (Bool-cases (n == name)) [
      | inl same ↦
          let n≡ : n ≡ name = (eq_iff n name).0 same in
          let v≡ : v ≡ value = ground arith in rw (← n≡, ← v≡) (ground arith)
      | inr other ↦
          accepted_under accept (n ∷ seen) members all_seen name value (ground arith) (ground arith)
    ]

-- Whether a name that was not seen before is among the members.
slot : List String → List (String × JsonValue) → String → ℕ
slot seen members name = if seen_name name seen then 0 else score (λ _. 1) (get name members)

-- A member takes its own slot and no other.
takes :
    (seen : List String) (name : String) (value : JsonValue) (members : List (String × JsonValue))
    → seen_name name seen ≡ false
    → slot (name ∷ seen) members name + 1 ≤ slot seen ((name, value) ∷ members) name
unfolding slot seen_name get
takes seen name value members new = ground (arith, eq_refl name)

leaves :
    (seen : List String) (name : String) (value : JsonValue) (members : List (String × JsonValue))
    (n : String)
    → slot (name ∷ seen) members n ≤ slot seen ((name, value) ∷ members) n
unfolding slot seen_name get
leaves seen name value members n = ground arith

abbrev IsExpected : String → String → Type 0
IsExpected attachment_id name =
    ((name ≡ "attachmentId") × ((attachment_id == "") ≡ false))
    ⊎ (name ≡ "schemaVersion")
    ⊎ (name ≡ "eventId")
    ⊎ (name ≡ "receipt")

accepts-IsExpected :
    (event_id : String) (version : ℕ) (attachment_id name : String) (value : JsonValue)
    → accepts event_id version attachment_id name value ≡ true
    → IsExpected attachment_id name
unfolding accepts
accepts-IsExpected event_id version attachment_id name value h = ground (
  arith,
  eq_iff name "receipt",
  eq_iff name "eventId",
  eq_iff name "schemaVersion",
  eq_iff name "attachmentId",
)

abbrev slots : String → List String → List (String × JsonValue) → ℕ
slots attachment_id seen members =
    (if attachment_id == "" then 0 else slot seen members "attachmentId")
    + slot seen members "schemaVersion"
    + slot seen members "eventId"
    + slot seen members "receipt"

fewer :
    (attachment_id : String) (seen : List String) (name : String) (value : JsonValue)
    (members : List (String × JsonValue))
    → seen_name name seen ≡ false
    → IsExpected attachment_id name
    → slots attachment_id (name ∷ seen) members + 1
      ≤ slots attachment_id seen ((name, value) ∷ members)
fewer attachment_id seen name value members new expected =
    let l = leaves seen name value members in
    let t = takes seen name value members new in
    ground (arith, l "attachmentId", l "schemaVersion", l "eventId", l "receipt", t)

-- The names are distinct, so that there are no more members than names that can be there.
room :
    (event_id : String) (version : ℕ) (attachment_id : String) (seen : List String)
    (members : List (String × JsonValue)) (all_seen : List String)
    → read_members (accepts event_id version attachment_id) seen members ≡ some all_seen
    → length members ≤ slots attachment_id seen members
unfolding read_members
room event_id version attachment_id seen [] all_seen h = omega arith
room event_id version attachment_id seen ((name, value) ∷ members) all_seen h =
    elim (Bool-cases (seen_name name seen)) [
      | inl again ↦ absurd (ground arith)
      | inr new ↦ elim (Bool-cases (accepts event_id version attachment_id name value)) [
        | inr refused ↦ absurd (ground arith)
        | inl good ↦
            let more =
              room event_id version attachment_id (name ∷ seen) members all_seen (ground arith) in
            let wanted = accepts-IsExpected event_id version attachment_id name value good in
            let step = fewer attachment_id seen name value members new wanted in omega arith
      ]
    ]

abbrev IsThere : List (String × JsonValue) → String → (JsonValue → Bool) → Type 0
IsThere members name good =
    (value : JsonValue) × (get name members ≡ some value) × (good value ≡ true)

-- A receipt is accepted only if it is one object, of these members and no other, that says "stored"
-- of the event, under the schema version, and for an attachment's receipt of that attachment.
abbrev pub SaysStored : String → ℕ → String → Option (List (String × JsonValue) × Bool) → Type 0
SaysStored event_id version attachment_id none = ⊥
SaysStored event_id version attachment_id (some (members, at_end)) =
    (at_end ≡ true)
    × (length members ≡ expected_fields attachment_id)
    × IsThere members "receipt" (is_text "stored")
    × IsThere members "eventId" (is_text event_id)
    × IsThere members "schemaVersion" (is_number version)
    × (((attachment_id == "") ≡ true) ⊎ IsThere members "attachmentId" (is_text attachment_id))

full :
    (event_id : String) (version : ℕ) (attachment_id : String) (name : String)
    (members : List (String × JsonValue)) (all_seen : List String)
    → read_members (accepts event_id version attachment_id) [] members ≡ some all_seen
    → slot [] members name ≡ 1
    → (value : JsonValue) × (get name members ≡ some value)
      × (accepts event_id version attachment_id name value ≡ true)
unfolding slot seen_name
full event_id version attachment_id name members all_seen h there =
    elim (Option-cases (get name members)) [
      | inl gone ↦ absurd (ground arith)
      | inr (value, found) ↦ (
        value,
        found,
        accepted_under (accepts event_id version attachment_id) [] members all_seen name value h
            found,
      )
    ]

slot-le : (members : List (String × JsonValue)) (name : String) → slot [] members name ≤ 1
unfolding slot seen_name
slot-le members name = ground arith

says_stored :
    (event_id : String) (version : ℕ) (attachment_id : String) (members : List (String × JsonValue))
    (at_end : Bool) (all_seen : List String)
    → read_members (accepts event_id version attachment_id) [] members ≡ some all_seen
    → (length all_seen == expected_fields attachment_id && at_end) ≡ true
    → SaysStored event_id version attachment_id (some (members, at_end))
unfolding accepts
says_stored event_id version attachment_id members at_end all_seen h complete =
    let size = read_members-length _ [] members all_seen h in
    let roomy = room event_id version attachment_id [] members all_seen h in
    let le = slot-le members in
    let receipt_there : slot [] members "receipt" ≡ 1 =
      ground (arith, le "attachmentId", le "schemaVersion", le "eventId", le "receipt") in
    let event_there : slot [] members "eventId" ≡ 1 =
      ground (arith, le "attachmentId", le "schemaVersion", le "eventId", le "receipt") in
    let version_there : slot [] members "schemaVersion" ≡ 1 =
      ground (arith, le "attachmentId", le "schemaVersion", le "eventId", le "receipt") in
    (
      ground arith,
      ground arith,
      full event_id version attachment_id "receipt" members all_seen h receipt_there,
      full event_id version attachment_id "eventId" members all_seen h event_there,
      full event_id version attachment_id "schemaVersion" members all_seen h version_there,
      elim (Bool-cases (attachment_id == "")) [
        | inl plain ↦ inl plain
        | inr attached ↦
            let attachment_there : slot [] members "attachmentId" ≡ 1 =
              ground (arith, le "attachmentId", le "schemaVersion", le "eventId", le "receipt") in
            let (value, found, good) =
              full event_id version attachment_id "attachmentId" members all_seen h
                attachment_there in
            inr (value, found, ground arith)
      ],
    )

-- A receipt is accepted only if the body is one object and nothing more, with exactly the expected
-- number of members, that says "stored" of the event under the schema version, and, for an
-- attachment's receipt, of that attachment.
pub valid_receipt-SaysStored :
    (read_object : Bytes → Option (List (String × JsonValue) × Bool)) (body : Bytes)
    (event_id : String) (version : ℕ) (attachment_id : String)
    → valid_receipt read_object body event_id version attachment_id ≡ true
    → SaysStored event_id version attachment_id (read_object body)
unfolding valid_receipt
valid_receipt-SaysStored read_object body event_id version attachment_id h =
    elim (Option-cases (read_object body)) [
      | inl e ↦ absurd (ground arith)
      | inr ((members, at_end), e) ↦
          rw e
            (elim (Option-cases
              (read_members (accepts event_id version attachment_id) [] members)) [
                | inl refused ↦ absurd (ground arith)
                | inr (all_seen, read) ↦
                    says_stored event_id version attachment_id members at_end all_seen read
                      (ground arith)
              ])
    ]
