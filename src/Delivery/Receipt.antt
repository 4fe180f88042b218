-- ===== src/Delivery/Receipt.antt =====
-- `validReceipt` of internal/delivery/worker.go.
pub mod Stored
use face_recognition_proxy.Prelude.{
  ℕ, Bool, true, false, not, ◌&&◌, ◌||◌, Option, none, some, List, [], ◌∷◌, String, Bytes, nat_eq,
  string_eq, ◌==◌, if◌then◌else◌, length,
}
use face_recognition_proxy.PushSdk.Wire.{ℤ, pos, negsuc}

-- A value as `Decode` finds it; what is neither a text, an integer nor null decodes into neither.
pub data JsonValue : Type 0 where
  string : String → JsonValue
  integer : ℤ → JsonValue
  null not_read : JsonValue

-- `Decode` into a string, which null leaves empty.
abbrev pub is_text : String → JsonValue → Bool
is_text wanted (string given) = given == wanted
is_text wanted null = wanted == ""
is_text wanted _ = false

-- `Decode` into an int, which null leaves 0.
abbrev pub is_number : ℕ → JsonValue → Bool
is_number wanted (integer (pos given)) = given == wanted
is_number wanted null = wanted == 0
is_number wanted _ = false

-- The `switch name`.
unfoldable pub accepts : String → ℕ → String → String → JsonValue → Bool
accepts event_id schema_version attachment_id name value =
    if name == "attachmentId"
    then not (attachment_id == "") && is_text attachment_id value
    else if name == "schemaVersion"
    then is_number schema_version value
    else if name == "eventId"
    then is_text event_id value
    else if name == "receipt"
    then is_text "stored" value
    else false

unfoldable pub seen_name : String → List String → Bool
seen_name name [] = false
seen_name name (n ∷ names) = n == name || seen_name name names

-- The loop over the members: the names seen, or a refusal.
unfoldable pub read_members :
    (String → JsonValue → Bool) → List String → List (String × JsonValue) → Option (List String)
unfolding seen_name
read_members accept seen [] = some seen
read_members accept seen ((name, value) ∷ members) =
    let rest = read_members accept (name ∷ seen) members in
    if seen_name name seen || not (accept name value) then none else rest

abbrev pub expected_fields : String → ℕ
expected_fields attachment_id = if attachment_id == "" then 3 else 4

-- What the token reader of encoding/json finds: the members of the one object in their order, and
-- whether nothing follows it; `none` if the text is not an object or breaks off.
module _ (read_object : Bytes → Option (List (String × JsonValue) × Bool)) where
  unfoldable pub valid_receipt : Bytes → String → ℕ → String → Bool
  unfolding accepts read_members
  valid_receipt body event_id schema_version attachment_id = elim (read_object body) [
    | none ↦ false
    | some (members, at_end) ↦
        elim (read_members (accepts event_id schema_version attachment_id) [] members) [
          | none ↦ false
          | some seen ↦ length seen == expected_fields attachment_id && at_end
        ]
  ]
