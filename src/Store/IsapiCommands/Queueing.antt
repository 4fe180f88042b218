-- ===== src/Store/IsapiCommands/Queueing.antt =====
-- A new ISAPI command: `QueueISAPICommand`, `queueISAPICommandTx` and `newISAPICommandUUID` of
-- internal/store/isapi_commands.go.
pub mod Fresh
use Prim.Native.Char.{Char}
use Prim.Native.String
use face_recognition_proxy.Prelude.{
  ℕ, ◌+◌, ◌/◌, ◌%◌, Bool, true, false, not, ◌&&◌, ◌||◌, Option, none, some, List, [], ◌∷◌, String,
  Bytes, codes, ltb, leb, nat_eq, string_eq, ◌==◌, if◌then◌else◌, length, get_or,
}
use face_recognition_proxy.Prelude.Table.{get}
use face_recognition_proxy.Result.{Result, ok, err, ◌>>=◌, ◌>>◌, refuse, require}
use face_recognition_proxy.Store.Tables.{Activity, text, Db}
use face_recognition_proxy.Store.Terminals.{insert_gateway_activity}
use face_recognition_proxy.Store.IsapiCommands.{
  IsapiCommand, Queues, queued, find_command, set_commands, activity, command_fields,
}

pub record AdminIdentity : Type 0 where
  pub id : ℕ
  pub username : String

pub record NewIsapiCommand : Type 0 where
  pub terminal_serial_number : String
  pub created_by : AdminIdentity
  pub method : String
  pub url : String
  pub data_format : String
  pub payload : Bytes
  pub expires_at : ℕ

-- An error of the code's own, and one of the database, after which the transaction takes no further
-- statement.
pub data QueueError : Type 0 where
  refused aborted : String → QueueError

abbrev pub digits : List Char
digits =
    "0" ∷ "1" ∷ "2" ∷ "3" ∷ "4" ∷ "5" ∷ "6" ∷ "7" ∷ "8" ∷ "9" ∷ "a" ∷ "b" ∷ "c" ∷ "d" ∷ "e" ∷ "f"
    ∷ []

-- One hexadecimal digit, and two of a byte, before a text.
abbrev pub hex_char : ℕ → Char
hex_char n = get_or digits n "0"

abbrev hex : ℕ → String → String
hex b rest = String.◌∷◌ (hex_char (b / 16)) (String.◌∷◌ (hex_char (b % 16)) rest)

abbrev dash : String → String
dash rest = String.◌∷◌ "-" rest

-- Sixteen random bytes with the version and the variant of a random identifier.
abbrev pub uuid_text : (ℕ → ℕ) → String
uuid_text b =
    let node = hex (b 10) (hex (b 11) (hex (b 12) (hex (b 13) (hex (b 14) (hex (b 15) ""))))) in
    let clock = dash (hex (b 8 % 64 + 0x80) (hex (b 9) (dash node))) in
    let high = dash (hex (b 6 % 16 + 0x40) (hex (b 7) clock)) in
    hex (b 0) (hex (b 1) (hex (b 2) (hex (b 3) (dash (hex (b 4) (hex (b 5) high))))))

-- The random reader's answer: sixteen bytes, or a failure.
unfoldable pub new_isapi_command_uuid : Option Bytes → Option String
new_isapi_command_uuid none = none
new_isapi_command_uuid (some bytes) =
    if length bytes == 16 then some (uuid_text (λ i. get_or bytes i 0)) else none

-- The order of bytes.
unfoldable pub is_before : Bytes → Bytes → Bool
is_before xs [] = false
is_before [] (y ∷ ys) = true
is_before (x ∷ xs) (y ∷ ys) = ltb x y || (x == y && is_before xs ys)

-- `ORDER BY created_at ASC, uuid ASC`
abbrev comes_before : IsapiCommand → IsapiCommand → Bool
comes_before c d =
    ltb c.created_at d.created_at
    || (c.created_at == d.created_at && is_before (codes c.uuid) (codes d.uuid))

unfoldable pub insert_command : IsapiCommand → List IsapiCommand → List IsapiCommand
insert_command c [] = c ∷ []
insert_command c (d ∷ ds) = if comes_before c d then c ∷ d ∷ ds else d ∷ insert_command c ds

-- The checks of the table on a queued row.
abbrev pub is_method : String → Bool
is_method m = m == "GET" || m == "POST" || m == "PUT" || m == "DELETE"

unfoldable pub starts_with : Bytes → Bytes → Bool
starts_with [] ys = true
starts_with (x ∷ xs) [] = false
starts_with (x ∷ xs) (y ∷ ys) = x == y && starts_with xs ys

abbrev pub is_url : String → Bool
is_url url =
    leb 8 (length (codes url))
    && leb (length (codes url)) 4096
    && starts_with (codes "/ISAPI/") (codes url)

abbrev pub fits_format : String → Bytes → Bool
fits_format format payload =
    if format == "noData"
    then length payload == 0
    else (format == "jsonData" || format == "xmlData" || format == "boundaryData")
      && ltb 0 (length payload)

abbrev pub is_row : NewIsapiCommand → Bool
is_row input =
    is_method input.method && is_url input.url && fits_format input.data_format input.payload

abbrev pub queued_command : NewIsapiCommand → String → ℕ → IsapiCommand
queued_command input uuid now = record {
  uuid = uuid;
  terminal_serial_number = input.terminal_serial_number;
  created_by_username = input.created_by.username;
  method = input.method;
  url = input.url;
  data_format = input.data_format;
  request_data = input.payload;
  status = queued;
  created_at = now;
  expires_at = input.expires_at;
  sent_at = none;
  completed_at = none;
  response_data_format = none;
  response_data_format_declared = none;
  response_data_base64 = none;
}

abbrev pub is_known : Option IsapiCommand → Bool
is_known none = false
is_known (some _) = true

abbrev pub refusing {ℓ} : {A : Type ℓ} → Result String A → Result QueueError A
refusing (ok a) = ok a
refusing (err e) = err (refused e)

abbrev pub has_identity : AdminIdentity → Bool
has_identity identity = not (identity.id == 0) && not (identity.username == "")

abbrev pub error_text : QueueError → String
error_text (refused e) = e
error_text (aborted e) = e

abbrev pub as_error {ℓ} : {A : Type ℓ} → Result QueueError A → Result String A
as_error (ok a) = ok a
as_error (err e) = err (error_text e)

module _ {S : Type 0} (now : ℕ) where
  unfoldable pub queue_isapi_command_tx :
      Option Bytes
      → NewIsapiCommand
      → Db (Queues S)
      → Result QueueError (Db (Queues S) × (IsapiCommand × Activity))
  unfolding starts_with
  queue_isapi_command_tx bytes input db = do
    refuse (not (has_identity input.created_by))
        (refused "ISAPI command administrator identity is required")
    refuse (leb input.expires_at now) (refused "ISAPI command expiry must be in the future")
    row ←
        require (get input.terminal_serial_number db.terminals)
          (refused "ISAPI command terminal is not registered")
    refuse (not (row.connection_status == "online")) (refused "ISAPI command terminal is offline")
    uuid ← require (new_isapi_command_uuid bytes) (refused "generate ISAPI command UUID")
    refuse (not (is_row input) || is_known (find_command uuid db.queues.commands))
        (aborted "insert ISAPI command")
    let command = queued_command input uuid now
    (db1, stored) ← refusing (
        insert_gateway_activity now
          (activity "admin.isapi_command_queued" input.terminal_serial_number
            "administrator queued an ISAPI command"
            (command_fields command (("issuedBy", text command.created_by_username) ∷ [])))
          (set_commands (insert_command command db.queues.commands) db))
    ok (db1, (command, stored))

  unfoldable pub queue_isapi_command :
      Option Bytes
      → NewIsapiCommand
      → Db (Queues S)
      → Result String (Db (Queues S) × (IsapiCommand × Activity))
  queue_isapi_command bytes input db = do
    refuse (not (has_identity input.created_by)) "ISAPI command administrator identity is required"
    refuse (leb input.expires_at now) "ISAPI command expiry must be in the future"
    as_error (queue_isapi_command_tx bytes input db)
