-- ===== src/Store/IsapiCommands/Queueing/Fresh.antt =====
-- A new command and the commands that are there.
use Prim.Native.Char.{Char, code}
use text.Mathlib.TextEquality.{eq_iff}
use face_recognition_proxy.Prelude.{
  ℕ, zero, suc, ◌≡◌, leb, ◌||◌, all, get_or, length, nat_eq, refl, Bool, true, false, not, Option,
  none, some, List, [], ◌∷◌, String, Bytes, codes, arith, string_eq, ◌==◌, Bool-cases, inl, inr,
  is_lower_hex,
}
use face_recognition_proxy.Prelude.Table.{get}
use face_recognition_proxy.Result.{Result, ok, err, refuse, require, >>=-eq-ok}
use face_recognition_proxy.PushSdk.Commands.{is_command_uuid}
use face_recognition_proxy.Store.Tables.{Activity, Db}
use face_recognition_proxy.Store.Terminals.{insert_gateway_activity}
use face_recognition_proxy.Store.IsapiCommands.{IsapiCommand, Queues, find_command, set_commands}
use face_recognition_proxy.Store.IsapiCommands.Moves.{Follows, Moves-refl}
use face_recognition_proxy.Store.IsapiCommands.Queueing.{
  NewIsapiCommand, digits, hex_char, uuid_text, new_isapi_command_uuid, insert_command,
  queued_command, queue_isapi_command_tx, has_identity, is_known, is_row, refusing,
}

all_at :
    (p : Char → Bool) (cs : List Char) (n : ℕ) (d : Char)
    → all p cs ≡ true
    → p d ≡ true
    → p (get_or cs n d) ≡ true
all_at p [] n d h default = default
all_at p (c ∷ cs) zero d h default = ground arith
all_at p (c ∷ cs) (suc n) d h default = all_at p cs n d (ground arith) default

hex_char-is_lower_hex : (n : ℕ) → is_lower_hex (code (hex_char n)) ≡ true
hex_char-is_lower_hex n = all_at (λ c. is_lower_hex (code c)) digits n "0" refl refl

uuid_text-is_command_uuid : (b : ℕ → ℕ) → is_command_uuid (codes (uuid_text b)) ≡ true
unfolding is_command_uuid
uuid_text-is_command_uuid b = simp hex_char-is_lower_hex

-- Every identifier that the gateway makes for a command, from whatever sixteen bytes the random
-- reader delivers, is one that the parser of command results accepts.
pub new_isapi_command_uuid-is_command_uuid :
    (answer : Option Bytes) (uuid : String)
    → new_isapi_command_uuid answer ≡ some uuid
    → is_command_uuid (codes uuid) ≡ true
unfolding new_isapi_command_uuid
new_isapi_command_uuid-is_command_uuid none uuid made = cc
new_isapi_command_uuid-is_command_uuid (some bytes) uuid made =
    elim (Bool-cases (length bytes == 16)) [
      | inl e ↦
          let same : uuid_text (λ i. get_or bytes i 0) ≡ uuid = ground arith in
          rw (← same) (uuid_text-is_command_uuid (λ i. get_or bytes i 0))
      | inr e ↦ absurd (ground arith)
    ]

-- A command under a new identifier, put at its place, hides none of the others.
insert-find :
    (c : IsapiCommand) (uuid : String) (d : IsapiCommand) (ds : List IsapiCommand)
    → find_command c.uuid ds ≡ none
    → find_command uuid ds ≡ some d
    → find_command uuid (insert_command c ds) ≡ some d
unfolding find_command insert_command
insert-find c uuid d [] fresh found = cc
insert-find c uuid d (x ∷ xs) fresh found =
    ground
      (arith, eq_iff c.uuid uuid, eq_iff x.uuid uuid, eq_iff x.uuid c.uuid, insert-find c uuid d xs)

pub insert_command-Follows :
    (c : IsapiCommand) (ds : List IsapiCommand)
    → find_command c.uuid ds ≡ none
    → Follows ds (insert_command c ds)
insert_command-Follows c ds fresh uuid d found =
    (d, insert-find c uuid d ds fresh found, Moves-refl d)

pub refusing-ok {ℓ} : {A : Type ℓ} (r : Result String A) (a : A) → refusing r ≡ ok a → r ≡ ok a
refusing-ok (ok b) a h = ground arith
refusing-ok (err e) a h = cc

unknown : (o : Option IsapiCommand) → is_known o ≡ false → o ≡ none
unknown none h = refl
unknown (some c) h = cc

module _ {S : Type 0} (now : ℕ) where
  -- What is queued stands among the commands, and nothing else but the records has changed.
  abbrev pub Queued : Db (Queues S) → Db (Queues S) → Type 0
  Queued db db' =
      Follows db.queues.commands db'.queues.commands
      × (db'.pushsdk_sessions ≡ db.pushsdk_sessions)
      × (db'.queues.sync ≡ db.queues.sync)

  pub insert_same :
      (event : Activity) (db db' : Db (Queues S)) (a : Activity)
      → insert_gateway_activity now event db ≡ ok (db', a)
      → (db'.queues ≡ db.queues) × (db'.pushsdk_sessions ≡ db.pushsdk_sessions)
  unfolding insert_gateway_activity
  insert_same event db db' a h = (ground arith, ground arith)

  pub queue_isapi_command_tx-Queued :
      (bytes : Option Bytes) (input : NewIsapiCommand) (db db' : Db (Queues S))
      (command : IsapiCommand) (a : Activity)
      → queue_isapi_command_tx now bytes input db ≡ ok (db', (command, a))
      → Queued db db'
  unfolding queue_isapi_command_tx
  queue_isapi_command_tx-Queued bytes input db db' command a h =
      let (_, _, h1) = >>=-eq-ok (refuse (not (has_identity input.created_by)) _) _ h in
      let (_, _, h2) = >>=-eq-ok (refuse (leb input.expires_at now) _) _ h1 in
      let (row, _, h3) =
        >>=-eq-ok (require (get input.terminal_serial_number db.terminals) _) _ h2 in
      let (_, _, h4) = >>=-eq-ok (refuse (not (row.connection_status == "online")) _) _ h3 in
      let (uuid, _, h5) = >>=-eq-ok (require (new_isapi_command_uuid bytes) _) _ h4 in
      let (_, new, h6) =
        >>=-eq-ok (refuse (not (is_row input) || is_known (find_command uuid db.queues.commands)) _)
          _ h5 in
      let command' = queued_command input uuid now in
      let added = set_commands (insert_command command' db.queues.commands) db in
      let ((db1, stored), inserted, h7) =
        >>=-eq-ok (refusing (insert_gateway_activity now _ added)) _ h6 in
      let same : db' ≡ db1 = ground arith in
      let fresh : is_known (find_command uuid db.queues.commands) ≡ false = ground arith in
      let (queues, kept) = insert_same _ added db1 stored (refusing-ok _ _ inserted) in
      rw (same, queues, kept)
        (insert_command-Follows command' db.queues.commands (unknown _ fresh), refl, refl)
