-- ===== src/Store/IsapiCommands/Lifecycle.antt =====
-- What the transactions of the command queue do to the commands and to the session checkpoints.
use text.Mathlib.TextEquality.{eq_iff}
use face_recognition_proxy.Prelude.{
  ℕ, ◌≡◌, refl, sym, ◌∙◌, Bool, true, ◌||◌, Option, some, List, [], ◌∷◌, String, arith, string_eq,
  ◌==◌, if◌then◌else◌, Bool-cases, inl, inr, ltb,
}
use face_recognition_proxy.Result.{ok, refuse, require, >>=-eq-ok}
use face_recognition_proxy.PushSdk.Commands.{IsapiCommandDelivery, IsapiCommandResult}
use face_recognition_proxy.Store.Tables.{Activity, Db}
use face_recognition_proxy.Store.Terminals.{insert_gateway_activity}
use face_recognition_proxy.Store.IsapiCommands.{
  CommandStatus, queued, sent, completed, expired, IsapiCommand, Queues, SyncStore, is_overdue,
  expire, send_now, complete, update_rows, claim_rows, find_command, set_commands, was_sent,
  is_claimable, note_expired, expire_overdue, note_sent, claim_isapi_commands, find_result_row,
  complete_sent, complete_found, complete_each, complete_isapi_commands, expired_activity,
}
use face_recognition_proxy.Store.IsapiCommands.Moves.{
  Moves, Follows, Follows-refl, Follows-trans, Moves-refl, update_rows-Follows, claim_rows-Follows,
}

-- The commands follow, and no session checkpoint is written.
abbrev pub Kept : {S : Type 0} → Db (Queues S) → Db (Queues S) → Type 0
Kept db db' =
    Follows db.queues.commands db'.queues.commands × (db'.pushsdk_sessions ≡ db.pushsdk_sessions)

-- The synchronisation may add commands, but leaves those that are there as they may move.
pub record SyncLaws (s : SyncStore) : Type 0 where
  pub fail_keeps :
      (uuid : String) (delivered : Bool) (now : ℕ) (db db' : Db (Queues s.S)) (a : List Activity)
      → s.fail_expired uuid delivered now db ≡ ok (db', a)
      → Kept db db'
  pub complete_keeps :
      (serial : String) (result : IsapiCommandResult) (now : ℕ) (db db' : Db (Queues s.S))
      (a : List Activity)
      → s.complete_sync serial result now db ≡ ok (db', a)
      → Kept db db'

module _ {S : Type 0} where
  pub Kept-trans : (db db1 db2 : Db (Queues S)) → Kept db db1 → Kept db1 db2 → Kept db db2
  Kept-trans db db1 db2 (moved, same) (moved', same') = (
    Follows-trans db.queues.commands db1.queues.commands db2.queues.commands moved moved',
    same' ∙ same,
  )

  pub insert-Kept :
      (now : ℕ) (event a : Activity) (db db' : Db (Queues S))
      → insert_gateway_activity now event db ≡ ok (db', a)
      → Kept db db'
  unfolding insert_gateway_activity
  insert-Kept now event a db db' h =
      let same : db'.queues ≡ db.queues = ground arith in
      let kept : db'.pushsdk_sessions ≡ db.pushsdk_sessions = ground arith in
      (rw same (Follows-refl db.queues.commands), kept)

found_uuid :
    (uuid : String) (cs : List IsapiCommand) (c : IsapiCommand)
    → find_command uuid cs ≡ some c
    → c.uuid ≡ uuid
unfolding find_command
found_uuid uuid [] c h = cc
found_uuid uuid (x ∷ cs) c h = ground (arith, eq_iff x.uuid uuid, found_uuid uuid cs c)

-- The first row under an identifier, after an update of the rows under another or the same.
pub find_updated :
    (f : IsapiCommand → IsapiCommand) (uuid v : String)
    → ((d : IsapiCommand) → (f d).uuid ≡ d.uuid)
    → (cs : List IsapiCommand) (d : IsapiCommand) → find_command v cs ≡ some d
    → find_command v (update_rows (λ x. x.uuid == uuid) f cs).1
      ≡ some (if v == uuid then f d else d)
unfolding update_rows find_command
find_updated f uuid v keeps [] d h = cc
find_updated f uuid v keeps (x ∷ cs) d h = ground (
  arith,
  keeps x,
  eq_iff x.uuid v,
  eq_iff v uuid,
  eq_iff x.uuid uuid,
  find_updated f uuid v keeps cs d,
)

update_one-Follows :
    (f : IsapiCommand → IsapiCommand) (uuid : String) (c : IsapiCommand) (cs : List IsapiCommand)
    → find_command uuid cs ≡ some c
    → Moves c (f c)
    → ((d : IsapiCommand) → (f d).uuid ≡ d.uuid)
    → Follows cs (update_rows (λ d. d.uuid == uuid) f cs).1
update_one-Follows f uuid c cs found moved keeps v d h =
    let after = find_updated f uuid v keeps cs d h in
    elim (Bool-cases (v == uuid)) [
      | inl e ↦
          let v≡ : v ≡ uuid = (eq_iff v uuid).0 e in
          let c≡d : some c ≡ some d = sym found ∙ rw (← v≡) h in
          let same : c ≡ d = cc in (f d, rw e at after, rw same at moved)
      | inr e ↦ (d, rw e at after, Moves-refl d)
    ]

module _ (s : SyncStore) (laws : SyncLaws s) (now : ℕ) where
  open s use {S}

  note_expired-Kept :
      (cs : List IsapiCommand) (db db' : Db (Queues S)) (a : List Activity)
      → note_expired s now cs db ≡ ok (db', a)
      → Kept db db'
  unfolding note_expired
  note_expired-Kept [] db db' a h =
      let same : db' ≡ db = ground arith in rw same (Follows-refl db.queues.commands, refl)
  note_expired-Kept (c ∷ cs) db db' a h =
      let ((db1, stored), first, h1) =
        >>=-eq-ok (insert_gateway_activity now (expired_activity c) db) _ h in
      let ((db2, synced), second, h2) =
        >>=-eq-ok (s.fail_expired c.uuid (was_sent c) now db1) _ h1 in
      let ((db3, rest), third, h3) = >>=-eq-ok (note_expired s now cs db2) _ h2 in
      let same : db' ≡ db3 = ground arith in
      rw same (
        Kept-trans db db1 db3 (insert-Kept now (expired_activity c) stored db db1 first) (
          Kept-trans db1 db2 db3 (laws.fail_keeps c.uuid (was_sent c) now db1 db2 synced second)
            (note_expired-Kept cs db2 db3 rest third)))

  overdue-Moves :
      (serial : Option String) (c : IsapiCommand)
      → is_overdue serial now c ≡ true
      → Moves c (expire now c)
  overdue-Moves serial c h = ground arith

  -- Under the same law of the synchronisation, the expiry of overdue commands leaves every
  -- command with its request unchanged, its status gone only forward, and unchanged altogether if
  -- it was completed or expired; no session checkpoint is written.
  expire_overdue-Kept :
      (serial : Option String) (db db' : Db (Queues S)) (a : List Activity)
      → expire_overdue s now serial db ≡ ok (db', a)
      → Kept db db'
  unfolding expire_overdue
  expire_overdue-Kept serial db db' a h =
      let rows = update_rows (is_overdue serial now) (expire now) db.queues.commands in
      Kept-trans db (set_commands rows.1 db) db'
        (
          update_rows-Follows (is_overdue serial now) (expire now) (overdue-Moves serial)
              db.queues.commands,
          refl,
        )
        (note_expired-Kept rows.0 (set_commands rows.1 db) db' a h)

  note_sent-Kept :
      (serial : String) (cs : List IsapiCommand) (db db' : Db (Queues S)) (a : List Activity)
      → note_sent s now serial cs db ≡ ok (db', a)
      → Kept db db'
  unfolding note_sent
  note_sent-Kept serial [] db db' a h =
      let same : db' ≡ db = ground arith in rw same (Follows-refl db.queues.commands, refl)
  note_sent-Kept serial (c ∷ cs) db db' a h =
      let ((db1, stored), first, h1) = >>=-eq-ok (insert_gateway_activity now _ db) _ h in
      let ((db2, rest), second, h2) = >>=-eq-ok (note_sent s now serial cs db1) _ h1 in
      let same : db' ≡ db2 = ground arith in
      rw same (
        Kept-trans db db1 db2 (insert-Kept now _ stored db db1 first)
          (note_sent-Kept serial cs db1 db2 rest second))

  claimable-Moves :
      (serial : String) (c : IsapiCommand)
      → is_claimable serial now c ≡ true
      → Moves c (send_now now c)
  claimable-Moves serial c h = ground arith

  -- Under the same law of the synchronisation, a claim that succeeds leaves every command with
  -- its request unchanged, its status gone only forward, and unchanged altogether if it was
  -- completed or expired; no session checkpoint is written.
  pub claim_isapi_commands-Kept :
      (serial : String) (limit : ℕ) (db db' : Db (Queues S))
      (answer : List IsapiCommandDelivery × List Activity)
      → claim_isapi_commands s now serial limit db ≡ ok (db', answer)
      → Kept db db'
  unfolding claim_isapi_commands
  claim_isapi_commands-Kept serial limit db db' answer h =
      let (_, _, h0) =
        >>=-eq-ok
          (refuse (ltb limit 1 || ltb 20 limit) "ISAPI command delivery limit must be 1..20") _ h in
      let ((db1, expirations), first, h1) =
        >>=-eq-ok (expire_overdue s now (some serial) db) _ h0 in
      let rows = claim_rows (is_claimable serial now) now limit db1.queues.commands in
      let ((db2, sendings), second, h2) =
        >>=-eq-ok (note_sent s now serial rows.0 (set_commands rows.1 db1)) _ h1 in
      let same : db' ≡ db2 = ground arith in
      rw same (
        Kept-trans db db1 db2 (expire_overdue-Kept (some serial) db db1 expirations first) (
          Kept-trans db1 (set_commands rows.1 db1) db2
            (
              claim_rows-Follows (is_claimable serial now) now limit (claimable-Moves serial)
                  db1.queues.commands,
              refl,
            )
            (note_sent-Kept serial rows.0 (set_commands rows.1 db1) db2 sendings second)))

  complete_sent-Kept :
      (serial : String) (result : IsapiCommandResult) (c : IsapiCommand) (db db' : Db (Queues S))
      (a : List Activity)
      → find_command result.uuid db.queues.commands ≡ some c
      → c.status ≡ sent
      → complete_sent s now serial result db ≡ ok (db', a)
      → Kept db db'
  unfolding complete_sent
  complete_sent-Kept serial result c db db' a found was h =
      let rows =
        update_rows (λ d. d.uuid == result.uuid) (complete result now) db.queues.commands in
      let ((db1, stored), first, h1) =
        >>=-eq-ok (insert_gateway_activity now _ (set_commands rows.1 db)) _ h in
      let ((db2, synced), second, h2) = >>=-eq-ok (s.complete_sync serial result now db1) _ h1 in
      let same : db' ≡ db2 = ground arith in
      rw same (
        Kept-trans db (set_commands rows.1 db) db2
          (
            update_one-Follows (complete result now) result.uuid c db.queues.commands found
                (ground arith) (λ d. refl),
            refl,
          )
          (Kept-trans (set_commands rows.1 db) db1 db2
            (insert-Kept now _ stored (set_commands rows.1 db) db1 first)
            (laws.complete_keeps serial result now db1 db2 synced second)))

  complete_found-Kept :
      (serial : String) (result : IsapiCommandResult) (status : CommandStatus) (c : IsapiCommand)
      (db db' : Db (Queues S)) (a : List Activity)
      → find_command result.uuid db.queues.commands ≡ some c
      → c.status ≡ status
      → complete_found s now serial result status c db ≡ ok (db', a)
      → Kept db db'
  unfolding complete_found
  complete_found-Kept serial result sent c db db' a found was h =
      complete_sent-Kept serial result c db db' a found was h
  complete_found-Kept serial result completed c db db' a found was h =
      let same : db' ≡ db = ground arith in rw same (Follows-refl db.queues.commands, refl)
  complete_found-Kept serial result queued c db db' a found was h = cc
  complete_found-Kept serial result expired c db db' a found was h = cc

  pub found_row :
      (serial : String) (result : IsapiCommandResult) (cs : List IsapiCommand) (c : IsapiCommand)
      → find_result_row s now serial result cs ≡ some c
      → find_command result.uuid cs ≡ some c
  unfolding find_result_row
  found_row serial result cs c h = ground arith

  complete_each-Kept :
      (serial : String) (results : List IsapiCommandResult) (db db' : Db (Queues S))
      (a : List Activity)
      → complete_each s now serial results db ≡ ok (db', a)
      → Kept db db'
  unfolding complete_each
  complete_each-Kept serial [] db db' a h =
      let same : db' ≡ db = ground arith in rw same (Follows-refl db.queues.commands, refl)
  complete_each-Kept serial (result ∷ results) db db' a h =
      let (c, given, h0) =
        >>=-eq-ok (require (find_result_row s now serial result db.queues.commands) _) _ h in
      let found : find_result_row s now serial result db.queues.commands ≡ some c = ground arith in
      let ((db1, one), first, h1) =
        >>=-eq-ok (complete_found s now serial result c.status c db) _ h0 in
      let ((db2, rest), second, h2) = >>=-eq-ok (complete_each s now serial results db1) _ h1 in
      let same : db' ≡ db2 = ground arith in
      rw same (
        Kept-trans db db1 db2
          (complete_found-Kept serial result c.status c db db1 one
            (found_row serial result db.queues.commands c found) refl first)
          (complete_each-Kept serial results db1 db2 rest second))

  -- If what follows a command in the synchronisation leaves commands as they may move and writes
  -- no session checkpoint, a batch of results that is taken leaves every command in the table
  -- with its request, terminal and deadline unchanged, its status gone only forward, and
  -- unchanged altogether if it was completed or expired; no session checkpoint is written.
  pub complete_isapi_commands-Kept :
      (serial : String) (results : List IsapiCommandResult) (db db' : Db (Queues S))
      (answer : List Activity × Bool)
      → complete_isapi_commands s now serial results db ≡ ok (db', answer)
      → Kept db db'
  unfolding complete_isapi_commands
  complete_isapi_commands-Kept serial results db db' answer h =
      let ((db1, expirations), first, h1) = >>=-eq-ok (expire_overdue s now (some serial) db) _ h in
      let ((db2, completions), second, h2) =
        >>=-eq-ok (complete_each s now serial results db1) _ h1 in
      let same : db' ≡ db2 = ground arith in
      rw same (
        Kept-trans db db1 db2 (expire_overdue-Kept (some serial) db db1 expirations first)
          (complete_each-Kept serial results db1 db2 completions second))
