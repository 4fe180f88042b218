-- ===== src/Store/EventSync/Touches.antt =====
-- What a result or an expiry may touch: the one run, new rows of the archive, new commands.
use mathlib.Core.List.{append_assoc, append-nil}
use text.Mathlib.TextEquality.{eq_iff}
use face_recognition_proxy.Prelude.{
  ◌≤◌, length, arith, ℕ, ◌+◌, ◌≡◌, refl, sym, ◌∙◌, ap, false, ◌||◌, Option, none, some, List, [],
  ◌∷◌, ◌++◌, String, Bytes, arith, string_eq, ◌==◌, Bool-cases, Option-cases, inl, inr,
}
use face_recognition_proxy.Prelude.Table.{Table, get, put, get-put}
use face_recognition_proxy.Result.{ok, refuse, >>=-eq-ok}
use face_recognition_proxy.Store.Tables.{Activity}
use face_recognition_proxy.Store.Terminals.{insert_gateway_activity}
use face_recognition_proxy.Store.IsapiCommands.{IsapiCommand}
use face_recognition_proxy.Store.IsapiCommands.Lifecycle.{Kept, Kept-trans}
use face_recognition_proxy.Store.IsapiCommands.Moves.{Follows-refl}
use face_recognition_proxy.Store.IsapiCommands.Queueing.{NewIsapiCommand, queue_isapi_command_tx}
use face_recognition_proxy.Store.IsapiCommands.Queueing.Fresh.{
  insert_same, queue_isapi_command_tx-Queued,
}
use face_recognition_proxy.Store.EventSync.Tables.{
  is_active, SyncRun, SyncLink, RetainedRow, SyncDb, set_sync, set_run, failed_run,
  fail_access_event_sync, link_command, is_linked, is_placed,
}
use face_recognition_proxy.Store.Columns.{fits_columns}
use face_recognition_proxy.Store.EventSync.Pages.{insert_retained_access_events, is_retained}

-- The rows that were there stand at the front.
abbrev pub Grows : List RetainedRow → List RetainedRow → Type 0
Grows rows rows' = (added : List RetainedRow) × (rows' ≡ rows ++ added)

pub Grows-refl : (rows : List RetainedRow) → Grows rows rows
Grows-refl rows = ([], sym (append-nil rows))

pub Grows-trans : (a b c : List RetainedRow) → Grows a b → Grows b c → Grows a c
Grows-trans a b c (x, b≡) (y, c≡) = (x ++ y, rw (c≡, b≡) (append_assoc a x y))

abbrev pub terminal_of : Option SyncRun → Option String
terminal_of none = none
terminal_of (some run) = some run.terminal_serial_number

-- The commands follow, no session checkpoint is written, no other run is changed, and no row of the
-- archive is lost or rewritten; runs stay with their terminals.
abbrev pub Touches : String → SyncDb → SyncDb → Type 0
Touches uuid db db' =
    Kept db db'
    × ((u : String) → (u == uuid) ≡ false → get u db'.queues.sync.runs ≡ get u db.queues.sync.runs)
    × Grows db.queues.sync.retained db'.queues.sync.retained
    × ((u : String)
        → terminal_of (get u db'.queues.sync.runs) ≡ terminal_of (get u db.queues.sync.runs))

pub link_command-eq-ok :
    (command_uuid : String) (link : SyncLink) (db db' : SyncDb)
    → link_command command_uuid link db ≡ ok db'
    → db'
      ≡ set_sync (record (db.queues.sync) { links = put command_uuid link db.queues.sync.links }) db
unfolding link_command
link_command-eq-ok command_uuid link db db' h =
    let (_, _, h1) =
      >>=-eq-ok
        (refuse
          (is_linked (get command_uuid db.queues.sync.links) || is_placed link db.queues.sync.links)
          _)
        _ h in
    ground arith

module _ (uuid : String) where
  pub Touches-refl : (db : SyncDb) → Touches uuid db db
  Touches-refl db = (
    (Follows-refl db.queues.commands, refl),
    (λ u other. refl),
    Grows-refl db.queues.sync.retained,
    (λ u. refl),
  )

  pub Touches-trans :
      (db db1 db2 : SyncDb) → Touches uuid db db1 → Touches uuid db1 db2 → Touches uuid db db2
  Touches-trans db db1 db2 (kept, same, grows, owner) (kept', same', grows', owner') = (
    Kept-trans db db1 db2 kept kept',
    λ u other. same' u other ∙ same u other,
    Grows-trans db.queues.sync.retained db1.queues.sync.retained db2.queues.sync.retained grows
        grows',
    λ u. owner' u ∙ owner u,
  )

  pub insert-Touches :
      (now : ℕ) (event a : Activity) (db db' : SyncDb)
      → insert_gateway_activity now event db ≡ ok (db', a)
      → Touches uuid db db'
  insert-Touches now event a db db' h =
      let (queues, kept) = insert_same now event db db' a h in rw (queues, kept) (Touches-refl db)

  set_run_owner :
      (run : SyncRun) (u : String) (runs : Table SyncRun)
      → terminal_of (get uuid runs) ≡ some run.terminal_serial_number
      → terminal_of (get u (put uuid run runs)) ≡ terminal_of (get u runs)
  set_run_owner run u runs here = elim (Bool-cases (uuid == u)) [
    | inl e ↦
        let u≡ : uuid ≡ u = (eq_iff uuid u).0 e in rw (get-put uuid u run runs, e, ← u≡) (sym here)
    | inr e ↦ rw (get-put uuid u run runs, e) refl
  ]

  pub set_run-Touches :
      (run : SyncRun) (db : SyncDb)
      → terminal_of (get uuid db.queues.sync.runs) ≡ some run.terminal_serial_number
      → Touches uuid db (set_run uuid run db)
  set_run-Touches run db here = (
    (Follows-refl db.queues.commands, refl),
    λ u other.
        rw (get-put uuid u run db.queues.sync.runs) (ground (arith, eq_iff u uuid, eq_iff uuid u)),
    Grows-refl db.queues.sync.retained,
    λ u. set_run_owner run u db.queues.sync.runs here,
  )

  pub queue-Touches :
      (now : ℕ) (bytes : Option Bytes) (input : NewIsapiCommand) (db db' : SyncDb)
      (command : IsapiCommand) (a : Activity)
      → queue_isapi_command_tx now bytes input
          (set_sync (record (db.queues.sync) { drawn = db.queues.sync.drawn + 1 }) db)
        ≡ ok (db', (command, a))
      → Touches uuid db db'
  queue-Touches now bytes input db db' command a h =
      let (follows, kept, sync) =
        queue_isapi_command_tx-Queued now bytes input
          (set_sync (record (db.queues.sync) { drawn = db.queues.sync.drawn + 1 }) db) db' command a
          h in
      rw sync ((follows, kept), (λ u other. refl), Grows-refl db.queues.sync.retained, (λ u. refl))

  pub link_command-Touches :
      (command_uuid : String) (link : SyncLink) (db db' : SyncDb)
      → link_command command_uuid link db ≡ ok db'
      → Touches uuid db db'
  link_command-Touches command_uuid link db db' h =
      rw (link_command-eq-ok command_uuid link db db' h) (
        (Follows-refl db.queues.commands, refl),
        (λ u other. refl),
        Grows-refl db.queues.sync.retained,
        (λ u. refl),
      )

  pub retain-Touches :
      (rows : List RetainedRow) (db : SyncDb)
      → Grows db.queues.sync.retained rows
      → Touches uuid db (set_sync (record (db.queues.sync) { retained = rows }) db)
  retain-Touches rows db grows =
      ((Follows-refl db.queues.commands, refl), (λ u other. refl), grows, (λ u. refl))

  pub fail-Touches :
      (now : ℕ) (reason : String) (db db' : SyncDb) (a : List Activity)
      → fail_access_event_sync now uuid reason db ≡ ok (db', a)
      → Touches uuid db db'
  unfolding fail_access_event_sync
  fail-Touches now reason db db' a h = elim (Option-cases (get uuid db.queues.sync.runs)) [
    | inl e ↦ let same : db' ≡ db = ground arith in rw same (Touches-refl db)
    | inr (run, e) ↦ elim (Bool-cases (is_active run.status)) [
      | inr shut ↦ let same : db' ≡ db = ground arith in rw same (Touches-refl db)
      | inl live ↦
          let ((db1, stored), inserted, h1) =
            >>=-eq-ok (insert_gateway_activity now _ (set_run uuid (failed_run now reason run) db))
              _ (rw (e, fail_access_event_sync, live) at h) in
          let same : db' ≡ db1 = ground arith in
          rw same (
            Touches-trans db (set_run uuid (failed_run now reason run) db) db1
              (set_run-Touches (failed_run now reason run) db (ap terminal_of e))
              (insert-Touches now _ stored (set_run uuid (failed_run now reason run) db) db1
                inserted))
    ]
  ]

pub insert_retained-Grows :
    (records rows rows' : List RetainedRow) (n : ℕ)
    → insert_retained_access_events records rows ≡ ok (rows', n)
    → Grows rows rows' × (n ≤ length records)
unfolding insert_retained_access_events
insert_retained-Grows [] rows rows' n h =
    let same : rows' ≡ rows = ground arith in (rw same (Grows-refl rows), ground arith)
insert_retained-Grows (x ∷ xs) rows rows' n h = elim (Bool-cases (fits_columns x.projection)) [
  | inr e ↦ absurd (ground arith)
  | inl e ↦ elim (Bool-cases (is_retained x.terminal_serial_number x.source_sha256 rows)) [
    | inl old ↦
        let (grows, few) = insert_retained-Grows xs rows rows' n (ground arith) in
        (grows, omega arith)
    | inr new ↦
        let ((after, m), added, h1) =
          >>=-eq-ok (insert_retained_access_events xs (rows ++ x ∷ [])) _
            (rw (e, insert_retained_access_events, new) at h) in
        let (grows, few) = insert_retained-Grows xs (rows ++ x ∷ []) after m added in
        let same : rows' ≡ after = ground arith in
        (rw same (Grows-trans rows (rows ++ x ∷ []) after (x ∷ [], refl) grows), ground arith)
  ]
]
