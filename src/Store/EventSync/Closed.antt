-- ===== src/Store/EventSync/Closed.antt =====
-- Runs that are over, and the law that the command queue asks of the synchronisation.
use text.Mathlib.TextEquality.{eq_iff}
use face_recognition_proxy.Prelude.{
  ℕ, ◌≡◌, ◌⊎◌, refl, ap, ◌∙◌, Bool, true, false, not, Option, some, List, String, Bytes, utf8,
  arith, string_eq, ◌==◌, Bool-cases, Option-cases, inl, inr,
}
use face_recognition_proxy.Prelude.Table.{get}
use face_recognition_proxy.Result.{ok, refuse, >>=-eq-ok}
use face_recognition_proxy.AccessControl.{Readers}
use face_recognition_proxy.Encoding.Base64
use face_recognition_proxy.PushSdk.Commands.{IsapiCommandResult}
use face_recognition_proxy.Store.Tables.{Activity}
use face_recognition_proxy.Store.IsapiCommands.Lifecycle.{Kept, SyncLaws}
use face_recognition_proxy.Store.IsapiCommands.Moves.{Follows-refl}
use face_recognition_proxy.Store.EventSync.Complete.{
  linked_run, complete_linked, complete_access_event_sync_command, event_sync,
}
use face_recognition_proxy.Store.EventSync.Results.{phase-Touches}
use face_recognition_proxy.Store.EventSync.Tables.{
  is_active, SyncRun, SyncLink, SyncDb, fail_access_event_sync,
  fail_expired_access_event_sync_command,
}
use face_recognition_proxy.Store.EventSync.Touches.{terminal_of, Touches, fail-Touches}

-- Nothing has changed, or one run that was active was touched.
abbrev pub TouchesActive : SyncDb → SyncDb → Type 0
TouchesActive db db' =
    (db' ≡ db)
    ⊎ ((uuid : String) × (run : SyncRun) × (get uuid db.queues.sync.runs ≡ some run)
        × (is_active run.status ≡ true)
        × Touches uuid db db')

pub fail-TouchesActive :
    (now : ℕ) (uuid reason : String) (db db' : SyncDb) (made : List Activity)
    → fail_access_event_sync now uuid reason db ≡ ok (db', made)
    → TouchesActive db db'
unfolding fail_access_event_sync
fail-TouchesActive now uuid reason db db' made h =
    elim (Option-cases (get uuid db.queues.sync.runs)) [
      | inl e ↦ inl (ground arith)
      | inr (run, e) ↦ elim (Bool-cases (is_active run.status)) [
        | inr shut ↦ inl (ground arith)
        | inl live ↦ inr (uuid, run, e, live, fail-Touches uuid now reason db db' made h)
      ]
    ]

pub expired-TouchesActive :
    (command_uuid : String) (delivered : Bool) (now : ℕ) (db db' : SyncDb) (made : List Activity)
    → fail_expired_access_event_sync_command command_uuid delivered now db ≡ ok (db', made)
    → TouchesActive db db'
unfolding fail_expired_access_event_sync_command
expired-TouchesActive command_uuid delivered now db db' made h =
    elim (Option-cases (get command_uuid db.queues.sync.links)) [
      | inl e ↦ inl (ground arith)
      | inr (link, e) ↦
          fail-TouchesActive now link.run_uuid _ db db' made
            (rw (e, fail_expired_access_event_sync_command) at h)
    ]

module _ (r : Readers) (random : ℕ → ℕ → Option Bytes) (gateway_location : String) where
  linked-TouchesActive :
      (now : ℕ) (serial : String) (result : IsapiCommandResult) (link : SyncLink) (run : SyncRun)
      (db db' : SyncDb) (made : List Activity)
      → get link.run_uuid db.queues.sync.runs ≡ some run
      → complete_linked r random gateway_location now serial result link run db ≡ ok (db', made)
      → TouchesActive db db'
  unfolding complete_linked
  linked-TouchesActive now serial result link run db db' made found h =
      let (_, _, h1) = >>=-eq-ok (refuse (not (run.terminal_serial_number == serial)) _) _ h in
      let (_, live, h2) = >>=-eq-ok (refuse (not (is_active run.status)) _) _ h1 in
      let active : is_active run.status ≡ true = ground arith in
      inr (
        link.run_uuid,
        run,
        found,
        active,
        elim (Option-cases (Base64.decode (utf8 result.data_base64))) [
          | inl e ↦ fail-Touches link.run_uuid now _ db db' made (rw e at h2)
          | inr (source, e) ↦
              phase-Touches r random gateway_location now link.run_uuid link.phase run result source
                db db' made (ap terminal_of found) (rw e at h2)
        ],
      )

  pub completed-TouchesActive :
      (serial : String) (result : IsapiCommandResult) (now : ℕ) (db db' : SyncDb)
      (made : List Activity)
      → complete_access_event_sync_command r random gateway_location now serial result db
        ≡ ok (db', made)
      → TouchesActive db db'
  unfolding complete_access_event_sync_command linked_run
  completed-TouchesActive serial result now db db' made h =
      elim (Option-cases (get result.uuid db.queues.sync.links)) [
        | inl e ↦ inl (ground arith)
        | inr (link, e) ↦ elim (Option-cases (get link.run_uuid db.queues.sync.runs)) [
          | inl e' ↦ inl (ground arith)
          | inr (run, e') ↦
              linked-TouchesActive now serial result link run db db' made e'
                (rw (e, linked_run, e', complete_access_event_sync_command) at h)
        ]
      ]

TouchesActive-Kept : (db db' : SyncDb) → TouchesActive db db' → Kept db db'
TouchesActive-Kept db db' (inl same) = rw same (Follows-refl db.queues.commands, refl)
TouchesActive-Kept db db' (inr (uuid, run, found, active, touches)) = touches.0

-- A run that is over is the same row afterwards.
abbrev pub KeepsClosed : SyncDb → SyncDb → Type 0
KeepsClosed db db' =
    (u : String) (run : SyncRun)
    → get u db.queues.sync.runs ≡ some run
    → is_active run.status ≡ false
    → get u db'.queues.sync.runs ≡ some run

pub TouchesActive-KeepsClosed : (db db' : SyncDb) → TouchesActive db db' → KeepsClosed db db'
TouchesActive-KeepsClosed db db' (inl same) u run found over = rw same found
TouchesActive-KeepsClosed db db' (inr (uuid, live, found, active, (kept, others, grows, owner))) u
      run there over =
    elim (Bool-cases (u == uuid)) [
      | inr e ↦ others u e ∙ there
      | inl e ↦
          let u≡ : u ≡ uuid = (eq_iff u uuid).0 e in
          let same : some run ≡ some live = ground arith in absurd (ground arith)
    ]

module _ (r : Readers) (random : ℕ → ℕ → Option Bytes) (gateway_location : String) where
  -- The synchronisation of retained events keeps the law that the command queue asks of it: what
  -- follows an expired or an answered command leaves every command in the table with its request
  -- unchanged, its status gone only forward, and writes no session checkpoint.
  pub event_sync-SyncLaws : SyncLaws (event_sync r random gateway_location)
  event_sync-SyncLaws = record {
    fail_keeps = λ uuid delivered now db db' made h.
        TouchesActive-Kept db db' (expired-TouchesActive uuid delivered now db db' made h);
    complete_keeps = λ serial result now db db' made h.
        TouchesActive-Kept db db'
          (completed-TouchesActive r random gateway_location serial result now db db' made h);
  }
