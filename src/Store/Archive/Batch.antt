-- ===== src/Store/Archive/Batch.antt =====
-- What a batch of events leaves in the archive, and what the same batch does when it comes again.
use mathlib.Core.List.{append_assoc, append-nil}
use face_recognition_proxy.Prelude.{
  ℕ, suc, ◌≡◌, ◌∙◌, refl, sym, ap, Bool, true, false, not, ◌||◌, Option, some, List, [], ◌∷◌, ◌++◌,
  String, Bytes, arith, string_eq, eq_iff, length, map, All, Bool-cases, inl, inr, if◌then◌else◌,
}
use face_recognition_proxy.Prelude.Table.{get}
use face_recognition_proxy.Result.{ok, refuse, >>=-eq-ok}
use face_recognition_proxy.AccessControl.{Readers}
use face_recognition_proxy.Delivery.Types.{EventMessage}
use face_recognition_proxy.PushSdk.Events.{NewDeviceEvent, supported_data_format}
use face_recognition_proxy.PushSdk.Service.Types.{DeviceEventPersistence}
use face_recognition_proxy.Store.Archive.Insert.{
  event_activity, event_row, add_event, skip_event, insert_access_event_projection, is_registered,
  insert_new_event, insert_device_event, insert_device_event_batch,
}
use face_recognition_proxy.Store.Archive.Tables.{DeviceEventRow, is_archived}
use face_recognition_proxy.Store.EventSync.Tables.{SyncDb}
use face_recognition_proxy.Store.IsapiCommands.Queueing.Fresh.{insert_same}
use face_recognition_proxy.Store.Tables.{Activity}
use face_recognition_proxy.Store.Terminals.{insert_gateway_activity}

abbrev pub events_of : SyncDb → List DeviceEventRow
events_of db = db.queues.sync.archive.events

abbrev pub IsArchived : List DeviceEventRow → NewDeviceEvent → Type 0
IsArchived rows e = is_archived e.terminal_serial_number e.vendor_event_id rows ≡ true

-- No two rows have the same terminal and identifier.
abbrev pub IsUnique : List DeviceEventRow → Type 0
IsUnique [] = Unit
IsUnique (row ∷ rows) =
    (is_archived row.terminal_serial_number row.vendor_event_id rows ≡ false) × IsUnique rows

-- What a terminal sent of an event, and what a row holds of it.
abbrev pub Content : Type 0
Content = String × (String × (String × Option String))

abbrev pub sent : NewDeviceEvent → Content
sent e = (e.terminal_serial_number, (e.vendor_event_id, (e.data_format, some e.payload_base64)))

abbrev pub held : DeviceEventRow → Content
held row =
    (row.terminal_serial_number, (row.vendor_event_id, (row.data_format, row.payload_base64)))

-- The events of a batch whose answers say that they were inserted.
unfoldable pub chosen : List NewDeviceEvent → List DeviceEventPersistence → List NewDeviceEvent
chosen [] ps = []
chosen (e ∷ es) [] = []
chosen (e ∷ es) (p ∷ ps) = let rest = chosen es ps in if p.inserted then e ∷ rest else rest

pub archived-append :
    (s v : String) (rows more : List DeviceEventRow)
    → is_archived s v (rows ++ more) ≡ (is_archived s v rows || is_archived s v more)
unfolding is_archived
archived-append s v [] more = refl
archived-append s v (row ∷ rows) more = ground (arith, archived-append s v rows more)

append-IsUnique :
    (rows : List DeviceEventRow) (row : DeviceEventRow)
    → IsUnique rows
    → is_archived row.terminal_serial_number row.vendor_event_id rows ≡ false
    → IsUnique (rows ++ row ∷ [])
unfolding is_archived
append-IsUnique [] row unique new = (refl, tt)
append-IsUnique (x ∷ xs) row (here, unique) new = (
  ground (
    arith,
    archived-append x.terminal_serial_number x.vendor_event_id xs (row ∷ []),
    eq_iff x.terminal_serial_number row.terminal_serial_number,
    eq_iff row.terminal_serial_number x.terminal_serial_number,
    eq_iff x.vendor_event_id row.vendor_event_id,
    eq_iff row.vendor_event_id x.vendor_event_id,
  ),
  append-IsUnique xs row unique (ground arith),
)

-- The event that was sent, in a new row at the end; or no row, for an event that is there.
abbrev Inserts : NewDeviceEvent → Bool → SyncDb → SyncDb → Type 0
Inserts e false db db' = IsArchived (events_of db) e × (events_of db' ≡ events_of db)
Inserts e true db db' =
    (is_archived e.terminal_serial_number e.vendor_event_id (events_of db) ≡ false)
    × ((row : DeviceEventRow) × (held row ≡ sent e) × (events_of db' ≡ events_of db ++ row ∷ []))

-- One answer for each event, in their order; the new rows are the events that were inserted, as they
-- were sent; every event of the batch is in the archive.
abbrev pub Retained : List NewDeviceEvent → List DeviceEventPersistence → SyncDb → SyncDb → Type 0
Retained es ps db db' =
    (length ps ≡ length es)
    × (IsUnique (events_of db) → IsUnique (events_of db'))
    × ((added : List DeviceEventRow) × (events_of db' ≡ events_of db ++ added)
        × (map held added ≡ map sent (chosen es ps)))
    × All (IsArchived (events_of db')) es
    × All (λ e. supported_data_format e.data_format ≡ true) es
    × (db'.pushsdk_sessions ≡ db.pushsdk_sessions)

pub still-IsArchived :
    (rows rows' added : List DeviceEventRow) (e : NewDeviceEvent)
    → rows' ≡ rows ++ added
    → IsArchived rows e
    → IsArchived rows' e
still-IsArchived rows rows' added e grows old =
    rw grows (ground (arith, archived-append e.terminal_serial_number e.vendor_event_id rows added))

found_there :
    (e : NewDeviceEvent) (rows : List DeviceEventRow) (row : DeviceEventRow)
    → held row ≡ sent e
    → IsArchived (rows ++ row ∷ []) e
unfolding is_archived
found_there e rows row same = ground (
  arith,
  archived-append e.terminal_serial_number e.vendor_event_id rows (row ∷ []),
  eq_iff row.terminal_serial_number e.terminal_serial_number,
  eq_iff row.vendor_event_id e.vendor_event_id,
  ap (λ c. c.0) same,
  ap (λ c. c.1.0) same,
)

-- One event before the rest of its batch.
Retained-cons :
    (e : NewDeviceEvent) (flag : Bool) (stored : Activity) (es : List NewDeviceEvent)
    (ps : List DeviceEventPersistence) (db db1 db2 db' : SyncDb)
    → supported_data_format e.data_format ≡ true
    → Inserts e flag db db1
    → db1.pushsdk_sessions ≡ db.pushsdk_sessions
    → events_of db2 ≡ events_of db1
    → db2.pushsdk_sessions ≡ db1.pushsdk_sessions
    → Retained es ps db2 db'
    → Retained (e ∷ es) (record { inserted = flag; activity = stored } ∷ ps) db db'
unfolding chosen
Retained-cons e false stored es ps db db1 db2 db' fits (old, same) kept same' kept'
      (counted, unique, (added, grows, as_sent), there, all_fit, rest) =
    let back : events_of db2 ≡ events_of db = same' ∙ same in
    let grows' : events_of db' ≡ events_of db ++ added = rw back at grows in
    (
      ap suc counted,
      (λ one. unique (rw back one)),
      (added, grows', as_sent),
      (still-IsArchived (events_of db) (events_of db') added e grows' old, there),
      (fits, all_fit),
      rest ∙ kept' ∙ kept,
    )
Retained-cons e true stored es ps db db1 db2 db' fits (new, (row, same, grown)) kept same' kept'
      (counted, unique, (added, grows, as_sent), there, all_fit, rest) =
    let back : events_of db2 ≡ events_of db ++ row ∷ [] = same' ∙ grown in
    let grows' : events_of db' ≡ (events_of db ++ row ∷ []) ++ added = rw back at grows in
    (
      ap suc counted,
      (λ one. unique (
          rw back (
            append-IsUnique (events_of db) row one
              (rw (ap (λ c. c.0) same, ap (λ c. c.1.0) same) new)))),
      (row ∷ added, grows' ∙ append_assoc (events_of db) (row ∷ []) added, cc),
      (
        still-IsArchived (events_of db ++ row ∷ []) (events_of db') added e grows'
            (found_there e (events_of db) row same),
        there,
      ),
      (fits, all_fit),
      rest ∙ kept' ∙ kept,
    )

Retained-as :
    (es : List NewDeviceEvent) (ps ps' : List DeviceEventPersistence) (db db1 db' : SyncDb)
    → db' ≡ db1
    → ps ≡ ps'
    → Retained es ps' db db1
    → Retained es ps db db'
Retained-as es ps ps' db db1 db' same answers retained = rw (same, answers) retained

module _ (r : Readers) (marshal : EventMessage → Bytes) (push_sdk_serial : String → String)
    (now : ℕ) where
  insert_new-Inserts :
      (e : NewDeviceEvent) (db db' : SyncDb) (flag : Bool)
      → is_archived e.terminal_serial_number e.vendor_event_id (events_of db) ≡ false
      → insert_new_event r marshal push_sdk_serial now e db ≡ ok (db', flag)
      → Inserts e flag db db' × (db'.pushsdk_sessions ≡ db.pushsdk_sessions)
  unfolding insert_new_event
  insert_new-Inserts e db db' flag new h =
      let (_, _, h1) =
        >>=-eq-ok (refuse (not (is_registered (get e.terminal_serial_number db.terminals))) _) _
          h in
      let (projection, _, h2) =
        >>=-eq-ok (insert_access_event_projection r e.data_format e.payload_base64) _ h1 in
      let same : db' ≡ add_event r marshal push_sdk_serial now e projection db = ground arith in
      let inserted : flag ≡ true = ground arith in
      rw (inserted, same)
        ((new, (event_row now db.queues.sync.archive.next_event_id e projection, refl, refl)), refl)

  pub insert_device_event-Inserts :
      (e : NewDeviceEvent) (db db' : SyncDb) (flag : Bool)
      → insert_device_event r marshal push_sdk_serial now e db ≡ ok (db', flag)
      → (supported_data_format e.data_format ≡ true)
        × Inserts e flag db db'
        × (db'.pushsdk_sessions ≡ db.pushsdk_sessions)
  unfolding insert_device_event
  insert_device_event-Inserts e db db' flag h =
      let (_, supported, h1) =
        >>=-eq-ok (refuse (not (supported_data_format e.data_format)) _) _ h in
      let (inserts, kept) : Inserts e flag db db' × (db'.pushsdk_sessions ≡ db.pushsdk_sessions) =
        elim (Bool-cases (is_archived e.terminal_serial_number e.vendor_event_id (events_of db))) [
          | inl old ↦
              let same : db' ≡ skip_event db = ground arith in
              let skipped : flag ≡ false = ground arith in rw (skipped, same) ((old, refl), refl)
          | inr new ↦ insert_new-Inserts e db db' flag new (rw new at h1)
        ] in
      (ground arith, inserts, kept)

  -- A batch of events that is taken gets one answer for each event; what the archive gains is, in
  -- their order and as they were sent, the events whose answers say that they were inserted,
  -- after the rows that were there; every event of the batch is then in the archive, whose rows
  -- stay distinct in terminal and identifier if they were; every format is a documented one, and
  -- no session checkpoint is written.
  pub insert_device_event_batch-Retained :
      (es : List NewDeviceEvent) (db db' : SyncDb) (ps : List DeviceEventPersistence)
      → insert_device_event_batch r marshal push_sdk_serial now es db ≡ ok (db', ps)
      → Retained es ps db db'
  unfolding insert_device_event_batch chosen
  insert_device_event_batch-Retained [] db db' ps h =
      let same : db' ≡ db = ground arith in
      let none_made : ps ≡ [] = ground arith in
      rw (same, none_made)
        (refl, (λ one. one), ([], sym (append-nil (events_of db)), refl), tt, tt, refl)
  insert_device_event_batch-Retained (e ∷ es) db db' ps h =
      let ((db1, flag), first, h1) =
        >>=-eq-ok (insert_device_event r marshal push_sdk_serial now e db) _ h in
      let ((db2, stored), second, h2) =
        >>=-eq-ok (insert_gateway_activity now (event_activity e flag) db1) _ h1 in
      let ((db3, rest), third, h3) =
        >>=-eq-ok (insert_device_event_batch r marshal push_sdk_serial now es db2) _ h2 in
      let same : db' ≡ db3 = ground arith in
      let answers : ps ≡ record { inserted = flag; activity = stored } ∷ rest = ground arith in
      let (fits, inserts, kept) = insert_device_event-Inserts e db db1 flag first in
      let (queues, kept') = insert_same now (event_activity e flag) db1 db2 stored second in
      Retained-as (e ∷ es) ps _ db db3 db' same answers (
        Retained-cons e flag stored es rest db db1 db2 db3 fits inserts kept
          (ap (λ q. q.sync.archive.events) queues) kept'
          (insert_device_event_batch-Retained es db2 db3 rest third))
