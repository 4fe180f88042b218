-- ===== src/Store/EventSync/Progress.antt =====
-- What an operation on the runs may do to them.
use text.Mathlib.TextEquality.{eq_iff}
use face_recognition_proxy.Prelude.{
  ◌≡◌, ◌≢◌, ◌⊎◌, refl, sym, ap, ◌∙◌, true, false, none, some, [], ◌∷◌, String, arith, string_eq,
  ◌==◌, Bool-cases, inl, inr,
}
use face_recognition_proxy.Prelude.Table.{Table, get, put, get-put}
use face_recognition_proxy.Store.EventSync.Closed.{
  TouchesActive, KeepsClosed, TouchesActive-KeepsClosed,
}
use face_recognition_proxy.Store.EventSync.Start.{any_active}
use face_recognition_proxy.Store.EventSync.Tables.{is_active, SyncRun, SyncDb}
use face_recognition_proxy.Store.EventSync.Touches.{
  Touches, terminal_of, Grows, Grows-refl, Grows-trans,
}

-- A terminal has one active run at most.
abbrev pub IsSingle : SyncDb → Type 0
IsSingle db =
    (u v : String) (run run' : SyncRun)
    → get u db.queues.sync.runs ≡ some run
    → get v db.queues.sync.runs ≡ some run'
    → is_active run.status ≡ true
    → is_active run'.status ≡ true
    → run.terminal_serial_number ≡ run'.terminal_serial_number
    → u ≡ v

-- What time does to the tables: runs that are over stay, rows of the archive stay, and where each
-- terminal had one active run at most, it still has.
abbrev pub Progress : SyncDb → SyncDb → Type 0
Progress db db' =
    KeepsClosed db db'
    × Grows db.queues.sync.retained db'.queues.sync.retained
    × (IsSingle db → IsSingle db')

pub Progress-same : (db db' : SyncDb) → db'.queues.sync ≡ db.queues.sync → Progress db db'
Progress-same db db' same =
    rw same ((λ u run found over. found), Grows-refl db.queues.sync.retained, (λ single. single))

pub Progress-trans : (db db1 db2 : SyncDb) → Progress db db1 → Progress db1 db2 → Progress db db2
Progress-trans db db1 db2 (closed, grows, single) (closed', grows', single') = (
  λ u run found over. closed' u run (closed u run found over) over,
  Grows-trans db.queues.sync.retained db1.queues.sync.retained db2.queues.sync.retained grows
      grows',
  λ one. single' (single one),
)

-- An active run after a touch was active before, and the same terminal's.
abbrev WasActive : SyncDb → String → SyncRun → Type 0
WasActive db u run' =
    (run : SyncRun) × (get u db.queues.sync.runs ≡ some run)
    × (is_active run.status ≡ true)
    × (run.terminal_serial_number ≡ run'.terminal_serial_number)

was_active :
    (uuid : String) (live : SyncRun) (db db' : SyncDb)
    → get uuid db.queues.sync.runs ≡ some live
    → is_active live.status ≡ true
    → Touches uuid db db'
    → (u : String) (run' : SyncRun) → get u db'.queues.sync.runs ≡ some run'
    → is_active run'.status ≡ true
    → WasActive db u run'
was_active uuid live db db' found active (kept, others, grows, owner) u run' there active' =
    elim (Bool-cases (u == uuid)) [
      | inr e ↦ (run', sym (others u e) ∙ there, active', refl)
      | inl e ↦
          let u≡ : u ≡ uuid = (eq_iff u uuid).0 e in
          let here : get u db.queues.sync.runs ≡ some live = rw u≡ found in
          let same : some run'.terminal_serial_number ≡ some live.terminal_serial_number =
            sym (ap terminal_of there) ∙ owner u ∙ ap terminal_of here in
          (live, here, active, cc)
    ]

TouchesActive-IsSingle : (db db' : SyncDb) → TouchesActive db db' → IsSingle db → IsSingle db'
TouchesActive-IsSingle db db' (inl same) single u v run run' one other on on' alike =
    single u v run run' (rw same at one) (rw same at other) on on' alike
TouchesActive-IsSingle db db' (inr (uuid, live, found, active, touches)) single u v run run' one
      other on on' alike =
    let (before, there, lives, owner) =
      was_active uuid live db db' found active touches u run one on in
    let (before', there', lives', owner') =
      was_active uuid live db db' found active touches v run' other on' in
    single u v before before' there there' lives lives' (owner ∙ alike ∙ sym owner')

TouchesActive-Grows :
    (db db' : SyncDb)
    → TouchesActive db db'
    → Grows db.queues.sync.retained db'.queues.sync.retained
TouchesActive-Grows db db' (inl same) = rw same (Grows-refl db.queues.sync.retained)
TouchesActive-Grows db db' (inr (uuid, live, found, active, (kept, others, grows, owner))) = grows

pub Progress-touched : (db db' : SyncDb) → TouchesActive db db' → Progress db db'
Progress-touched db db' touched = (
  TouchesActive-KeepsClosed db db' touched,
  TouchesActive-Grows db db' touched,
  TouchesActive-IsSingle db db' touched,
)

no_active :
    (serial : String) (runs : Table SyncRun)
    → any_active serial runs ≡ false
    → (v : String) (run : SyncRun) → get v runs ≡ some run
    → is_active run.status ≡ true
    → run.terminal_serial_number ≢ serial
unfolding any_active get
no_active serial [] quiet v run there active named = cc
no_active serial ((u, x) ∷ runs) quiet v run there active named = elim (Bool-cases (u == v)) [
  | inl e ↦
      let same : x ≡ run = ground arith in ground (arith, eq_iff run.terminal_serial_number serial)
  | inr e ↦ no_active serial runs (ground arith) v run (ground arith) active named
]

put_cases :
    (uuid u : String) (run run' : SyncRun) (runs : Table SyncRun)
    → get u (put uuid run runs) ≡ some run'
    → ((u ≡ uuid) × (run' ≡ run)) ⊎ (get u runs ≡ some run')
put_cases uuid u run run' runs there = elim (Bool-cases (uuid == u)) [
  | inl e ↦ inl (sym ((eq_iff uuid u).0 e), ground (arith, get-put uuid u run runs))
  | inr e ↦ inr (ground (arith, get-put uuid u run runs))
]

-- A new run of a terminal with no active one.
module _ (uuid serial : String) (run : SyncRun) (db db' : SyncDb)
    (fresh : get uuid db.queues.sync.runs ≡ none)
    (quiet : any_active serial db.queues.sync.runs ≡ false)
    (named : run.terminal_serial_number ≡ serial)
    (runs : db'.queues.sync.runs ≡ put uuid run db.queues.sync.runs)
    (rows : db'.queues.sync.retained ≡ db.queues.sync.retained) where
  begun-IsSingle : IsSingle db → IsSingle db'
  begun-IsSingle single u v a b one other on on' alike =
      let quiet_at = no_active serial db.queues.sync.runs quiet in
      elim (put_cases uuid u run a db.queues.sync.runs (rw runs at one)) [
        | inl (u≡, a≡) ↦ elim (put_cases uuid v run b db.queues.sync.runs (rw runs at other)) [
          | inl (v≡, b≡) ↦ u≡ ∙ sym v≡
          | inr old ↦ absurd (quiet_at v b old on' (cc))
        ]
        | inr old ↦ elim (put_cases uuid v run b db.queues.sync.runs (rw runs at other)) [
          | inl (v≡, b≡) ↦ absurd (quiet_at u a old on (cc))
          | inr old' ↦ single u v a b old old' on on' alike
        ]
      ]

  begun-KeepsClosed : KeepsClosed db db'
  begun-KeepsClosed u a found over = elim (Bool-cases (uuid == u)) [
    | inl e ↦ let u≡ : uuid ≡ u = (eq_iff uuid u).0 e in absurd (ground arith)
    | inr e ↦ rw (runs, get-put uuid u run db.queues.sync.runs, e) found
  ]

  pub Progress-begun : Progress db db'
  Progress-begun = (begun-KeepsClosed, rw rows (Grows-refl db.queues.sync.retained), begun-IsSingle)
