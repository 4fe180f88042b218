-- ===== src/PushSdk/World.antt =====
-- What the service of internal/pushsdk/service.go can read and change: the sessions in memory, the
-- database, the counters, the records handed to the hub. The environment answers by the number of the
-- question: whether a store call fails, what the clock says, what the random reader delivers.
pub mod Cases
use face_recognition_proxy.Prelude.{
  ℕ, ◌+◌, Bool, true, false, Option, none, some, List, [], ◌∷◌, ◌++◌, Bytes, String, if◌then◌else◌,
}
use face_recognition_proxy.Prelude.Table.{Table, put, remove}
use face_recognition_proxy.Result.{Result, ok, err}
use face_recognition_proxy.Protocol.{Failure, internal}
use face_recognition_proxy.Store.Tables.{Activity, Db}
use face_recognition_proxy.PushSdk.Session.{Session}

pub record Env : Type 0 where
  pub store_fails : ℕ → Bool
  pub now : ℕ → ℕ
  pub entropy : ℕ → List Bytes

-- metrics.go. The gauge of active sessions is what went up less what went down since it was set to 0;
-- a labelled counter is the list of the labels counted.
pub record Metrics : Type 0 where
  pub requests : List (String × String)
  pub events_received : List String
  pub events_persisted : ℕ
  pub events_rejected : ℕ
  pub active_up : ℕ
  pub active_down : ℕ

pub record World (Q : Type 0) : Type 0 where
  pub sessions : Table Session
  pub db : Db Q
  pub metrics : Metrics
  pub published : List Activity
  pub asked : ℕ

-- A step that may fail; what it changed before it failed stays changed.
abbrev pub Step : Type 0 → Type 0 → Type 0
Step Q A = World Q → Result Failure A × World Q

module _ {Q : Type 0} where
  abbrev pub pure : {A : Type 0} → A → Step Q A
  pure a w = (ok a, w)

  abbrev pub raise : {A : Type 0} → Failure → Step Q A
  raise e w = (err e, w)

  abbrev pub lift : {A : Type 0} → Result Failure A → Step Q A
  lift r w = (r, w)

  abbrev pub continue : {A B : Type 0} → Result Failure A → (A → Step Q B) → Step Q B
  continue (ok a) f w = f a w
  continue (err e) f w = (err e, w)

  infixl 5 ◌>>=◌ ◌>>◌
  abbrev pub ◌>>=◌ : {A B : Type 0} → Step Q A → (A → Step Q B) → Step Q B
  ◌>>=◌ m f w = let (r, w') = m w in continue r f w'

  abbrev pub ◌>>◌ : {A B : Type 0} → Step Q A → Step Q B → Step Q B
  m >> n = m >>= λ _. n

  -- `if err := m; err != nil`: the error as a value.
  abbrev pub attempt : {A : Type 0} → Step Q A → Step Q (Result Failure A)
  attempt m w = let (r, w') = m w in (ok r, w')

  abbrev pub publish : Activity → Step Q (Unit {0})
  publish event w = (ok tt, record w { published = w.published ++ event ∷ [] })

  abbrev pub publish_all : List Activity → Step Q (Unit {0})
  publish_all events w = (ok tt, record w { published = w.published ++ events })

  abbrev pub active_inc : Step Q (Unit {0})
  active_inc w =
      (ok tt, record w { metrics = record (w.metrics) { active_up = w.metrics.active_up + 1 } })

  abbrev pub active_dec : Step Q (Unit {0})
  active_dec w =
      (ok tt, record w { metrics = record (w.metrics) { active_down = w.metrics.active_down + 1 } })

  -- A write through the pointer that the map holds under the key, and a replacement of that pointer.
  abbrev pub save : String → Session → Step Q (Unit {0})
  save key session w = (ok tt, record w { sessions = put key session w.sessions })

  abbrev pub forget : String → Step Q (Unit {0})
  forget key w = (ok tt, record w { sessions = remove key w.sessions })

  module _ (env : Env) where
    abbrev answered : {A : Type 0} → World Q → Result String (Db Q × A) → Result Failure A × World Q
    answered w (err e) = (err (internal e), w)
    answered w (ok (db, a)) = (ok a, record w { db = db })

    -- A transaction: it fails as a whole or gives the new database.
    unfoldable pub transaction : {A : Type 0} → (ℕ → Db Q → Result String (Db Q × A)) → Step Q A
    transaction f w =
        let w' = record w { asked = w.asked + 1 } in
        if env.store_fails w.asked
        then (err (internal "the store is not available"), w')
        else answered w' (f (env.now w.asked) w.db)

    unfoldable pub clock : Step Q ℕ
    clock w = (ok (env.now w.asked), record w { asked = w.asked + 1 })

    -- A read of random bytes through a function of what the reader delivers.
    unfoldable pub random : (List Bytes → Option Bytes) → Step Q Bytes
    random f w =
        let w' = record w { asked = w.asked + 1 } in
        elim (f (env.entropy w.asked)) [
          | none ↦ (err (internal "the random reader failed"), w')
          | some bytes ↦ (ok bytes, w')
        ]
