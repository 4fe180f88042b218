-- ===== src/Store/Archive/Backfill.antt =====
-- `BackfillAccessEventProjections`: the events whose projection is missing or of an older version, in
-- transactions of 500 rows. No other transaction holds a lock on them.
pub mod Current
use face_recognition_proxy.Prelude.{
  ℕ, zero, suc, ◌+◌, Bool, true, Option, none, some, List, [], ◌∷◌, String, ltb, if◌then◌else◌,
}
use face_recognition_proxy.Result.{Result, ok, err, ◌>>=◌}
use face_recognition_proxy.AccessControl.{Readers}
use face_recognition_proxy.Store.Archive.Insert.{schema_version, insert_access_event_projection}
use face_recognition_proxy.Store.Archive.Tables.{ProjectionRow, DeviceEventRow}

-- `ace.device_event_id IS NULL OR ace.schema_version < $1`
abbrev older : Option ProjectionRow → Bool
older none = true
older (some projection) = ltb projection.schema_version schema_version

abbrev pub is_outdated : DeviceEventRow → Bool
is_outdated row = older row.projection

abbrev pub payload_text : Option String → String
payload_text none = ""
payload_text (some payload) = payload

-- What the loop ends with: the rows, how many were projected, and the error of the transaction that
-- failed.
pub data Backfill : Type 0 where
  caught_up : List DeviceEventRow → ℕ → Backfill
  stopped : List DeviceEventRow → ℕ → String → Backfill
  out_of_fuel : Backfill

module _ (r : Readers) where
  -- One transaction: the first `limit` outdated rows.
  unfoldable pub project_batch : ℕ → List DeviceEventRow → Result String (List DeviceEventRow × ℕ)
  project_batch zero rows = ok (rows, 0)
  project_batch (suc limit) [] = ok ([], 0)
  project_batch (suc limit) (row ∷ rows) =
      let skipped = (do (rest, count) ← project_batch (suc limit) rows; ok (row ∷ rest, count)) in
      let taken = (do
        projection ←
            insert_access_event_projection r row.data_format (payload_text row.payload_base64)
        (rest, count) ← project_batch limit rows
        ok (record row { projection = some projection } ∷ rest, count + 1)) in
      if is_outdated row then taken else skipped

  unfoldable pub backfill : ℕ → ℕ → List DeviceEventRow → Backfill
  unfolding project_batch
  backfill zero projected rows = out_of_fuel
  backfill (suc fuel) projected rows = elim (project_batch 500 rows) [
    | err e ↦ stopped rows projected e
    | ok (rest, zero) ↦ caught_up rest projected
    | ok (rest, suc count) ↦ backfill fuel (projected + suc count) rest
  ]
