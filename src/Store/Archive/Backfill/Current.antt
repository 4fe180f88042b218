-- ===== src/Store/Archive/Backfill/Current.antt =====
-- The projections after the loop.
use face_recognition_proxy.Prelude.{
  ℕ, zero, suc, ◌+◌, ◌≡◌, ◌<◌, ◌⊎◌, refl, true, false, some, List, [], ◌∷◌, String, arith,
  if◌then◌else◌, Bool-cases, inl, inr,
}
use face_recognition_proxy.Result.{ok, >>=-eq-ok, Result-cases}
use face_recognition_proxy.AccessControl.{Readers}
use face_recognition_proxy.Store.Archive.Backfill.{
  is_outdated, payload_text, Backfill, caught_up, stopped, out_of_fuel, project_batch, backfill,
}
use face_recognition_proxy.Store.Archive.Insert.{insert_access_event_projection}
use face_recognition_proxy.Store.Archive.Tables.{ProjectionRow, DeviceEventRow}

unfoldable pub outdated : List DeviceEventRow → ℕ
outdated [] = 0
outdated (row ∷ rows) = let rest = outdated rows in if is_outdated row then rest + 1 else rest

module _ (r : Readers) where
  -- A row is left as it is, or was outdated and gets the projection of its own payload.
  abbrev pub Projected : DeviceEventRow → DeviceEventRow → Type 0
  Projected row row' =
      (row' ≡ row)
      ⊎ ((projection : ProjectionRow) × (insert_access_event_projection r row.data_format
              (payload_text row.payload_base64)
            ≡ ok projection)
          × (is_outdated row ≡ true)
          × (row' ≡ record row { projection = some projection }))

  abbrev pub AllProjected : List DeviceEventRow → List DeviceEventRow → Type 0
  AllProjected [] rows' = rows' ≡ []
  AllProjected (row ∷ rows) [] = ⊥
  AllProjected (row ∷ rows) (row' ∷ rows') = Projected row row' × AllProjected rows rows'

  AllProjected-refl : (rows : List DeviceEventRow) → AllProjected rows rows
  AllProjected-refl [] = refl
  AllProjected-refl (row ∷ rows) = (inl refl, AllProjected-refl rows)

  Projected-trans : (a b c : DeviceEventRow) → Projected a b → Projected b c → Projected a c
  Projected-trans a b c (inl same) later = rw (← same) later
  Projected-trans a b c earlier (inl same) = rw same earlier
  Projected-trans a b c (inr (p, made, old, same)) (inr (q, made', old', same')) =
      inr (q, rw same at made', old, rw same at same')

  AllProjected-trans :
      (a b c : List DeviceEventRow) → AllProjected a b → AllProjected b c → AllProjected a c
  AllProjected-trans [] b c first second = rw first at second
  AllProjected-trans (x ∷ xs) (y ∷ ys) (z ∷ zs) (p, ps) (q, qs) =
      (Projected-trans x y z p q, AllProjected-trans xs ys zs ps qs)
  AllProjected-trans (x ∷ xs) (y ∷ ys) [] first second = absurd second
  AllProjected-trans (x ∷ xs) [] c first second = absurd first

  projection-current :
      (format payload : String) (p : ProjectionRow) (row : DeviceEventRow)
      → insert_access_event_projection r format payload ≡ ok p
      → is_outdated (record row { projection = some p }) ≡ false
  unfolding insert_access_event_projection
  projection-current format payload p row made = ground arith

  -- What one transaction does: every outdated row is projected, or some row is.
  abbrev Batched : ℕ → List DeviceEventRow → List DeviceEventRow → ℕ → Type 0
  Batched limit rows rows' count =
      AllProjected rows rows'
      × (outdated rows' + count ≡ outdated rows)
      × ((0 < limit) → (count ≡ 0) → outdated rows ≡ 0)

  Batched-as :
      (limit : ℕ) (rows rows' rows1 : List DeviceEventRow) (count count1 : ℕ)
      → rows' ≡ rows1
      → count ≡ count1
      → Batched limit rows rows1 count1
      → Batched limit rows rows' count
  Batched-as limit rows rows' rows1 count count1 same counted batched = rw (same, counted) batched

  project_batch-Batched :
      (limit : ℕ) (rows rows' : List DeviceEventRow) (count : ℕ)
      → project_batch r limit rows ≡ ok (rows', count)
      → Batched limit rows rows' count
  unfolding project_batch outdated
  project_batch-Batched zero rows rows' count h =
      let same : rows' ≡ rows = ground arith in
      (rw same (AllProjected-refl rows), ground arith, ground arith)
  project_batch-Batched (suc limit) [] rows' count h = (ground arith, ground arith, ground arith)
  project_batch-Batched (suc limit) (row ∷ rows) rows' count h =
      elim (Bool-cases (is_outdated row)) [
        | inl old ↦
            let (p, made, h1) =
              >>=-eq-ok
                (insert_access_event_projection r row.data_format (payload_text row.payload_base64))
                _ (rw (project_batch, old) at h) in
            let ((rest, k), batch, h2) = >>=-eq-ok (project_batch r limit rows) _ h1 in
            let (all_projected, counted, _) = project_batch-Batched limit rows rest k batch in
            let current =
              projection-current row.data_format (payload_text row.payload_base64) p row made in
            Batched-as (suc limit) (row ∷ rows) rows' (record row { projection = some p } ∷ rest)
              count (k + 1) (ground arith) (ground arith)
              (
                (inr (p, made, old, refl), all_projected),
                rw (current, old) (omega arith),
                (λ some_limit none_taken. absurd (omega arith)),
              )
        | inr new ↦
            let ((rest, k), batch, h1) =
              >>=-eq-ok (project_batch r (suc limit) rows) _ (rw (project_batch, new) at h) in
            let (all_projected, counted, spare) =
              project_batch-Batched (suc limit) rows rest k batch in
            Batched-as (suc limit) (row ∷ rows) rows' (row ∷ rest) count k (ground arith)
              (ground arith) ((inl refl, all_projected), rw new counted, rw new spare)
      ]

  -- The loop has ended with every row current, or at the error of a transaction.
  abbrev pub Ended : ℕ → List DeviceEventRow → Backfill → Type 0
  Ended projected rows (caught_up rows' count) =
      AllProjected rows rows' × (outdated rows' ≡ 0) × (count ≡ projected + outdated rows)
  Ended projected rows (stopped rows' count e) =
      AllProjected rows rows' × (count + outdated rows' ≡ projected + outdated rows)
  Ended projected rows out_of_fuel = ⊥

  Ended-trans :
      (rows rest : List DeviceEventRow) (projected count : ℕ) (end : Backfill)
      → AllProjected rows rest
      → outdated rest + count ≡ outdated rows
      → Ended (projected + count) rest end
      → Ended projected rows end
  Ended-trans rows rest projected count (caught_up rows' n) before counted (after, current, total) =
      (AllProjected-trans rows rest rows' before after, current, omega arith)
  Ended-trans rows rest projected count (stopped rows' n e) before counted (after, total) =
      (AllProjected-trans rows rest rows' before after, omega arith)
  Ended-trans rows rest projected count out_of_fuel before counted ended = ended

  -- With more turns than outdated rows, the loop over the projections ends: either every row is
  -- current and the count is that of the rows that were outdated, or one transaction has failed
  -- and the count with the rows still outdated is that of the rows outdated at first; in both
  -- cases each row is as it was, or it was outdated and has the projection of its own payload.
  pub backfill-Ended :
      (fuel projected : ℕ) (rows : List DeviceEventRow)
      → outdated rows < fuel
      → Ended projected rows (backfill r fuel projected rows)
  unfolding backfill
  backfill-Ended zero projected rows enough = absurd (omega arith)
  backfill-Ended (suc fuel) projected rows enough = elim (Result-cases (project_batch r 500 rows)) [
    | inr (e, stops) ↦ rw (backfill, stops) (AllProjected-refl rows, refl)
    | inl ((rest, zero), batch) ↦
        let (all_projected, counted, spare) = project_batch-Batched 500 rows rest 0 batch in
        let current : outdated rows ≡ 0 = spare (omega arith) refl in
        rw (backfill, batch) (all_projected, omega arith, omega arith)
    | inl ((rest, suc count), batch) ↦
        let (all_projected, counted, spare) =
          project_batch-Batched 500 rows rest (suc count) batch in
        rw (backfill, batch)
          (Ended-trans rows rest projected (suc count)
            (backfill r fuel (projected + suc count) rest) all_projected counted
            (backfill-Ended fuel (projected + suc count) rest (omega arith)))
  ]
