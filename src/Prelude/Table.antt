-- ===== src/Prelude/Table.antt =====
-- A keyed table: the rows of a database table under its primary key, and a Go map with text keys.
-- `put` replaces the row in place, so that a table keeps the order in which its keys were added.
use Prim.Native.Nat.{ℕ, ◌+◌}
use Prim.Native.String.{String}
use mathlib.Core.Path.{◌≡◌, refl}
use mathlib.Core.List.{List, [], ◌∷◌}
use mathlib.Core.Option.{Option, none, some}
use native.Mathlib.Omega.{arith}
use text.Mathlib.TextEquality.{eq_iff}
use text.Mathlib.TextPositions.{eq_refl}
use face_recognition_proxy.Prelude.Tests.{◌==◌, string_eq, if◌then◌else◌}

abbrev pub Table {ℓ} : Type ℓ → Type ℓ
Table V = List (String × V)

module _ {ℓ} {V : Type ℓ} where
  unfoldable pub get : String → Table V → Option V
  get k [] = none
  get k ((j, v) ∷ m) = if j == k then some v else get k m

  unfoldable pub put : String → V → Table V → Table V
  put k v [] = (k, v) ∷ []
  put k v ((j, w) ∷ m) = if j == k then (k, v) ∷ m else (j, w) ∷ put k v m

  unfoldable pub remove : String → Table V → Table V
  remove k [] = []
  remove k ((j, v) ∷ m) = let rest = remove k m in if j == k then rest else (j, v) ∷ rest

  pub get-put :
      (k j : String) (v : V) (m : Table V)
      → get j (put k v m) ≡ (if k == j then some v else get j m)
  unfolding get put
  get-put k j v [] = refl
  get-put k j v ((i, w) ∷ m) = ground (arith, eq_iff k j, eq_iff i k, eq_iff i j, get-put k j v m)

  pub get-put_same : (k : String) (v : V) (m : Table V) → get k (put k v m) ≡ some v
  get-put_same k v m = ground (arith, get-put k k v m, eq_refl k)

  pub get-remove :
      (k j : String) (m : Table V) → get j (remove k m) ≡ (if k == j then none else get j m)
  unfolding get remove
  get-remove k j [] = ground arith
  get-remove k j ((i, v) ∷ m) = ground (arith, get-remove k j m, eq_iff i k, eq_iff i j, eq_iff k j)

  pub get-remove_same : (k : String) (m : Table V) → get k (remove k m) ≡ none
  get-remove_same k m = ground (arith, get-remove k k m, eq_refl k)

  -- No key stands in two rows.
  abbrev pub Unique : Table V → Type ℓ
  Unique [] = Unit
  Unique ((k, v) ∷ m) = (get k m ≡ none) × Unique m

  pub put-Unique : (k : String) (v : V) (m : Table V) → Unique m → Unique (put k v m)
  unfolding get put
  put-Unique k v [] u = (refl, tt)
  put-Unique k v ((j, w) ∷ m) u =
      ground (arith, get-put k j v m, eq_iff j k, eq_iff k j, put-Unique k v m u.1)

  pub remove-Unique : (k : String) (m : Table V) → Unique m → Unique (remove k m)
  unfolding get remove
  remove-Unique k [] u = tt
  remove-Unique k ((j, w) ∷ m) u = ground (arith, get-remove k j m, remove-Unique k m u.1)

  -- The sum of a measure over the rows, and what a row adds to it.
  pub tally : (V → ℕ) → Table V → ℕ
  tally f [] = 0
  tally f ((k, v) ∷ m) = f v + tally f m

  abbrev pub score : (V → ℕ) → Option V → ℕ
  score f none = 0
  score f (some v) = f v

  pub tally-put :
      (f : V → ℕ) (k : String) (v : V) (m : Table V)
      → tally f (put k v m) + score f (get k m) ≡ tally f m + f v
  unfolding get put tally
  tally-put f k v [] = omega arith
  tally-put f k v ((j, w) ∷ m) = ground (arith, tally-put f k v m)

  remove_absent : (k : String) (m : Table V) → get k m ≡ none → remove k m ≡ m
  unfolding get remove
  remove_absent k [] h = refl
  remove_absent k ((j, w) ∷ m) h = ground (arith, remove_absent k m)

  pub tally-remove :
      (f : V → ℕ) (k : String) (m : Table V)
      → Unique m
      → tally f (remove k m) + score f (get k m) ≡ tally f m
  unfolding get remove tally
  tally-remove f k [] u = omega arith
  tally-remove f k ((j, w) ∷ m) u =
      ground (arith, tally-remove f k m u.1, remove_absent k m, eq_iff j k)
