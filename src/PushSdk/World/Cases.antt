-- ===== src/PushSdk/World/Cases.antt =====
-- The two ways in which a transaction and a read of random bytes end.
use face_recognition_proxy.Prelude.{
  ℕ, ◌+◌, ◌≡◌, ◌⊎◌, inl, inr, true, Option, some, List, Bytes, String, arith, Bool-cases,
  Option-cases,
}
use face_recognition_proxy.Result.{Result, ok, err, Result-cases}
use face_recognition_proxy.Protocol.{Failure, internal}
use face_recognition_proxy.Store.Tables.{Db}
use face_recognition_proxy.PushSdk.World.{Env, World, Step, transaction, random, continue, ◌>>=◌}

module _ {Q : Type 0} (env : Env) where
  -- Question k of the store is answered by an error, or the transaction on it refuses.
  abbrev pub Fails : {A : Type 0} → ℕ → Db Q → (ℕ → Db Q → Result String (Db Q × A)) → Type 0
  Fails k db f = (env.store_fails k ≡ true) ⊎ ((reason : String) × (f (env.now k) db ≡ err reason))

module _ {Q : Type 0} (env : Env) (w : World Q) where
  abbrev pub asked_once : World Q
  asked_once = record w { asked = w.asked + 1 }

  -- Nothing but the number of questions has changed, or the new database is in place.
  abbrev pub Ended : {A : Type 0} → (ℕ → Db Q → Result String (Db Q × A)) → Type 0
  Ended {A} f =
      ((e : Failure) × (transaction env f w ≡ (err e, asked_once)))
      ⊎ ((db : Db Q) × (a : A) × (f (env.now w.asked) w.db ≡ ok (db, a))
          × (transaction env f w ≡ (ok a, record (asked_once) { db = db })))

  pub transaction-cases : {A : Type 0} (f : ℕ → Db Q → Result String (Db Q × A)) → Ended f
  unfolding transaction
  transaction-cases f = elim (Bool-cases (env.store_fails w.asked)) [
    | inl e ↦ inl (internal "the store is not available", rw e)
    | inr e ↦ elim (Result-cases (f (env.now w.asked) w.db)) [
      | inl (x, h) ↦ inr (x.0, x.1, h, ground arith)
      | inr (x, h) ↦ inl (internal x, ground arith)
    ]
  ]

  -- A transaction that does not go through fails, and leaves the database.
  pub transaction-Fails :
      {A : Type 0} (f : ℕ → Db Q → Result String (Db Q × A))
      → ((e : Failure) × (transaction env f w ≡ (err e, asked_once)) × Fails env w.asked w.db f)
        ⊎ ((db : Db Q) × (a : A) × (f (env.now w.asked) w.db ≡ ok (db, a))
            × (transaction env f w ≡ (ok a, record (asked_once) { db = db })))
  unfolding transaction
  transaction-Fails f = elim (Bool-cases (env.store_fails w.asked)) [
    | inl e ↦ inl (internal "the store is not available", rw e, inl e)
    | inr e ↦ elim (Result-cases (f (env.now w.asked) w.db)) [
      | inl (x, h) ↦ inr (x.0, x.1, h, ground arith)
      | inr (x, h) ↦ inl (internal x, ground arith, inr (x, h))
    ]
  ]

  pub random-cases :
      (f : List Bytes → Option Bytes)
      → ((e : Failure) × (random env f w ≡ (err e, asked_once)))
        ⊎ ((bytes : Bytes) × (f (env.entropy w.asked) ≡ some bytes)
            × (random env f w ≡ (ok bytes, asked_once)))
  unfolding random
  random-cases f = elim (Option-cases (f (env.entropy w.asked))) [
    | inl e ↦ inl (internal "the random reader failed", ground arith)
    | inr (bytes, e) ↦ inr (bytes, e, ground arith)
  ]

-- What holds after the first of two steps, and what the second makes of it.
module _ {Q A B : Type 0} (P : Result Failure A × World Q → Type 0)
    (R : Result Failure B × World Q → Type 0) where
  continue_rule :
      (f : A → Step Q B) (x : Result Failure A × World Q)
      → P x
      → ((a : A) (w : World Q) → P (ok a, w) → R (f a w))
      → ((e : Failure) (w : World Q) → P (err e, w) → R (err e, w))
      → R (continue x.0 f x.1)
  continue_rule f (ok a, w) before then_ok then_err = then_ok a w before
  continue_rule f (err e, w) before then_ok then_err = then_err e w before

  pub bind_rule :
      (m : Step Q A) (f : A → Step Q B) (w : World Q)
      → P (m w)
      → ((a : A) (w' : World Q) → P (ok a, w') → R (f a w'))
      → ((e : Failure) (w' : World Q) → P (err e, w') → R (err e, w'))
      → R ((m >>= f) w)
  bind_rule m f w before = continue_rule f (m w) before
