-- ===== src/Result.antt =====
-- A Go result pair `(value, error)`: either the value or the error.
use face_recognition_proxy.Prelude.{◌≡◌, refl, ◌⊎◌, inl, inr, Bool, true, false, Option, none, some}

pub data Result {ℓ κ} (E : Type κ) (A : Type ℓ) : Type (ℓ ⊔ κ) where
  ok : A → Result E A
  err : E → Result E A

abbrev pub ◌>>=◌ {ℓ κ ι} :
    {A : Type ℓ} {B : Type κ} {E : Type ι} → Result E A → (A → Result E B) → Result E B
err reason >>= next = err reason
ok value >>= next = next value

abbrev pub ◌>>◌ {ℓ ι} : {B : Type ℓ} {E : Type ι} → Result E (Unit {0}) → Result E B → Result E B
checked >> result = checked >>= λ _. result

infixl 5 ◌>>=◌ ◌>>◌
-- `if bad { return err }`
abbrev pub refuse {ι} : {E : Type ι} → Bool → E → Result E (Unit {0})
refuse true e = err e
refuse false e = ok tt

-- A pointer that must not be nil.
abbrev pub require {ℓ ι} : {E : Type ι} {A : Type ℓ} → Option A → E → Result E A
require none e = err e
require (some a) e = ok a

-- A chain that went through: its first step did, and the rest on that value.
pub >>=-eq-ok {ℓ κ ι} :
    {E : Type ι} {A : Type ℓ} {B : Type κ} (first : Result E A) (rest : A → Result E B) {last : B}
    → (first >>= rest) ≡ ok last
    → (middle : A) × (first ≡ ok middle) × (rest middle ≡ ok last)
>>=-eq-ok (err reason) rest through = cc
>>=-eq-ok (ok middle) rest through = (middle, refl, through)

pub Result-cases {ℓ ι} :
    {E : Type ι} {A : Type ℓ} (r : Result E A) → ((a : A) × (r ≡ ok a)) ⊎ ((e : E) × (r ≡ err e))
Result-cases (ok a) = inl (a, refl)
Result-cases (err e) = inr (e, refl)
