-- ===== src/Crypto/Random.antt =====
-- Random identifiers of internal/pushsdk/crypto.go. What the reader will deliver, 32 bytes at a
-- time, is an argument: a list of blocks, after which it fails.
use face_recognition_proxy.Prelude.{
  Option-cases, inl, inr, ℕ, zero, suc, ◌-◌, ◌%◌, ◌≤◌, ◌<◌, ◌≡◌, refl, true, false, not, ◌&&◌,
  Option, none, some, List, [], ◌∷◌, ◌++◌, Bytes, codes, arith, leb, nat_eq, ◌==◌, length, all,
  get_or, length-append, all-append, holds_below, holds_below_at, count_below, is_alphanumeric,
  is_lower_hex, nat_beq_iff, All,
}
use face_recognition_proxy.Encoding.Hex

abbrev pub alphabet : Bytes
alphabet = codes "0123456789ABCDEFGHIJKLMNOPQRSTUVWXYZabcdefghijklmnopqrstuvwxyz"

-- `limit := 256 - (256 % len(alphabet))`
abbrev pub limit : ℕ
limit = 256 - 256 % length alphabet

abbrev pub letter : ℕ → ℕ
letter random = get_or alphabet (random % length alphabet) 0

-- The inner loop: the letters that one block gives, at most `wanted` of them.
unfoldable pub take_letters : ℕ → Bytes → Bytes
take_letters zero input = []
take_letters (suc wanted) [] = []
take_letters (suc wanted) (random ∷ input) = elim (leb limit random) [
  | true ↦ take_letters (suc wanted) input
  | false ↦ letter random ∷ take_letters wanted input
]

-- The outer loop: one block after another until `wanted` letters are there.
unfoldable pub random_alpha_numeric : ℕ → List Bytes → Option Bytes
unfolding take_letters
random_alpha_numeric zero blocks = some []
random_alpha_numeric (suc wanted) [] = none
random_alpha_numeric (suc wanted) (block ∷ blocks) =
    let taken = take_letters (suc wanted) block in
    elim (random_alpha_numeric (suc wanted - length taken) blocks) [
      | none ↦ none
      | some rest ↦ some (taken ++ rest)
    ]

-- randomCustomChallenge: one block, in lower-case hexadecimal.
unfoldable pub random_custom_challenge : List Bytes → Option Bytes
random_custom_challenge [] = none
random_custom_challenge (block ∷ blocks) = some (Hex.encode block)

letter-is_alphanumeric : (random : ℕ) → is_alphanumeric (letter random) ≡ true
letter-is_alphanumeric random =
    holds_below_at (λ i. is_alphanumeric (get_or alphabet i 0)) 62 (random % length alphabet)
      (omega arith) (unfold holds_below in refl)

take_letters-le : (wanted : ℕ) (input : Bytes) → length (take_letters wanted input) ≤ wanted
unfolding take_letters
take_letters-le zero input = omega arith
take_letters-le (suc wanted) [] = omega arith
take_letters-le (suc wanted) (random ∷ input) =
    ground (arith, take_letters-le (suc wanted) input, take_letters-le wanted input)

take_letters-all :
    (wanted : ℕ) (input : Bytes) → all is_alphanumeric (take_letters wanted input) ≡ true
unfolding take_letters
take_letters-all zero input = refl
take_letters-all (suc wanted) [] = refl
take_letters-all (suc wanted) (random ∷ input) = ground (
  arith,
  letter-is_alphanumeric random,
  take_letters-all (suc wanted) input,
  take_letters-all wanted input,
)

-- A random text is exactly as long as asked for, and all of it is letters and digits.
pub random_alpha_numeric-IsAlphanumeric :
    (wanted : ℕ) (blocks : List Bytes) (text : Bytes)
    → random_alpha_numeric wanted blocks ≡ some text
    → (length text ≡ wanted) × (all is_alphanumeric text ≡ true)
unfolding random_alpha_numeric
random_alpha_numeric-IsAlphanumeric zero blocks text h = ground arith
random_alpha_numeric-IsAlphanumeric (suc wanted) [] text h = cc
random_alpha_numeric-IsAlphanumeric (suc wanted) (block ∷ blocks) text h =
    let taken = take_letters (suc wanted) block in
    elim (Option-cases (random_alpha_numeric (suc wanted - length taken) blocks)) [
      | inl e ↦ ground arith
      | inr (rest, e) ↦ ground (
        arith,
        take_letters-le (suc wanted) block,
        take_letters-all (suc wanted) block,
        length-append taken rest,
        all-append is_alphanumeric taken rest,
        random_alpha_numeric-IsAlphanumeric (suc wanted - length taken) blocks rest e,
      )
    ]

-- How many of the 256 byte values are taken for the letter at a position.
abbrev pub values_for : ℕ → ℕ
values_for i = count_below 256 (λ random. not (leb limit random) && random % length alphabet == i)

-- Each of the 62 letters is taken for exactly 4 of the 256 values of a random byte.
letters_unbiased : (i : ℕ) → i < length alphabet → values_for i ≡ 4
letters_unbiased i h =
    (nat_beq_iff _ _).0
      (holds_below_at (λ j. values_for j == 4) 62 i h (unfold holds_below count_below in refl))

-- If the reader delivers blocks of 32 bytes, a random challenge is 64 lower-case hexadecimal
-- digits.
pub random_custom_challenge-IsLowerHex :
    (blocks : List Bytes) (text : Bytes)
    → All (λ block. (length block ≡ 32) × All Hex.IsByte block) blocks
    → random_custom_challenge blocks ≡ some text
    → (length text ≡ 64) × (all is_lower_hex text ≡ true)
unfolding random_custom_challenge
random_custom_challenge-IsLowerHex [] text read h = cc
random_custom_challenge-IsLowerHex (block ∷ blocks) text read h =
    ground (arith, Hex.length-encode block, Hex.encode-is_lower_hex block read.0.1)
