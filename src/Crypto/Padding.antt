-- ===== src/Crypto/Padding.antt =====
-- PKCS#7 padding of internal/pushsdk/crypto.go, over the AES block size that the gateway uses.
use face_recognition_proxy.Prelude.{
  ℕ, zero, suc, ◌+◌, ◌-◌, ◌%◌, ◌≤◌, ◌<◌, ◌≡◌, ◌↔◌, refl, sym, ap, ◌∙◌, true, not, ◌||◌, [], ◌∷◌,
  ◌++◌, Bytes, arith, ltb, nat_eq, ◌==◌, length, take, drop, replicate, all, get_or, length-append,
  length-replicate, take-append_length, drop-append_length, take-append-drop, length-drop, All,
}
use mathlib.Core.Path.{ap₂}
use native.Mathlib.Nat.{zero-add, suc-add}
use face_recognition_proxy.Encoding.Hex
use face_recognition_proxy.Result.{Result, ok, ◌>>◌, refuse}

-- aes.BlockSize
abbrev pub block_size : ℕ
block_size = 16

pub data PaddingError : Type 0 where
  invalid_padded_plaintext_length invalid_padding : PaddingError

-- padPKCS7 at size `block_size`
unfoldable pub pad_pkcs7 : Bytes → Bytes
pad_pkcs7 plain =
    let padding = block_size - length plain % block_size in
    plain ++ replicate padding (padding % 256)

unfoldable pub unpad_pkcs7 : Bytes → Result PaddingError Bytes
unpad_pkcs7 padded = do
  let size = length padded
  refuse (size == 0 || not (size % block_size == 0)) invalid_padded_plaintext_length
  let padding = get_or padded (size - 1) 0
  refuse (ltb padding 1 || ltb block_size padding || ltb size padding) invalid_padding
  refuse (not (all (λ item. item == padding) (drop (size - padding) padded))) invalid_padding
  ok (take (size - padding) padded)

get_or-append_right :
    (plain ys : Bytes) (i : ℕ) → get_or (plain ++ ys) (length plain + i) 0 ≡ get_or ys i 0
get_or-append_right [] ys i = rw zero-add
get_or-append_right (x ∷ plain) ys i = rw suc-add (get_or-append_right plain ys i)

get_or-replicate : (n padding : ℕ) → get_or (replicate (suc n) padding) n 0 ≡ padding
get_or-replicate zero padding = refl
get_or-replicate (suc n) padding = get_or-replicate n padding

last_of_padding :
    (plain : Bytes) (n padding : ℕ)
    → let padded = plain ++ replicate (suc n) padding in
      get_or padded (length padded - 1) 0 ≡ padding
last_of_padding plain n padding =
    let padded : Bytes = plain ++ replicate (suc n) padding in
    let at : length padded - 1 ≡ length plain + n =
      omega (
        arith,
        length-append plain (replicate (suc n) padding),
        length-replicate (suc n) padding,
      ) in
    rw at (get_or-append_right plain (replicate (suc n) padding) n ∙ get_or-replicate n padding)

all_padding : (n padding : ℕ) → all (λ item. item == padding) (replicate n padding) ≡ true
all_padding zero padding = refl
all_padding (suc n) padding = ground (arith, all_padding n padding)

all-replicate :
    (items : Bytes) (padding : ℕ)
    → all (λ item. item == padding) items ≡ true
    → items ≡ replicate (length items) padding
all-replicate [] padding h = refl
all-replicate (x ∷ items) padding h = ground (arith, all-replicate items padding)

pub length-pad_pkcs7 :
    (plain : Bytes)
    → (length (pad_pkcs7 plain) % block_size ≡ 0)
      × (length plain < length (pad_pkcs7 plain))
      × (length (pad_pkcs7 plain) ≤ length plain + block_size)
unfolding pad_pkcs7
length-pad_pkcs7 plain =
    let p = block_size - length plain % block_size in
    omega (arith, length-append plain (replicate p (p % 256)), length-replicate p (p % 256))

unpad-append :
    (plain : Bytes) (n : ℕ)
    → n < block_size
    → (length plain + suc n) % block_size ≡ 0
    → unpad_pkcs7 (plain ++ replicate (suc n) (suc n)) ≡ ok plain
unfolding unpad_pkcs7
unpad-append plain n small whole =
    let padding : Bytes = replicate (suc n) (suc n) in
    let size : length (plain ++ padding) ≡ length plain + suc n =
      length-append plain padding ∙ ap (λ k. length plain + k) (length-replicate (suc n) (suc n)) in
    let last = last_of_padding plain n (suc n) in
    let cut : length (plain ++ padding) - suc n ≡ length plain = omega (arith, size) in
    ground (
      arith,
      last,
      size,
      cut,
      all_padding (suc n) (suc n),
      drop-append_length plain padding,
      take-append_length plain padding,
    )

pub unpad-pad : (plain : Bytes) → unpad_pkcs7 (pad_pkcs7 plain) ≡ ok plain
unfolding pad_pkcs7
unpad-pad plain =
    let n = 15 - length plain % block_size in
    let full : block_size - length plain % block_size ≡ suc n = omega arith in
    let byte : suc n % 256 ≡ suc n = omega arith in
    rw (full, byte) (unpad-append plain n (omega arith) (omega arith))

unpad_cases :
    (padded plain : Bytes)
    → unpad_pkcs7 padded ≡ ok plain
    → let size = length padded in
      let padding = get_or padded (size - 1) 0 in
      (size % block_size ≡ 0)
      × (1 ≤ padding)
      × (padding ≤ block_size)
      × (padding ≤ size)
      × (all (λ item. item == padding) (drop (size - padding) padded) ≡ true)
      × (take (size - padding) padded ≡ plain)
unfolding unpad_pkcs7
unpad_cases padded plain h = ground arith

pad-unpad : (padded plain : Bytes) → unpad_pkcs7 padded ≡ ok plain → padded ≡ pad_pkcs7 plain
unfolding pad_pkcs7
pad-unpad padded plain h =
    let size = length padded in
    let padding = get_or padded (size - 1) 0 in
    let (whole, low, high, fits, same, front) = unpad_cases padded plain h in
    let tail = drop (size - padding) padded in
    let back : tail ≡ replicate padding padding =
      all-replicate tail padding same
      ∙ ap (λ k. replicate k padding) (omega (arith, length-drop (size - padding) padded)) in
    let joined : plain ++ replicate padding padding ≡ padded =
      ap₂ (λ (xs ys : Bytes). xs ++ ys) (sym front) (sym back)
      ∙ take-append-drop (size - padding) padded in
    let parts : length plain + padding ≡ size = omega (
      arith,
      ap length joined,
      length-append plain (replicate padding padding),
      length-replicate padding padding,
    ) in
    let same_padding : block_size - length plain % block_size ≡ padding = omega arith in
    let byte : padding % 256 ≡ padding = omega arith in rw (same_padding, byte) (sym joined)

-- What the unpadding accepts, with the plaintext that it gives, is exactly the padding of that
-- plaintext.
pub unpad-eq-ok_iff :
    (padded plain : Bytes) → (unpad_pkcs7 padded ≡ ok plain) ↔ (padded ≡ pad_pkcs7 plain)
unpad-eq-ok_iff padded plain = (pad-unpad padded plain, λ e. rw e (unpad-pad plain))

replicate-IsByte : (n padding : ℕ) → padding < 256 → All Hex.IsByte (replicate n padding)
replicate-IsByte zero padding h = tt
replicate-IsByte (suc n) padding h = (h, replicate-IsByte n padding h)

append-IsByte : (xs ys : Bytes) → All Hex.IsByte xs → All Hex.IsByte ys → All Hex.IsByte (xs ++ ys)
append-IsByte [] ys hx hy = hy
append-IsByte (x ∷ xs) ys hx hy = (hx.0, append-IsByte xs ys hx.1 hy)

pub pad_pkcs7-IsByte : (plain : Bytes) → All Hex.IsByte plain → All Hex.IsByte (pad_pkcs7 plain)
unfolding pad_pkcs7
pad_pkcs7-IsByte plain h = append-IsByte plain _ h (replicate-IsByte _ _ (omega arith))
