-- ===== src/Encoding/Hex.antt =====
-- hex.EncodeToString and hex.DecodeString of Go's encoding/hex, on bytes.
use face_recognition_proxy.Prelude.{
  ℕ, ◌+◌, ◌-◌, ◌*◌, ◌/◌, ◌%◌, ◌<◌, ◌≡◌, refl, true, ◌&&◌, Option, none, some, [], ◌∷◌, Bytes, arith,
  ltb, leb, nat_eq, if◌then◌else◌, is_digit, is_lower_hex, length, all, All,
}

digit : ℕ → ℕ
digit n = if ltb n 10 then n + b'0' else n + 87

unfoldable pub encode : Bytes → Bytes
unfolding digit
encode [] = []
encode (b ∷ bs) = digit (b / 16) ∷ digit (b % 16) ∷ encode bs

-- Both cases are read.
value : ℕ → Option ℕ
value c =
    if is_digit c
    then some (c - b'0')
    else if leb b'a' c && leb c b'f'
    then some (c - 87)
    else if leb b'A' c && leb c b'F'
    then some (c - 55)
    else none

byte_of : Option ℕ → Option ℕ → Option Bytes → Option Bytes
byte_of (some h) (some l) (some bs) = some ((h * 16 + l) ∷ bs)
byte_of _ _ _ = none

unfoldable pub decode : Bytes → Option Bytes
unfolding value byte_of
decode [] = some []
decode (c ∷ []) = none
decode (c ∷ d ∷ bs) = byte_of (value c) (value d) (decode bs)

abbrev pub IsByte : ℕ → Type 0
IsByte b = b < 256

digit-value : (n : ℕ) → n < 16 → value (digit n) ≡ some n
unfolding value digit
digit-value n h = ground arith

digit-is_lower_hex : (n : ℕ) → n < 16 → is_lower_hex (digit n) ≡ true
unfolding digit
digit-is_lower_hex n h = ground arith

pub decode-encode : (bs : Bytes) → All IsByte bs → decode (encode bs) ≡ some bs
unfolding encode decode
decode-encode [] h = refl
decode-encode (b ∷ bs) h =
    ground (arith, digit-value (b / 16), digit-value (b % 16), decode-encode bs h.1)

pub length-encode : (bs : Bytes) → length (encode bs) ≡ 2 * length bs
unfolding encode
length-encode [] = refl
length-encode (b ∷ bs) = omega (arith, length-encode bs)

pub encode-is_lower_hex : (bs : Bytes) → All IsByte bs → all is_lower_hex (encode bs) ≡ true
unfolding encode
encode-is_lower_hex [] h = refl
encode-is_lower_hex (b ∷ bs) h =
    ground
      (arith, digit-is_lower_hex (b / 16), digit-is_lower_hex (b % 16), encode-is_lower_hex bs h.1)
