-- ===== src/Encoding/Base64.antt =====
-- base64.StdEncoding of Go's encoding/base64: EncodeToString and DecodeString, on bytes. The decoder
-- skips line ends, wants the padding, and does not look at the bits that the padding leaves over.
use face_recognition_proxy.Prelude.{
  ℕ, ◌+◌, ◌-◌, ◌*◌, ◌/◌, ◌%◌, ◌<◌, ◌≡◌, refl, ◌||◌, Option, none, some, [], ◌∷◌, Bytes, arith, ltb,
  nat_eq, ◌==◌, if◌then◌else◌, is_digit, is_upper, is_lower, All, false,
}
use face_recognition_proxy.Encoding.Hex.{IsByte}

-- The alphabet, and its inverse.
symbol : ℕ → ℕ
symbol n =
    if ltb n 26
    then n + b'A'
    else if ltb n 52
    then n + 71
    else if ltb n 62
    then n - 4
    else if n == 62
    then b'+'
    else b'/'

value : ℕ → Option ℕ
value c =
    if is_upper c
    then some (c - b'A')
    else if is_lower c
    then some (c - 71)
    else if is_digit c
    then some (c + 4)
    else if c == b'+'
    then some 62
    else if c == b'/'
    then some 63
    else none

unfoldable pub encode : Bytes → Bytes
unfolding symbol
encode [] = []
encode (a ∷ []) = symbol (a / 4) ∷ symbol ((a % 4) * 16) ∷ b'=' ∷ b'=' ∷ []
encode (a ∷ b ∷ []) =
    symbol (a / 4) ∷ symbol ((a % 4) * 16 + b / 16) ∷ symbol ((b % 16) * 4) ∷ b'=' ∷ []
encode (a ∷ b ∷ c ∷ bs) =
    symbol (a / 4)
    ∷ symbol ((a % 4) * 16 + b / 16)
    ∷ symbol ((b % 16) * 4 + c / 64)
    ∷ symbol (c % 64)
    ∷ encode bs

-- '\r' and '\n' are skipped wherever they stand.
without_line_ends : Bytes → Bytes
without_line_ends [] = []
without_line_ends (c ∷ cs) =
    let rest = without_line_ends cs in if c == 10 || c == 13 then rest else c ∷ rest

one : Option ℕ → Option ℕ → Option Bytes
one (some x) (some y) = some ((x * 4 + y / 16) ∷ [])
one _ _ = none

two : Option ℕ → Option ℕ → Option ℕ → Option Bytes
two (some x) (some y) (some z) = some ((x * 4 + y / 16) ∷ ((y % 16) * 16 + z / 4) ∷ [])
two _ _ _ = none

three : Option ℕ → Option ℕ → Option ℕ → Option ℕ → Option Bytes → Option Bytes
three (some x) (some y) (some z) (some w) (some bs) =
    some ((x * 4 + y / 16) ∷ ((y % 16) * 16 + z / 4) ∷ ((z % 4) * 64 + w) ∷ bs)
three _ _ _ _ _ = none

last_quad : ℕ → ℕ → ℕ → Bytes → Option Bytes
unfolding one two value
last_quad x y z [] =
    if z == b'=' then one (value x) (value y) else two (value x) (value y) (value z)
last_quad x y z (_ ∷ _) = none

quads : Bytes → Option Bytes
unfolding last_quad three
quads [] = some []
quads (x ∷ y ∷ z ∷ w ∷ cs) =
    let rest = quads cs in
    if w == b'=' then last_quad x y z cs else three (value x) (value y) (value z) (value w) rest
quads _ = none

unfoldable pub decode : Bytes → Option Bytes
unfolding without_line_ends quads
decode cs = quads (without_line_ends cs)

value-symbol : (n : ℕ) → n < 64 → value (symbol n) ≡ some n
unfolding value symbol
value-symbol n h = ground arith

-- No symbol is the padding or a line end.
symbol_plain :
    (n : ℕ)
    → n < 64
    → ((symbol n == b'=') ≡ false) × ((symbol n == 10) ≡ false) × ((symbol n == 13) ≡ false)
unfolding symbol
symbol_plain n h = ground arith

without_line_ends-encode : (bs : Bytes) → All IsByte bs → without_line_ends (encode bs) ≡ encode bs
unfolding encode without_line_ends
without_line_ends-encode [] h = refl
without_line_ends-encode (a ∷ []) h =
    ground (arith, symbol_plain (a / 4), symbol_plain ((a % 4) * 16))
without_line_ends-encode (a ∷ b ∷ []) h =
    ground (
      arith,
      symbol_plain (a / 4),
      symbol_plain ((a % 4) * 16 + b / 16),
      symbol_plain ((b % 16) * 4),
    )
without_line_ends-encode (a ∷ b ∷ c ∷ bs) h = ground (
  arith,
  symbol_plain (a / 4),
  symbol_plain ((a % 4) * 16 + b / 16),
  symbol_plain ((b % 16) * 4 + c / 64),
  symbol_plain (c % 64),
  without_line_ends-encode bs h.1.1.1,
)

quads-encode : (bs : Bytes) → All IsByte bs → quads (encode bs) ≡ some bs
unfolding encode quads
quads-encode [] h = refl
quads-encode (a ∷ []) h = ground (arith, value-symbol (a / 4), value-symbol ((a % 4) * 16))
quads-encode (a ∷ b ∷ []) h = ground (
  arith,
  symbol_plain ((b % 16) * 4),
  value-symbol (a / 4),
  value-symbol ((a % 4) * 16 + b / 16),
  value-symbol ((b % 16) * 4),
)
quads-encode (a ∷ b ∷ c ∷ bs) h = ground (
  arith,
  symbol_plain (c % 64),
  value-symbol (a / 4),
  value-symbol ((a % 4) * 16 + b / 16),
  value-symbol ((b % 16) * 4 + c / 64),
  value-symbol (c % 64),
  quads-encode bs h.1.1.1,
)

pub decode-encode : (bs : Bytes) → All IsByte bs → decode (encode bs) ≡ some bs
unfolding decode
decode-encode bs h = rw (without_line_ends-encode bs h) (quads-encode bs h)
