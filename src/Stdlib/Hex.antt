-- ===== src/Stdlib/Hex.antt =====
-- encoding/hex: EncodeToString and DecodeString.
use micelio.Base.{
  ℕ, ◌+◌, ◌-◌, ◌*◌, ◌/◌, ◌%◌, ◌<◌, ◌≡◌, refl, arith, [], ◌∷◌, Option, none, some, All, length, leb,
  ltb, if◌then◌else◌, ◌&&◌,
}
use micelio.Base.Bytes.{Bytes, IsByte}

-- "0123456789abcdef"[n]
digit : ℕ → ℕ
digit n = if ltb n 10 then b'0' + n else b'a' + (n - 10)

unfoldable pub encode : Bytes → Bytes
unfolding digit
encode [] = []
encode (b ∷ bs) = digit (b / 16) ∷ digit (b % 16) ∷ encode bs

digit_value : ℕ → Option ℕ
digit_value c =
    if leb b'0' c && leb c b'9'
    then some (c - b'0')
    else if leb b'a' c && leb c b'f'
    then some (c - b'a' + 10)
    else if leb b'A' c && leb c b'F'
    then some (c - b'A' + 10)
    else none

abbrev pair : Option ℕ → Option ℕ → Option Bytes → Option Bytes
pair (some hi) (some lo) (some bs) = some ((hi * 16 + lo) ∷ bs)
pair (some hi) (some lo) none = none
pair (some hi) none rest = none
pair none lo rest = none

-- `none` is an error: a digit that is none, or an odd length.
unfoldable pub decode : Bytes → Option Bytes
unfolding digit_value
decode [] = some []
decode (c ∷ []) = none
decode (c ∷ d ∷ cs) = pair (digit_value c) (digit_value d) (decode cs)

digit_value-digit : (n : ℕ) → n < 16 → digit_value (digit n) ≡ some n
unfolding digit_value digit
digit_value-digit n h = ground arith

pub decode-encode : (bs : Bytes) → All IsByte bs → decode (encode bs) ≡ some bs
unfolding decode encode
decode-encode [] h = refl
decode-encode (b ∷ bs) h =
    ground (arith, digit_value-digit (b / 16), digit_value-digit (b % 16), decode-encode bs)

pub length-encode : (bs : Bytes) → length (encode bs) ≡ 2 * length bs
unfolding encode
length-encode [] = omega arith
length-encode (b ∷ bs) = omega (arith, length-encode bs)
