-- ===== src/Stdlib/Binary.antt =====
-- encoding/binary: big-endian unsigned integers.
use micelio.Base.{ℕ, ◌+◌, ◌*◌, ◌/◌, ◌%◌, ◌^◌, ◌<◌, ◌≡◌, ap, arith, [], ◌∷◌, All}
use micelio.Base.Bytes.{Bytes, IsByte}

-- byte(v >> k)
abbrev byte_at : ℕ → ℕ → ℕ
byte_at v k = v / 2 ^ k % 256

unfoldable pub put_uint16 : ℕ → Bytes
put_uint16 v = byte_at v 8 ∷ byte_at v 0 ∷ []

unfoldable pub put_uint32 : ℕ → Bytes
put_uint32 v = byte_at v 24 ∷ byte_at v 16 ∷ byte_at v 8 ∷ byte_at v 0 ∷ []

unfoldable pub put_uint64 : ℕ → Bytes
put_uint64 v =
    byte_at v 56
    ∷ byte_at v 48
    ∷ byte_at v 40
    ∷ byte_at v 32
    ∷ byte_at v 24
    ∷ byte_at v 16
    ∷ byte_at v 8
    ∷ byte_at v 0
    ∷ []

-- The readers take the slice that the caller cuts out, so a slice of another length is not met.
unfoldable pub uint16 : Bytes → ℕ
uint16 (a ∷ b ∷ _) = a * 256 + b
uint16 _ = 0

unfoldable pub uint32 : Bytes → ℕ
uint32 (a ∷ b ∷ c ∷ d ∷ _) = a * 2 ^ 24 + b * 2 ^ 16 + c * 2 ^ 8 + d
uint32 _ = 0

pub uint16-put_uint16 : (v : ℕ) → v < 2 ^ 16 → uint16 (put_uint16 v) ≡ v
unfolding uint16 put_uint16
uint16-put_uint16 v h = omega arith

pub uint32-put_uint32 : (v : ℕ) → v < 2 ^ 32 → uint32 (put_uint32 v) ≡ v
unfolding uint32 put_uint32
uint32-put_uint32 v h = omega arith

-- The value of eight bytes, most significant first.
uint64 : Bytes → ℕ
uint64 (a ∷ b ∷ c ∷ d ∷ e ∷ f ∷ g ∷ h ∷ _) =
    a * 2 ^ 56 + b * 2 ^ 48 + c * 2 ^ 40 + d * 2 ^ 32 + e * 2 ^ 24 + f * 2 ^ 16 + g * 2 ^ 8 + h
uint64 _ = 0

uint64-put_uint64 : (v : ℕ) → v < 2 ^ 64 → uint64 (put_uint64 v) ≡ v
unfolding uint64 put_uint64
uint64-put_uint64 v h = omega arith

pub put_uint64-injective : (v w : ℕ) → v < 2 ^ 64 → w < 2 ^ 64 → put_uint64 v ≡ put_uint64 w → v ≡ w
put_uint64-injective v w hv hw h =
    omega (arith, uint64-put_uint64 v hv, uint64-put_uint64 w hw, ap uint64 h)

pub put_uint32-injective : (v w : ℕ) → v < 2 ^ 32 → w < 2 ^ 32 → put_uint32 v ≡ put_uint32 w → v ≡ w
put_uint32-injective v w hv hw h =
    omega (arith, uint32-put_uint32 v hv, uint32-put_uint32 w hw, ap uint32 h)

pub put_uint32-IsByte : (v : ℕ) → All IsByte (put_uint32 v)
unfolding put_uint32
put_uint32-IsByte v = omega arith

-- Four bytes are the bytes of the number that they stand for.
pub put_uint32-uint32 :
    (a b c d : ℕ) (rest : Bytes)
    → IsByte a
    → IsByte b
    → IsByte c
    → IsByte d
    → put_uint32 (uint32 (a ∷ b ∷ c ∷ d ∷ rest)) ≡ a ∷ b ∷ c ∷ d ∷ []
unfolding put_uint32 uint32
put_uint32-uint32 a b c d rest ha hb hc hd = ground arith

pub put_uint16-uint16 :
    (a b : ℕ) (rest : Bytes) → IsByte a → IsByte b → put_uint16 (uint16 (a ∷ b ∷ rest)) ≡ a ∷ b ∷ []
unfolding put_uint16 uint16
put_uint16-uint16 a b rest ha hb = ground arith
