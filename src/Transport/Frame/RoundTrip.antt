-- ===== src/Transport/Frame/RoundTrip.antt =====
-- Frames are read back as they were written, and only frames are read.
use micelio.Base.{
  ℕ, ◌≤◌, ◌≡◌, sym, ap, ◌∙◌, arith, some, [], ◌∷◌, ◌++◌, length, nat_eq, All, length-append,
  take-length-append, drop-length-append, take-append-drop, length-take,
}
use micelio.Base.Bytes.{Bytes, IsByte}
use micelio.Base.Results.{ok}
use micelio.Stdlib.Binary.{
  put_uint16, put_uint32, uint16, uint32, uint32-put_uint32, put_uint32-uint32, put_uint16-uint16,
}
use mathlib.Core.List.{append_assoc}
use micelio.Transport.Frame.{
  write_frame, read_frame, read_payload, read_full, magic, version, max_payload,
}

pub read_full-append : (p rest : Bytes) → read_full (length p) (p ++ rest) ≡ some (p, rest)
unfolding read_full
read_full-append p rest =
    ground (arith, length-append p rest, take-length-append p rest, drop-length-append p rest)

header : ℕ → Bytes
header n = put_uint16 magic ++ (put_uint16 version ++ put_uint32 n)

read_payload-header :
    (p rest : Bytes)
    → length p ≤ max_payload
    → read_payload (header (length p)) (p ++ rest) ≡ ok (p, rest)
unfolding read_payload header put_uint16 put_uint32 uint16
read_payload-header p rest h =
    let e : uint32 (put_uint32 (length p)) ≡ length p =
      uint32-put_uint32 (length p) (omega arith) in
    rw e (ground (arith, read_full-append p rest))

read_frame-header : (n : ℕ) (r : Bytes) → read_frame (header n ++ r) ≡ read_payload (header n) r
unfolding read_frame read_full header put_uint16 put_uint32
read_frame-header n r = ground arith

frame_bytes : Bytes → Bytes
frame_bytes p = header (length p) ++ p

write_frame-ok :
    (p b : Bytes) → write_frame p ≡ ok b → (length p ≤ max_payload) × (b ≡ frame_bytes p)
unfolding write_frame frame_bytes header put_uint16
write_frame-ok p b h = ground arith

write_frame_fits : (p : Bytes) → length p ≤ max_payload → write_frame p ≡ ok (frame_bytes p)
unfolding write_frame frame_bytes header put_uint16
write_frame_fits p h = ground arith

-- What WriteFrame writes, ReadFrame reads back, and it leaves the bytes that follow the frame.
pub read_frame-write_frame :
    (p b rest : Bytes) → write_frame p ≡ ok b → read_frame (b ++ rest) ≡ ok (p, rest)
unfolding frame_bytes
read_frame-write_frame p b rest h =
    let (fits, e) = write_frame-ok p b h in
    rw (e, append_assoc)
      (read_frame-header (length p) (p ++ rest) ∙ read_payload-header p rest fits)

split_at :
    (n : ℕ) (r p rest : Bytes) → read_full n r ≡ some (p, rest) → (length p ≡ n) × (r ≡ p ++ rest)
unfolding read_full
split_at n r p rest h = ground (arith, length-take n r, take-append-drop n r)

-- The tests of `read_payload`, on a header of eight bytes.
tests_passed :
    (a b c d e f g i : ℕ) (r p rest : Bytes)
    → read_payload (a ∷ b ∷ c ∷ d ∷ e ∷ f ∷ g ∷ i ∷ []) r ≡ ok (p, rest)
    → (uint16 (a ∷ b ∷ []) ≡ magic)
      × (uint16 (c ∷ d ∷ []) ≡ version)
      × (uint32 (e ∷ f ∷ g ∷ i ∷ []) ≤ max_payload)
      × (read_full (uint32 (e ∷ f ∷ g ∷ i ∷ [])) r ≡ some (p, rest))
unfolding read_payload
tests_passed a b c d e f g i r p rest h = ground arith

header_of :
    (a b c d e f g i n : ℕ)
    → All IsByte (a ∷ b ∷ c ∷ d ∷ e ∷ f ∷ g ∷ i ∷ [])
    → uint16 (a ∷ b ∷ []) ≡ magic
    → uint16 (c ∷ d ∷ []) ≡ version
    → uint32 (e ∷ f ∷ g ∷ i ∷ []) ≡ n
    → a ∷ b ∷ c ∷ d ∷ e ∷ f ∷ g ∷ i ∷ [] ≡ header n
unfolding header
header_of a b c d e f g i n bytes m v l =
    let ab = put_uint16-uint16 a b [] (omega arith) (omega arith) in
    let cd = put_uint16-uint16 c d [] (omega arith) (omega arith) in
    let len =
      put_uint32-uint32 e f g i [] (omega arith) (omega arith) (omega arith) (omega arith) in
    rw (← m, ← v, ← l, ab, cd, len)

read_payload-ok :
    (a b c d e f g i : ℕ) (r p rest : Bytes)
    → All IsByte (a ∷ b ∷ c ∷ d ∷ e ∷ f ∷ g ∷ i ∷ [])
    → read_payload (a ∷ b ∷ c ∷ d ∷ e ∷ f ∷ g ∷ i ∷ []) r ≡ ok (p, rest)
    → (write_frame p ≡ ok (frame_bytes p))
      × (a ∷ b ∷ c ∷ d ∷ e ∷ f ∷ g ∷ i ∷ r ≡ frame_bytes p ++ rest)
read_payload-ok a b c d e f g i r p rest bytes h =
    let (m, v, fits, full) = tests_passed a b c d e f g i r p rest h in
    let (l, tail) = split_at _ r p rest full in
    (
      write_frame_fits p (omega (arith, l, fits)),
      ap (◌++◌ (a ∷ b ∷ c ∷ d ∷ e ∷ f ∷ g ∷ i ∷ [])) tail
          ∙ ap (λ hd. hd ++ (p ++ rest)) (header_of a b c d e f g i (length p) bytes m v (sym l))
          ∙ unfold frame_bytes in sym (append_assoc (header (length p)) p rest),
    )

-- From bytes, ReadFrame accepts nothing but a frame: what it returns was written by WriteFrame in
-- front of what is left.
pub read_frame_sound :
    (r p rest : Bytes)
    → All IsByte r
    → read_frame r ≡ ok (p, rest)
    → (b : Bytes) × (write_frame p ≡ ok b) × (r ≡ b ++ rest)
unfolding read_frame read_full
read_frame_sound (a ∷ b ∷ c ∷ d ∷ e ∷ f ∷ g ∷ i ∷ r) p rest bytes h =
    let (w, e) = read_payload-ok a b c d e f g i r p rest (omega arith) (ground arith) in
    (frame_bytes p, w, e)
read_frame_sound _ p rest bytes h = cc
