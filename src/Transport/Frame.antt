-- ===== src/Transport/Frame.antt =====
-- internal/transport/frame.go: length-prefixed frames. `write_frame` gives the bytes of its one call
-- of Write; `read_frame` reads from the bytes that the reader still has, and returns what is left.
pub mod RoundTrip
use micelio.Base.{
  ℕ, ◌-◌, ◌≤◌, ◌≡◌, Bool, not, Option, none, some, List, ◌++◌, length, take, drop, ltb, leb, ◌==◌,
  nat_eq, if◌then◌else◌,
}
use micelio.Base.Bytes.{Bytes}
use micelio.Base.Results.{Result, ok, err}
use micelio.Stdlib.Binary.{put_uint16, put_uint32, uint16, uint32}

abbrev pub magic : ℕ
magic = 0x4D49

abbrev pub version : ℕ
version = 1

-- 1 << 20
abbrev pub max_payload : ℕ
max_payload = 1048576

abbrev pub header_size : ℕ
header_size = 8

pub data FrameError : Type 0 where
  payload_too_large invalid_magic unsupported_version : ℕ → FrameError
  reading_header reading_payload : FrameError

-- WriteFrame
unfoldable pub write_frame : Bytes → Result FrameError Bytes
write_frame payload =
    if ltb max_payload (length payload)
    then err (payload_too_large (length payload))
    else ok (put_uint16 magic ++ (put_uint16 version ++ (put_uint32 (length payload) ++ payload)))

-- io.ReadFull of `n` bytes: those, and what is left; `none` if the reader ends before.
unfoldable pub read_full : ℕ → Bytes → Option (Bytes × Bytes)
read_full n r = if leb n (length r) then some (take n r, drop n r) else none

-- hdr[from:to]
abbrev pub slice : Bytes → ℕ → ℕ → Bytes
slice hdr from to = take (to - from) (drop from hdr)

-- Over any reader: `read` is io.ReadFull on it.
module _ {R : Type 0} (read : ℕ → R → Option (Bytes × R)) where
  unfoldable pub read_payload_from : Bytes → R → Result FrameError (Bytes × R)
  read_payload_from hdr r =
      let len = uint32 (slice hdr 4 8) in
      if not (uint16 (slice hdr 0 2) == magic)
      then err (invalid_magic (uint16 (slice hdr 0 2)))
      else if not (uint16 (slice hdr 2 4) == version)
      then err (unsupported_version (uint16 (slice hdr 2 4)))
      else if ltb max_payload len
      then err (payload_too_large len)
      else elim (read len r) [
        | none ↦ err reading_payload
        | some (payload, rest) ↦ ok (payload, rest)
      ]

  -- ReadFrame
  unfoldable pub read_frame_from : R → Result FrameError (Bytes × R)
  read_frame_from r = elim (read header_size r) [
    | none ↦ err reading_header
    | some (hdr, rest) ↦ read_payload_from hdr rest
  ]

-- From bytes.
unfoldable pub read_payload : Bytes → Bytes → Result FrameError (Bytes × Bytes)
unfolding read_payload_from
read_payload hdr r = read_payload_from read_full hdr r

unfoldable pub read_frame : Bytes → Result FrameError (Bytes × Bytes)
unfolding read_frame_from read_payload
read_frame r = read_frame_from read_full r
