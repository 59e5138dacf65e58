-- ===== src/Transport/Noise.antt =====
-- internal/transport/noise.go: the encrypted connection. The library github.com/flynn/noise is the
-- parameter `Noise`: `S` is the type of its cipher states, which count their nonces.
pub mod Stream
pub mod Frames
pub mod Handshake
use micelio.Base.{
  ℕ, suc, zero, ◌+◌, ◌-◌, ◌%◌, ◌^◌, Bool, Option, none, some, true, List, [], ◌∷◌, ◌++◌, length,
  take, drop, ltb, ◌==◌, nat_eq, if◌then◌else◌,
}
use micelio.Base.Bytes.{Bytes, bytes_eq}
use micelio.Base.Results.{Result, ok, err, ◌>>=◌}
use micelio.Stdlib.Binary.{put_uint32, uint32}
use micelio.Transport.Frame.{
  read_full, FrameError, write_frame, read_frame_from, max_payload, header_size,
}

-- CipherState.Encrypt and CipherState.Decrypt; `none` is an error. Encrypt without an error and
-- Decrypt leave the state for the next message.
pub record Cipher (S : Type 0) : Type 0 where
  pub encrypt : S → Bytes → Option (Bytes × S)
  pub decrypt : S → Bytes → Option Bytes × S

-- `conn` is what the TCP connection still gives to its reader.
pub record NoiseConn (S : Type 0) : Type 0 where
  pub conn : Bytes
  pub send : S
  pub recv : S
  pub read_buf : Bytes
  pub peer_static : Bytes

pub data NoiseError : Type 0 where
  encrypting decrypting reading writing : NoiseError
  message_too_large : ℕ → NoiseError

-- MaxPayload + HeaderSize + 16
abbrev pub max_noise_msg : ℕ
max_noise_msg = max_payload + header_size + 16

-- lenBuf[:]
unfoldable pub len_buf : Bytes → Bytes
len_buf ciphertext = put_uint32 (length ciphertext % 2 ^ 32)

-- Each turn of io.ReadFull takes a byte out of the buffer or the length of a message off the wire.
unfoldable pub fuel_for : {S : Type 0} → NoiseConn S → ℕ
fuel_for nc = suc (length nc.conn + length nc.read_buf)

module _ {S : Type 0} (c : Cipher S) where
  -- Write, on a TCP connection that takes the bytes for which `takes` is true: the connection after
  -- it, the bytes that were taken, and the result.
  unfoldable pub write :
      (Bytes → Bool) → NoiseConn S → Bytes → NoiseConn S × Bytes × Result NoiseError ℕ
  write takes nc p = elim (c.encrypt nc.send p) [
    | none ↦ (nc, [], err encrypting)
    | some (ciphertext, next) ↦
        let nc' = record nc { send = next } in
        if takes (len_buf ciphertext)
        then (if takes ciphertext
            then (nc', len_buf ciphertext ++ ciphertext, ok (length p))
            else (nc', len_buf ciphertext, err writing))
        else (nc', [], err writing)
  ]

  -- `n := copy(p, plaintext)` for a slice of `n` bytes, and the rest of it kept.
  unfoldable pub copy_out : NoiseConn S → ℕ → Bytes → Bytes × NoiseConn S
  copy_out nc n plaintext = (
    take n plaintext,
    if ltb n (length plaintext) then record nc { read_buf = drop n plaintext } else nc,
  )

  unfoldable pub read_body : NoiseConn S → ℕ → ℕ → Result NoiseError (Bytes × NoiseConn S)
  read_body nc n msg_len =
      if ltb max_noise_msg msg_len
      then err (message_too_large msg_len)
      else elim (read_full msg_len nc.conn) [
        | none ↦ err reading
        | some (ciphertext, rest) ↦
            let (opened, next) = c.decrypt nc.recv ciphertext in
            elim opened [
              | none ↦ err decrypting
              | some plaintext ↦ ok (copy_out (record nc { conn = rest; recv = next }) n plaintext)
            ]
      ]

  -- Read into a slice of `n` bytes. An error ends the connection.
  unfoldable pub read : NoiseConn S → ℕ → Result NoiseError (Bytes × NoiseConn S)
  read nc n =
      if ltb 0 (length nc.read_buf)
      then ok (take n nc.read_buf, record nc { read_buf = drop n nc.read_buf })
      else elim (read_full 4 nc.conn) [
        | none ↦ err reading
        | some (len, rest) ↦ read_body (record nc { conn = rest }) n (uint32 len)
      ]

  -- io.ReadFull on the connection, with fuel.
  unfoldable pub read_loop : ℕ → ℕ → NoiseConn S → Option (Bytes × NoiseConn S)
  read_loop zero n nc = none
  read_loop (suc fuel) n nc = if n == 0 then some ([], nc) else elim (read nc n) [
    | err e ↦ none
    | ok (got, nc') ↦ elim (read_loop fuel (n - length got) nc') [
      | none ↦ none
      | some (more, nc'') ↦ some (got ++ more, nc'')
    ]
  ]

  unfoldable pub read_full_noise : ℕ → NoiseConn S → Option (Bytes × NoiseConn S)
  read_full_noise n nc = read_loop (fuel_for nc) n nc

  -- ReadFrame on the connection
  unfoldable pub read_frame_noise : NoiseConn S → Result FrameError (Bytes × NoiseConn S)
  read_frame_noise nc = read_frame_from read_full_noise nc

  -- WriteFrame for one payload after the other, while the TCP connection takes the bytes: the
  -- connection afterwards, and the bytes on the wire.
  unfoldable pub write_frames : NoiseConn S → List Bytes → Option (NoiseConn S × Bytes)
  write_frames nc [] = some (nc, [])
  write_frames nc (payload ∷ payloads) = elim (write_frame payload) [
    | err e ↦ none
    | ok frame ↦
        let (nc', out, result) = write (λ bytes. true) nc frame in
        elim result [
          | err e ↦ none
          | ok n ↦ elim (write_frames nc' payloads) [
            | none ↦ none
            | some (nc'', more) ↦ some (nc'', out ++ more)
          ]
        ]
  ]

  -- ReadFrame a number of times
  unfoldable pub read_frames : ℕ → NoiseConn S → Option (List Bytes × NoiseConn S)
  read_frames zero nc = some ([], nc)
  read_frames (suc n) nc = elim (read_frame_noise nc) [
    | err e ↦ none
    | ok (payload, nc') ↦ elim (read_frames n nc') [
      | none ↦ none
      | some (payloads, nc'') ↦ some (payload ∷ payloads, nc'')
    ]
  ]
