-- ===== src/Transport/Noise/Handshake.antt =====
-- internal/transport/noise.go: the Noise XX handshake. The handshake state of the library is a
-- parameter; what a party does up to its next read is one function.
pub mod Agreement
use micelio.Base.{
  ℕ, ◌+◌, ◌%◌, ◌^◌, Bool, true, false, Option, none, some, [], ◌++◌, length, ltb, nat_eq,
  if◌then◌else◌,
}
use micelio.Base.Bytes.{Bytes}
use micelio.Base.Results.{Result, ok, err, ◌>>=◌}
use micelio.Stdlib.Binary.{put_uint16, uint16}
use micelio.Transport.Frame.{read_full}
use micelio.Transport.Noise.{NoiseConn}

-- NewHandshakeState for the pattern XX, WriteMessage and ReadMessage with no payload, and PeerStatic;
-- `none` is an error. A message comes with the two cipher states that the call returns.
pub record Library (K S HS : Type 0) : Type 0 where
  pub new_state : Bool → K → Option HS
  pub write_message : HS → Option (Bytes × HS × S × S)
  pub read_message : HS → Bytes → Option (HS × S × S)
  pub peer_static : HS → Bytes

pub data HandshakeError : Type 0 where
  config write_failed read_failed writing reading : HandshakeError
  handshake_too_large : ℕ → HandshakeError

-- writeHandshakeMsg: the bytes of its two calls of Write
unfoldable pub write_handshake_msg : (Bytes → Bool) → Bytes → Result HandshakeError Bytes
write_handshake_msg takes msg =
    if ltb 0xFFFF (length msg)
    then err (handshake_too_large (length msg))
    else (let len = put_uint16 (length msg % 2 ^ 16) in
        if takes len then (if takes msg then ok (len ++ msg) else err writing) else err writing)

-- readHandshakeMsg: the message, and what the connection gives after it
unfoldable pub read_handshake_msg : Bytes → Result HandshakeError (Bytes × Bytes)
read_handshake_msg conn = elim (read_full 2 conn) [
  | none ↦ err reading
  | some (len, rest) ↦ elim (read_full (uint16 len) rest) [
    | none ↦ err reading
    | some (msg, rest') ↦ ok (msg, rest')
  ]
]

unfoldable pub or_fail : {A : Type 0} → HandshakeError → Option A → Result HandshakeError A
or_fail e none = err e
or_fail e (some a) = ok a

module _ {K S HS : Type 0} (lib : Library K S HS) (takes : Bytes → Bool) where
  -- → e
  unfoldable pub initiate : K → Result HandshakeError (Bytes × HS)
  initiate key = do
    hs ← or_fail config (lib.new_state true key)
    (msg1, hs1, _, _) ← or_fail write_failed (lib.write_message hs)
    out ← write_handshake_msg takes msg1
    ok (out, hs1)

  -- ← e, then → e, ee, s, es
  unfoldable pub respond : K → Bytes → Result HandshakeError (Bytes × HS × Bytes)
  respond key conn = do
    hs ← or_fail config (lib.new_state false key)
    (msg1, rest) ← read_handshake_msg conn
    (hs1, _, _) ← or_fail read_failed (lib.read_message hs msg1)
    (msg2, hs2, _, _) ← or_fail write_failed (lib.write_message hs1)
    out ← write_handshake_msg takes msg2
    ok (out, hs2, rest)

  -- ← e, ee, s, es, then → s, se
  unfoldable pub complete : HS → Bytes → Result HandshakeError (Bytes × NoiseConn S)
  complete hs conn = do
    (msg2, rest) ← read_handshake_msg conn
    (hs1, _, _) ← or_fail read_failed (lib.read_message hs msg2)
    (msg3, hs2, cs1, cs2) ← or_fail write_failed (lib.write_message hs1)
    out ← write_handshake_msg takes msg3
    ok (
      out,
      record {
        conn = rest;
        send = cs1;
        recv = cs2;
        read_buf = [];
        peer_static = lib.peer_static hs2;
      },
    )

module _ {K S HS : Type 0} (lib : Library K S HS) where
  -- ← s, se
  unfoldable pub conclude : HS → Bytes → Result HandshakeError (NoiseConn S)
  conclude hs conn = do
    (msg3, rest) ← read_handshake_msg conn
    (hs1, cs1, cs2) ← or_fail read_failed (lib.read_message hs msg3)
    ok (record {
      conn = rest;
      send = cs2;
      recv = cs1;
      read_buf = [];
      peer_static = lib.peer_static hs1;
    })
