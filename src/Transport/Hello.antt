-- ===== src/Transport/Hello.antt =====
-- internal/transport/peer.go: the hello of a peer and the messages that follow it. The frames are
-- already read (see Frame); the wire formats and the key conversion of internal/crypto/keys.go are
-- parameters.
pub mod Identity
pub mod Greeting
pub mod Dispatch
use micelio.Base.{
  ℕ, Bool, true, false, not, ◌||◌, Option, none, some, List, [], ◌==◌, nat_eq, ltb, leb,
  if◌then◌else◌, ◌+◌,
}
use micelio.Base.Bytes.{Bytes, bytes_eq}
use micelio.Base.Dict.{Dict, lookup, insert, keep_entries}
use micelio.Base.Results.{Result, ok, err, ◌>>=◌}
use micelio.Stdlib.Crypto.{Crypto}
use micelio.Stdlib.Hex
use micelio.Proto.{Envelope, PeerHello, PeerInfo, verify_envelope}

abbrev pub msg_type_peer_hello : ℕ
msg_type_peer_hello = 1

abbrev pub msg_type_peer_hello_ack : ℕ
msg_type_peer_hello_ack = 2

abbrev pub msg_type_peer_exchange : ℕ
msg_type_peer_exchange = 4

abbrev pub msg_type_keepalive : ℕ
msg_type_keepalive = 5

-- seenTTL, 5 * time.Minute
abbrev pub seen_ttl : ℕ
seen_ttl = 300_000_000_000

-- proto.Unmarshal for the three messages (`none` is an error), and the conversion of an ed25519 key
-- to the X25519 key of the same pair.
pub record Wire : Type 0 where
  pub envelope : Bytes → Option Envelope
  pub hello : Bytes → Option PeerHello
  pub peer_exchange : Bytes → Option (List PeerInfo)
  pub to_x25519 : Bytes → Option Bytes

-- The connection to one peer: the fields of `Peer` that its handlers read and write.
pub record Link : Type 0 where
  pub node_id : Bytes
  pub ed_pub_key : Bytes
  pub peer_x25519 : Bytes
  pub remote_reachable : Bool
  pub remote_listen_addr : Bytes
  pub seen : Dict Bytes ℕ

pub data HelloError : Type 0 where
  bad_envelope wrong_type bad_hello bad_signature sender_mismatch : HelloError
  node_id_mismatch bad_key x25519_mismatch : HelloError

-- What a received message does: nothing, a call of onPeerExchange or one of onGossipMessage.
pub data Action : Type 0 where
  nothing : Action
  exchange : Bytes → List PeerInfo → Action
  gossip : Bytes → Envelope → Action

unfoldable pub from_option : {A : Type 0} → HelloError → Option A → Result HelloError A
from_option e none = err e
from_option e (some x) = ok x

-- `if cond { return err }`, then the rest
unfoldable pub reject_if :
    {A : Type 0} → Bool → HelloError → Result HelloError A → Result HelloError A
reject_if cond e rest = if cond then err e else rest

-- isDuplicate, with the new `seen`
unfoldable pub is_duplicate : Link → Bytes → ℕ → Bool × Link
is_duplicate p message_id now = elim (lookup message_id p.seen) [
  | some at ↦ (true, p)
  | none ↦ (false, record p { seen = insert message_id now p.seen })
]

-- One tick of cleanupSeenLoop
unfoldable pub cleanup_seen : Link → ℕ → Link
cleanup_seen p now = record p { seen = keep_entries (λ id at. leb now (at + seen_ttl)) p.seen }

module _ (c : Crypto) (w : Wire) where
  -- recvHello on the bytes of a frame
  unfoldable pub recv_hello : ℕ → Bytes → Result HelloError PeerHello
  recv_hello expected_type raw = do
    env ← from_option bad_envelope (w.envelope raw)
    reject_if (not (env.msg_type == expected_type)) wrong_type do
      hello ← from_option bad_hello (w.hello env.payload)
      reject_if (not (verify_envelope c env hello.ed25519_pubkey)) bad_signature
          (reject_if (not (env.sender_id == hello.node_id)) sender_mismatch (ok hello))

  -- verifyPeerIdentity
  unfoldable pub verify_peer_identity : Link → PeerHello → Result HelloError Link
  verify_peer_identity p hello =
      reject_if (not (hello.node_id == Hex.encode (c.sum256 hello.ed25519_pubkey))) node_id_mismatch
        do
          x25519_pub ← from_option bad_key (w.to_x25519 hello.ed25519_pubkey)
          reject_if (not (x25519_pub == p.peer_x25519)) x25519_mismatch (
              ok (record p {
                node_id = hello.node_id;
                ed_pub_key = hello.ed25519_pubkey;
                remote_reachable = hello.reachable;
                remote_listen_addr = hello.listen_addr;
              }))

  -- The receiving half of ExchangeHello
  unfoldable pub receive_hello : Link → ℕ → Bytes → Result HelloError Link
  receive_hello p expected_type raw = do
    hello ← recv_hello expected_type raw
    verify_peer_identity p hello

  -- handlePeerExchange
  unfoldable pub handle_peer_exchange : Link → Envelope → Action
  handle_peer_exchange p env = elim (w.peer_exchange env.payload) [
    | none ↦ nothing
    | some infos ↦ exchange p.node_id infos
  ]

  -- The case MsgTypePeerExchange of recvLoop
  unfoldable pub receive_exchange : Link → Envelope → ℕ → Link × Action
  receive_exchange p env now =
      let (duplicate, p') = is_duplicate p env.message_id now in
      if duplicate
      then (p', nothing)
      else if not (verify_envelope c env p'.ed_pub_key)
      then (p', nothing)
      else if not (env.sender_id == p'.node_id)
      then (p', nothing)
      else (p', handle_peer_exchange p' env)

  -- One turn of recvLoop on the bytes of a frame; onGossipMessage and onPeerExchange are set.
  unfoldable pub receive : Link → Bytes → ℕ → Link × Action
  receive p raw now = elim (w.envelope raw) [
    | none ↦ (p, nothing)
    | some env ↦
        if env.msg_type == msg_type_keepalive
        then (p, nothing)
        else if env.msg_type == msg_type_peer_exchange
        then receive_exchange p env now
        else if env.msg_type == msg_type_peer_hello || env.msg_type == msg_type_peer_hello_ack
        then (p, nothing)
        else (p, gossip p.node_id env)
  ]
