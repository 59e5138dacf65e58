-- ===== src/Transport/Hello/Greeting.antt =====
-- internal/transport/peer.go: the hello that a node sends, and that its peer accepts it.
use micelio.Base.{
  ℕ, ◌≡◌, refl, sym, ap, ◌∙◌, arith, Bool, true, Option, none, some, List, [], nat_eq, beq_refl,
  beq_iff,
}
use micelio.Base.Bytes.{Bytes, bytes_eq, codes}
use micelio.Base.Results.{ok, ◌>>=◌}
use micelio.Stdlib.Crypto.{Crypto, IsKeyPair}
use micelio.Stdlib.Hex
use micelio.Proto.{Envelope, PeerHello, envelope_sign_data, sign_envelope, verify_envelope}
use micelio.Transport.State.{Identity}
use micelio.Transport.Hello.{
  Link, Wire, from_option, reject_if, recv_hello, verify_peer_identity, receive_hello,
}

-- proto.Marshal for the two messages; `none` is an error.
pub record Encoder : Type 0 where
  pub envelope : Envelope → Option Bytes
  pub hello : PeerHello → Option Bytes

-- proto.Unmarshal reads back what proto.Marshal wrote.
pub record IsCodec (m : Encoder) (w : Wire) : Type 0 where
  pub envelopes :
      (env : Envelope) (raw : Bytes) → m.envelope env ≡ some raw → w.envelope raw ≡ some env
  pub hellos :
      (hello : PeerHello) (raw : Bytes) → m.hello hello ≡ some raw → w.hello raw ≡ some hello

pub record HelloConfig : Type 0 where
  pub tags : List Bytes
  pub reachable : Bool
  pub listen_addr : Bytes

-- The hello of ExchangeHello
unfoldable pub local_hello : Identity → HelloConfig → PeerHello
local_hello id cfg = record {
  node_id = id.node_id;
  version = codes "0.1.0";
  tags = cfg.tags;
  reachable = cfg.reachable;
  listen_addr = cfg.listen_addr;
  ed25519_pubkey = id.public_key;
}

-- The envelope of sendHello before it is signed; `message_id` is the new UUID.
unfoldable pub hello_envelope : Identity → ℕ → Bytes → Bytes → Envelope
hello_envelope id msg_type message_id payload = record {
  message_id = message_id;
  sender_id = id.node_id;
  lamport_ts = 0;
  hop_count = 1;
  msg_type = msg_type;
  payload = payload;
  signature = [];
  sender_pubkey = [];
}

-- sendHello, up to the bytes that WriteFrame gets
unfoldable pub send_hello : Crypto → Encoder → Identity → PeerHello → ℕ → Bytes → Option Bytes
send_hello c m id hello msg_type message_id = elim (m.hello hello) [
  | none ↦ none
  | some payload ↦
      m.envelope (sign_envelope c (hello_envelope id msg_type message_id payload) id.private_key)
]

-- The peer after the hello `hello`.
abbrev pub greeted : Link → PeerHello → Link
greeted p hello = record p {
  node_id = hello.node_id;
  ed_pub_key = hello.ed25519_pubkey;
  remote_reachable = hello.reachable;
  remote_listen_addr = hello.listen_addr;
}

pub signed_envelope :
    (c : Crypto) (env : Envelope) (private_key public_key : Bytes)
    → IsKeyPair c private_key public_key
    → sign_envelope c env private_key
      ≡ record env { signature = c.sign private_key (envelope_sign_data env) }
unfolding sign_envelope
signed_envelope c env sk pk k = rw k.private_size refl

signed_verifies :
    (c : Crypto) (env : Envelope) (private_key public_key : Bytes)
    → IsKeyPair c private_key public_key
    → verify_envelope c
        (record env { signature = c.sign private_key (envelope_sign_data env) })
        public_key
      ≡ true
unfolding verify_envelope envelope_sign_data
signed_verifies c env sk pk k = ground (
  arith,
  k.public_size,
  k.sign_size (envelope_sign_data env),
  k.verifies (envelope_sign_data env),
)

recv_signed :
    (c : Crypto) (w : Wire) (env : Envelope) (hello : PeerHello) (raw : Bytes)
    → w.envelope raw ≡ some env
    → w.hello env.payload ≡ some hello
    → verify_envelope c env hello.ed25519_pubkey ≡ true
    → env.sender_id ≡ hello.node_id
    → recv_hello c w env.msg_type raw ≡ ok hello
unfolding recv_hello from_option reject_if
recv_signed c w env hello raw parsed inner signed sender =
    rw (parsed, recv_hello, from_option, beq_refl env.msg_type)
      (rw (inner, from_option, signed, (beq_iff env.sender_id hello.node_id).1 sender) refl)

verify_greeted :
    (c : Crypto) (w : Wire) (p : Link) (hello : PeerHello)
    → hello.node_id ≡ Hex.encode (c.sum256 hello.ed25519_pubkey)
    → w.to_x25519 hello.ed25519_pubkey ≡ some p.peer_x25519
    → verify_peer_identity c w p hello ≡ ok (greeted p hello)
unfolding verify_peer_identity from_option reject_if
verify_greeted c w p hello named same =
    rw ((beq_iff hello.node_id (Hex.encode (c.sum256 hello.ed25519_pubkey))).1 named)
      (rw (same, from_option, beq_refl p.peer_x25519) refl)

-- What a node needs for its hello: a key pair, its node id, and the peer's view of the handshake.
pub record CanGreet (c : Crypto) (w : Wire) (id : Identity) (p : Link) : Type 0 where
  pub pair : IsKeyPair c id.private_key id.public_key
  pub named : id.node_id ≡ Hex.encode (c.sum256 id.public_key)
  pub same_key : w.to_x25519 id.public_key ≡ some p.peer_x25519

sent_hello :
    (c : Crypto) (m : Encoder) (id : Identity) (hello : PeerHello) (type : ℕ)
    (message_id raw : Bytes)
    → send_hello c m id hello type message_id ≡ some raw
    → (payload : Bytes) × (m.hello hello ≡ some payload)
      × (m.envelope (sign_envelope c (hello_envelope id type message_id payload) id.private_key)
          ≡ some raw)
unfolding send_hello
sent_hello c m id hello type message_id raw sent = ground arith

-- If the codec reads back what it wrote: the hello that a node sends with its own key pair is
-- accepted by a peer that shook hands with the same key, and the peer then has the node's id, key,
-- reachability and address, as its configuration for the hello has them, and is otherwise unchanged.
pub receive-send_hello :
    (c : Crypto) (m : Encoder) (w : Wire) (id : Identity) (cfg : HelloConfig) (p : Link) (type : ℕ)
    (message_id raw : Bytes)
    → IsCodec m w
    → CanGreet c w id p
    → send_hello c m id (local_hello id cfg) type message_id ≡ some raw
    → receive_hello c w p type raw
      ≡ ok (record p {
        node_id = id.node_id;
        ed_pub_key = id.public_key;
        remote_reachable = cfg.reachable;
        remote_listen_addr = cfg.listen_addr;
      })
unfolding receive_hello local_hello
receive-send_hello c m w id cfg p type message_id raw codec can sent =
    let hello = local_hello id cfg in
    let (payload, inner, outer) = sent_hello c m id hello type message_id raw sent in
    let draft = hello_envelope id type message_id payload in
    let env = record draft { signature = c.sign id.private_key (envelope_sign_data draft) } in
    let parsed : w.envelope raw ≡ some env = codec.envelopes env raw (
      ap m.envelope (sym (signed_envelope c draft id.private_key id.public_key can.pair))
      ∙ outer) in
    let got : recv_hello c w type raw ≡ ok hello =
      unfold hello_envelope in
      recv_signed c w env hello raw parsed (codec.hellos hello payload inner)
        (signed_verifies c draft id.private_key id.public_key can.pair) refl in
    ap (λ r. r >>= verify_peer_identity c w p) got
    ∙ verify_greeted c w p hello can.named can.same_key
