-- ===== src/Transport/Hello/Identity.antt =====
-- Who a peer is after the hello.
use micelio.Base.{
  ℕ, ◌≡◌, refl, sym, ◌∙◌, arith, Bool, true, false, not, Option, none, some, ◌==◌, nat_eq, beq_iff,
}
use micelio.Base.Bytes.{Bytes, bytes_eq}
use micelio.Base.Results.{Result, ok, bind-ok}
use micelio.Stdlib.Crypto.{Crypto}
use micelio.Stdlib.Hex
use micelio.Proto.{Envelope, PeerHello, verify_envelope}
use micelio.Transport.Hello.{
  Link, Wire, HelloError, bad_envelope, wrong_type, bad_hello, bad_signature, sender_mismatch,
  node_id_mismatch, bad_key, x25519_mismatch, from_option, reject_if, recv_hello,
  verify_peer_identity, receive_hello,
}

-- The peer's key made the signature, hashes to the node id and is the key of the Noise handshake.
pub record Authentic (c : Crypto) (w : Wire) (raw : Bytes) (type : ℕ) (before after : Link)
    : Type 0 where
  pub env : Envelope
  pub parsed : w.envelope raw ≡ some env
  pub hello : PeerHello
  pub said : w.hello env.payload ≡ some hello
  pub key : after.ed_pub_key ≡ hello.ed25519_pubkey
  pub typed : env.msg_type ≡ type
  pub signed : verify_envelope c env after.ed_pub_key ≡ true
  pub sender : env.sender_id ≡ after.node_id
  pub named : after.node_id ≡ Hex.encode (c.sum256 after.ed_pub_key)
  pub same_key : w.to_x25519 after.ed_pub_key ≡ some before.peer_x25519

from_option_ok :
    {A : Type 0} (e : HelloError) (o : Option A) (x : A) → from_option e o ≡ ok x → o ≡ some x
unfolding from_option
from_option_ok e none x p = ground arith
from_option_ok e (some y) x p = ground arith

reject_ok :
    {A : Type 0} (b : Bool) (e : HelloError) (r : Result HelloError A) (x : A)
    → reject_if (not b) e r ≡ ok x
    → (b ≡ true) × (r ≡ ok x)
unfolding reject_if
reject_ok true e r x p = (refl, p)
reject_ok false e r x p = ground arith

module _ (c : Crypto) (w : Wire) where
  pub recv_hello_ok :
      (type : ℕ) (raw : Bytes) (hello : PeerHello)
      → recv_hello c w type raw ≡ ok hello
      → (env : Envelope) × (w.envelope raw ≡ some env)
        × (w.hello env.payload ≡ some hello)
        × (env.msg_type ≡ type)
        × (verify_envelope c env hello.ed25519_pubkey ≡ true)
        × (env.sender_id ≡ hello.node_id)
  unfolding recv_hello
  recv_hello_ok type raw hello p =
      let (env, parsed, p1) = bind-ok (from_option bad_envelope (w.envelope raw)) _ p in
      let (typed, p2) = reject_ok (env.msg_type == type) wrong_type _ hello p1 in
      let (got, read, p3) = bind-ok (from_option bad_hello (w.hello env.payload)) _ p2 in
      let (signed, p4) =
        reject_ok (verify_envelope c env got.ed25519_pubkey) bad_signature _ hello p3 in
      let (sender, p5) = reject_ok (env.sender_id == got.node_id) sender_mismatch _ hello p4 in
      ground (
        arith,
        from_option_ok bad_envelope (w.envelope raw) env parsed,
        from_option_ok bad_hello (w.hello env.payload) got read,
        beq_iff env.msg_type type,
        beq_iff env.sender_id got.node_id,
      )

  pub verify_peer_identity_ok :
      (p : Link) (hello : PeerHello) (p' : Link)
      → verify_peer_identity c w p hello ≡ ok p'
      → (p'.node_id ≡ hello.node_id)
        × (p'.ed_pub_key ≡ hello.ed25519_pubkey)
        × (hello.node_id ≡ Hex.encode (c.sum256 hello.ed25519_pubkey))
        × (w.to_x25519 hello.ed25519_pubkey ≡ some p.peer_x25519)
  unfolding verify_peer_identity
  verify_peer_identity_ok p hello p' q =
      let (named, q1) =
        reject_ok (hello.node_id == Hex.encode (c.sum256 hello.ed25519_pubkey)) node_id_mismatch _
          p' q in
      let (key, converted, q2) =
        bind-ok (from_option bad_key (w.to_x25519 hello.ed25519_pubkey)) _ q1 in
      let (same, q3) = reject_ok (key == p.peer_x25519) x25519_mismatch _ p' q2 in
      ground (
        arith,
        from_option_ok bad_key (w.to_x25519 hello.ed25519_pubkey) key converted,
        beq_iff hello.node_id (Hex.encode (c.sum256 hello.ed25519_pubkey)),
        beq_iff key p.peer_x25519,
      )

  -- When the hello is accepted, the peer is who it says: the key it names signed the message, hashes
  -- to the node id it claims, and is the key that the Noise handshake authenticated.
  pub receive_hello-Authentic :
      (p : Link) (type : ℕ) (raw : Bytes) (p' : Link)
      → receive_hello c w p type raw ≡ ok p'
      → Authentic c w raw type p p'
  unfolding receive_hello
  receive_hello-Authentic p type raw p' q =
      let (hello, got, q1) = bind-ok (recv_hello c w type raw) _ q in
      let (env, parsed, said, typed, signed, sender) = recv_hello_ok type raw hello got in
      let (id, key, named, same) = verify_peer_identity_ok p hello p' q1 in
      record {
        env = env;
        parsed = parsed;
        hello = hello;
        said = said;
        key = key;
        typed = typed;
        signed = rw key signed;
        sender = sender ∙ sym id;
        named = rw (id, key) named;
        same_key = rw key same;
      }
