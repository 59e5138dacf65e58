-- ===== src/Transport/Hello/Dispatch.antt =====
-- What the receive loop lets through.
use micelio.Base.{
  ℕ, ◌≡◌, ◌≢◌, refl, arith, Bool, true, false, none, some, inl, inr, List, if◌then◌else◌, ◌||◌,
  ◌==◌, nat_eq, beq_iff, Bool-cases, Option-cases,
}
use micelio.Base.Bytes.{Bytes, bytes_eq}
use micelio.Base.Dict.{lookup, lookup-insert_self}
use micelio.Stdlib.Crypto.{Crypto}
use micelio.Proto.{Envelope, PeerInfo, verify_envelope}
use micelio.Transport.Hello.{
  Link, Wire, Action, nothing, exchange, gossip, msg_type_peer_hello, msg_type_peer_hello_ack,
  msg_type_peer_exchange, msg_type_keepalive, is_duplicate, handle_peer_exchange, receive_exchange,
  receive,
}

-- An exchange comes from the peer itself, once per message id.
pub record FromPeer (c : Crypto) (w : Wire) (p : Link) (raw : Bytes) (p' : Link) (id : Bytes)
    (infos : List PeerInfo) : Type 0 where
  pub env : Envelope
  pub parsed : w.envelope raw ≡ some env
  pub typed : env.msg_type ≡ msg_type_peer_exchange
  pub fresh : lookup env.message_id p.seen ≡ none
  pub marked : lookup env.message_id p'.seen ≢ none
  pub signed : verify_envelope c env p.ed_pub_key ≡ true
  pub sender : env.sender_id ≡ p.node_id
  pub reported : id ≡ p.node_id
  pub carried : w.peer_exchange env.payload ≡ some infos

-- A message for the engine is of none of the four types that concern the two peers alone.
pub record Gossiped (w : Wire) (p : Link) (raw : Bytes) (p' : Link) (id : Bytes) (env : Envelope)
    : Type 0 where
  pub parsed : w.envelope raw ≡ some env
  pub reported : id ≡ p.node_id
  pub no_hello : env.msg_type ≢ msg_type_peer_hello
  pub no_ack : env.msg_type ≢ msg_type_peer_hello_ack
  pub no_exchange : env.msg_type ≢ msg_type_peer_exchange
  pub no_keepalive : env.msg_type ≢ msg_type_keepalive
  pub same : p' ≡ p

-- What justifies an action of the loop, and that it leaves the peer's identity alone.
abbrev pub Justified : Crypto → Wire → Link → Bytes → Link → Action → Type 0
Justified c w p raw p' nothing = (p'.node_id ≡ p.node_id) × (p'.ed_pub_key ≡ p.ed_pub_key)
Justified c w p raw p' (exchange id infos) = FromPeer c w p raw p' id infos
Justified c w p raw p' (gossip id env) = Gossiped w p raw p' id env

module _ (c : Crypto) (w : Wire) (p : Link) (raw : Bytes) (now : ℕ) where
  -- The action of an exchange envelope, on the link after isDuplicate.
  exchange-Justified :
      (env : Envelope)
      → w.envelope raw ≡ some env
      → env.msg_type ≡ msg_type_peer_exchange
      → Justified c w p raw (receive_exchange c w p env now).0 (receive_exchange c w p env now).1
  unfolding receive_exchange is_duplicate handle_peer_exchange
  exchange-Justified env parsed typed = elim (Option-cases (lookup env.message_id p.seen)) [
    | inr (at, found) ↦ rw (found, is_duplicate) (refl, refl)
    | inl fresh ↦
        rw (fresh, is_duplicate)
          (elim (Bool-cases (verify_envelope c env p.ed_pub_key)) [
            | inr bad ↦ rw bad (refl, refl)
            | inl signed ↦ rw signed (elim (Bool-cases (env.sender_id == p.node_id)) [
              | inr other ↦ rw other (refl, refl)
              | inl sender ↦ rw sender (elim (Option-cases (w.peer_exchange env.payload)) [
                | inl broken ↦ rw (broken, handle_peer_exchange) (refl, refl)
                | inr (infos, carried) ↦
                    rw (carried, handle_peer_exchange)
                      (record {
                        env = env;
                        parsed = parsed;
                        typed = typed;
                        fresh = fresh;
                        marked = ground (arith, lookup-insert_self env.message_id now p.seen);
                        signed = signed;
                        sender = (beq_iff env.sender_id p.node_id).0 sender;
                        reported = refl;
                        carried = carried;
                      })
              ])
            ])
          ])
  ]

  gossiped :
      (env : Envelope)
      → w.envelope raw ≡ some env
      → env.msg_type ≢ msg_type_peer_hello
      → env.msg_type ≢ msg_type_peer_hello_ack
      → env.msg_type ≢ msg_type_peer_exchange
      → env.msg_type ≢ msg_type_keepalive
      → Gossiped w p raw p p.node_id env
  gossiped env parsed hello ack exch alive = record {
    parsed = parsed;
    reported = refl;
    no_hello = hello;
    no_ack = ack;
    no_exchange = exch;
    no_keepalive = alive;
    same = refl;
  }

  gossip-Justified :
      (env : Envelope) (point_to_point : Bool)
      → (point_to_point ≡ false → Gossiped w p raw p p.node_id env)
      → let r : Link × Action =
          if point_to_point then (p, nothing) else (p, gossip p.node_id env) in
        Justified c w p raw r.0 r.1
  gossip-Justified env true g = (refl, refl)
  gossip-Justified env false g = g refl

  -- Whatever bytes a frame carries, the loop acts only where it is justified: peer records are
  -- taken from an envelope with a fresh id that the peer itself signed, the engine gets no
  -- point-to-point message, and any other message leaves the peer's identity as it is.
  pub receive-Justified : Justified c w p raw (receive c w p raw now).0 (receive c w p raw now).1
  unfolding receive
  receive-Justified = elim (Option-cases (w.envelope raw)) [
    | inl broken ↦ rw (broken, receive) (refl, refl)
    | inr (env, parsed) ↦
        rw (parsed, receive)
          (elim (Bool-cases (env.msg_type == msg_type_keepalive)) [
            | inl alive ↦ rw alive (refl, refl)
            | inr no_keepalive ↦
                rw no_keepalive (elim (Bool-cases (env.msg_type == msg_type_peer_exchange)) [
                  | inl typed ↦ rw typed (
                      exchange-Justified env parsed
                        (ground (arith, beq_iff env.msg_type msg_type_peer_exchange)))
                  | inr no_exchange ↦ rw no_exchange (
                      gossip-Justified env
                        (env.msg_type == msg_type_peer_hello
                          || env.msg_type == msg_type_peer_hello_ack)
                        (λ other. ground (arith, gossiped env parsed)))
                ])
          ])
  ]
