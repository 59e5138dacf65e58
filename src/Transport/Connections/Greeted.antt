-- ===== src/Transport/Connections/Greeted.antt =====
-- Which peers enter the table.
use micelio.Base.{
  ℕ, ◌≡◌, ap, ◌∙◌, arith, Bool, true, false, Option, some, inl, inr, List, nat_eq, Option-cases,
}
use micelio.Base.Bytes.{Bytes, bytes_eq}
use micelio.Base.Results.{Result-cases}
use micelio.Proto.{PeerInfo}
use micelio.Transport.State.{Manager, Services}
use micelio.Transport.Hello.{
  Link, Wire, receive_hello, msg_type_peer_hello, msg_type_peer_hello_ack,
}
use micelio.Transport.Hello.Greeting.{Encoder}
use micelio.Transport.Hello.Identity.{Authentic, receive_hello-Authentic}
use micelio.Transport.Connections.{
  Opening, running, new_link, be_greeted, exchange_hello, enter_table, open_connection,
}

-- The message that each side waits for.
abbrev pub hello_type : Bool → ℕ
hello_type true = msg_type_peer_hello_ack
hello_type false = msg_type_peer_hello

module _ (sv : Services) (w : Wire) (enc : Encoder) (marshal : List PeerInfo → Option Bytes)
    (tags : List Bytes) where
  be_greeted-Authentic :
      (p p' : Link) (type : ℕ) (o : Opening)
      → be_greeted sv w enc marshal tags p type o ≡ some p'
      → (raw : Bytes) × (o.frame ≡ some raw) × Authentic sv.crypto w raw type p p'
  unfolding be_greeted
  be_greeted-Authentic p p' type o h = elim (Option-cases o.frame) [
    | inl absent ↦ absurd (ground arith)
    | inr (raw, got) ↦ elim (Result-cases (receive_hello sv.crypto w p type raw)) [
      | inr (e, bad) ↦ absurd (ground arith)
      | inl (q, good) ↦ (raw, got, receive_hello-Authentic sv.crypto w p type raw p' (ground arith))
    ]
  ]

  pub exchange_hello-Authentic :
      (m : Manager) (initiator : Bool) (p p' : Link) (o : Opening)
      → exchange_hello sv w enc marshal tags m initiator p o ≡ some p'
      → (raw : Bytes) × (o.frame ≡ some raw) × Authentic sv.crypto w raw (hello_type initiator) p p'
  unfolding exchange_hello
  exchange_hello-Authentic m true p p' o h = be_greeted-Authentic p p' 2 o (ground arith)
  exchange_hello-Authentic m false p p' o h = be_greeted-Authentic p p' 1 o (ground arith)

  -- The peer that a running connection has is the node that the hello named, with the key of the
  -- Noise handshake.
  pub record Known (o : Opening) (initiator : Bool) (p : Link) : Type 0 where
    pub static : Bytes
    pub shook : o.handshake ≡ some static
    pub raw : Bytes
    pub frame : o.frame ≡ some raw
    pub authentic : Authentic sv.crypto w raw (hello_type initiator) (new_link static) p

  enter_table-running :
      (m : Manager) (q p : Link) (o : Opening) (now : ℕ)
      → (enter_table sv w enc marshal tags m q o now).1 ≡ running p
      → q ≡ p
  unfolding enter_table
  enter_table-running m q p o now h = ground arith

  -- A connection that runs, from either side: the handshake gave a static key, the other side sent a
  -- hello, of the type that this side waits for, and the peer of the connection is the sender of
  -- that hello, with the key in it, whose hash is its node id; that key signed the hello and converts
  -- to the static key of the handshake.
  pub open_connection-Known :
      (m : Manager) (initiator : Bool) (o : Opening) (now : ℕ) (p : Link)
      → (open_connection sv w enc marshal tags m initiator o now).1 ≡ running p
      → Known o initiator p
  unfolding open_connection
  open_connection-Known m initiator o now p h = elim (Option-cases o.handshake) [
    | inl absent ↦ absurd (ground arith)
    | inr (static, shook) ↦
        elim (Option-cases (exchange_hello sv w enc marshal tags m initiator (new_link static) o)) [
          | inl bad ↦ absurd (ground arith)
          | inr (q, good) ↦
              let same : q ≡ p = enter_table-running m q p o now (ground arith) in
              let (raw, frame, a) =
                exchange_hello-Authentic m initiator (new_link static) p o
                  (good ∙ ap (λ x. some x) same) in
              record { static = static; shook = shook; raw = raw; frame = frame; authentic = a }
        ]
  ]
