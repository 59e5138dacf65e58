-- ===== src/Gossip/Engine.antt =====
-- internal/gossip/gossip.go: the calls of the engine. A call returns the engine after it, with what
-- it handed to the local handlers and to the peers. One clock reading `now` stands for those of one
-- call.
pub mod Outcome
pub mod Acceptance
pub mod Fields
pub mod Replay
pub mod Binding
pub mod Forwarding
pub mod Counters
use micelio.Base.{
  ℕ, ◌+◌, ◌-◌, ◌*◌, ◌^◌, ◌%◌, Bool, true, false, not, ◌||◌, Option, none, some, List, [], ◌∷◌, map,
  length, take, keep, ltb, leb, ◌==◌, nat_eq, if◌then◌else◌,
}
use micelio.Base.Bytes.{Bytes, bytes_eq}
use micelio.Base.Dict.{Dict, lookup, insert}
use micelio.Stdlib.Crypto.{Crypto, public_key_size}
use micelio.Stdlib.Hex
use micelio.Proto.{Envelope, verify_envelope}
use micelio.Gossip.Seen
use micelio.Gossip.Seen.{SeenCache}
use micelio.Gossip.KeyRing
use micelio.Gossip.KeyRing.{KeyRing, KeyEntry, gossip_learned}
use micelio.Gossip.Limiter
use micelio.Gossip.Limiter.{RateLimiter}
use micelio.Gossip.State.{
  PeerHandle, Host, Engine, Delivery, Send, Verdict, Handled, empty_id, oversized_field,
  oversized_payload, duplicate, unknown_sender, invalid_signature, rate_limited, accepted, drop,
  add_uint64, add_dropped, max_field_len, max_gossip_payload,
}

unfoldable pub send_all : List PeerHandle → Bytes → List Send
send_all peers raw =
    map (λ p. record { node_id = p.node_id; raw = raw; accepted = p.send raw }) peers

-- `sent`
unfoldable pub count_sent : List Send → ℕ
count_sent sends = length (keep (λ s. s.accepted) sends)

unfoldable pub candidates : List PeerHandle → Bytes → List PeerHandle
candidates peers exclude = keep (λ p. not (p.node_id == exclude)) peers

module _ (h : Host) where
  -- The random subset: all candidates, or `fanout` of them in shuffled order.
  unfoldable pub choose : ℕ → List PeerHandle → List PeerHandle
  choose fanout candidates =
      if ltb fanout (length candidates) then take fanout (h.shuffle candidates) else candidates

  -- Step 2: the sender's key, known or learned from the envelope, and the key ring after it.
  unfoldable pub find_key : KeyRing → Envelope → KeyRing × Option KeyEntry
  find_key ring env = elim (KeyRing.lookup ring env.sender_id) [
    | some entry ↦ (ring, some entry)
    | none ↦
        if length env.sender_pubkey == public_key_size
        then (if Hex.encode (h.crypto.sum256 env.sender_pubkey) == env.sender_id
            then (let ring' = KeyRing.add ring env.sender_id env.sender_pubkey gossip_learned in
                (ring', KeyRing.lookup ring' env.sender_id))
            else (ring, none))
        else (ring, none)
  ]

module _ (h : Host) {H : Type 0} where
  -- forwardTo
  unfoldable pub forward_to : Engine H → List PeerHandle → Bytes → Bytes → Engine H × List Send
  forward_to e peers raw exclude =
      let all = candidates peers exclude in
      if length all == 0
      then (e, [])
      else (let sends = send_all (choose h e.fanout all) raw in
          let sent = count_sent sends in
          let stats = record e.stats { forwarded = add_uint64 e.stats.forwarded sent } in
          (record e { stats = add_dropped stats (length sends - sent) }, sends))

  -- Broadcast, with `sent` and `total`; a marshal error returns (0, 0).
  unfoldable pub broadcast :
      Engine H → Envelope → ℕ → List PeerHandle → Engine H × (ℕ × ℕ) × List Send
  broadcast e env now peers =
      let e' = record e { seen = (Seen.check e.seen env.message_id now).1 } in
      elim (h.marshal env) [
        | none ↦ (e', (0, 0), [])
        | some raw ↦
            let sends = send_all peers raw in
            let sent = count_sent sends in
            let stats = record e'.stats { broadcast = add_uint64 e'.stats.broadcast sent } in
            (
              record e' { stats = add_dropped stats (length peers - sent) },
              (sent, length peers),
              sends,
            )
      ]

  -- Step 7: forward if the hop count allows.
  unfoldable pub forward : Engine H → Envelope → Bytes → List PeerHandle → Engine H × List Send
  forward e env from peers =
      if leb env.hop_count 1
      then (e, [])
      else elim (h.marshal (record env { hop_count = env.hop_count - 1 })) [
        | none ↦ (e, [])
        | some raw ↦ forward_to e peers raw from
      ]

  -- Step 6: deliver to the local handler, if there is one for the type.
  unfoldable pub deliver : Engine H → Envelope → Engine H × List (Delivery H)
  deliver e env = elim (lookup env.msg_type e.handlers) [
    | none ↦ (e, [])
    | some handler ↦ (
      record e { stats = record e.stats { delivered = add_uint64 e.stats.delivered 1 } },
      record { handler = handler; sender_id = env.sender_id; payload = env.payload } ∷ [],
    )
  ]

  -- Steps 5 to 7, from the test-and-set of the seen cache on.
  unfoldable pub accept : Engine H → Envelope → Bytes → ℕ → List PeerHandle → Handled H
  accept e env from now peers =
      let (was_seen, seen) = Seen.check e.seen env.message_id now in
      if was_seen
      then drop (record e { seen = seen }) duplicate
      else (let received = add_uint64 e.stats.received 1 in
          let e1 = record e { seen = seen; stats = record e.stats { received = received } } in
          let (e2, deliveries) = deliver e1 env in
          let (e3, sends) = forward e2 env from peers in
          record { engine = e3; verdict = accepted; deliveries = deliveries; sends = sends })

  -- Steps 3 and 4: the signature, then the rate limit.
  unfoldable pub authenticate :
      Engine H → Envelope → KeyEntry → Bytes → ℕ → List PeerHandle → Handled H
  authenticate e env entry from now peers =
      if verify_envelope h.crypto env entry.pub_key
      then (let (ok, limiter) = Limiter.allow e.limiter env.sender_id now in
          let e' = record e { limiter = limiter } in
          if ok then accept e' env from now peers else drop e' rate_limited)
      else drop e invalid_signature

  -- Steps 1 and 2: the quick test for duplicates, then the sender's key.
  unfoldable pub admit : Engine H → Envelope → Bytes → ℕ → List PeerHandle → Handled H
  admit e env from now peers =
      if Seen.has e.seen env.message_id
      then drop e duplicate
      else (let (ring, found) = find_key h e.key_ring env in
          let e' = record e { key_ring = ring } in
          elim found [
            | none ↦ drop e' unknown_sender
            | some entry ↦ authenticate e' env entry from now peers
          ])

  -- HandleIncoming
  unfoldable pub handle_incoming : Engine H → Bytes → Envelope → ℕ → List PeerHandle → Handled H
  handle_incoming e from env now peers =
      if length env.message_id == 0 || length env.sender_id == 0
      then drop e empty_id
      else if ltb max_field_len (length env.message_id) || ltb max_field_len (length env.sender_id)
      then drop e oversized_field
      else if ltb max_gossip_payload (length env.payload)
      then drop e oversized_payload
      else admit e env from now peers
