-- ===== src/Gossip/Concurrent.antt =====
-- internal/gossip/gossip.go: calls of HandleIncoming that run at the same time, one for each peer's
-- receive loop. A turn of a call goes up to its next access to what the calls share: the seen cache,
-- the key ring, the limiter or a counter.
pub mod System
pub mod Acceptances
pub mod Once
pub mod Backed
pub mod Authentic
use micelio.Base.{
  ℕ, ◌-◌, Bool, true, false, ◌||◌, Option, none, some, List, [], length, ltb, leb, ◌==◌, nat_eq,
  if◌then◌else◌,
}
use micelio.Base.Bytes.{Bytes, bytes_eq}
use micelio.Stdlib.Crypto.{public_key_size}
use micelio.Stdlib.Hex
use micelio.Proto.{Envelope, verify_envelope}
use micelio.Gossip.Seen
use micelio.Gossip.KeyRing
use micelio.Gossip.KeyRing.{KeyEntry, gossip_learned}
use micelio.Gossip.Limiter
use micelio.Gossip.State.{
  PeerHandle, Host, Engine, Delivery, Send, Verdict, empty_id, oversized_field, oversized_payload,
  duplicate, unknown_sender, invalid_signature, rate_limited, accepted, add_uint64, add_dropped,
  max_field_len, max_gossip_payload,
}
use micelio.Gossip.Engine.{send_all, count_sent, candidates, choose, deliver}

-- Where a call stands, with the local variables that are live there. An accepted call keeps the time
-- of its test-and-set.
pub data Pc : Type 0 where
  idle : Pc
  -- before Seen.Has
  entering : Pc
  -- before KeyRing.Lookup
  looking : Pc
  -- before KeyRing.Add, and before the second Lookup
  learning : Pc
  relooking : Pc
  -- before Limiter.Allow, with the key to verify with
  verifying : KeyEntry → Pc
  -- before Seen.Check
  checking : Pc
  -- before statsReceived.Add, the handler, getPeers, and statsDropped.Add
  counting : ℕ → Pc
  delivering : ℕ → Pc
  forwarding : ℕ → Pc
  reporting : ℕ → ℕ → Pc
  -- returned without and with the message accepted
  stopped : Verdict → Pc
  finished : ℕ → Pc

pub record Task (H : Type 0) : Type 0 where
  pub from : Bytes
  pub env : Envelope
  pub pc : Pc
  pub deliveries : List (Delivery H)
  pub sends : List Send

-- The tests before the first access to the seen cache.
unfoldable pub reject : Envelope → Option Verdict
reject env =
    if length env.message_id == 0 || length env.sender_id == 0
    then some empty_id
    else if ltb max_field_len (length env.message_id) || ltb max_field_len (length env.sender_id)
    then some oversized_field
    else if ltb max_gossip_payload (length env.payload)
    then some oversized_payload
    else none

abbrev pub found : Option KeyEntry → Pc → Pc
found (some entry) other = verifying entry
found none other = other

-- The test of the key that an envelope carries.
unfoldable pub can_learn : Host → Envelope → Bool
can_learn h env =
    if length env.sender_pubkey == public_key_size
    then Hex.encode (h.crypto.sum256 env.sender_pubkey) == env.sender_id
    else false

module _ {H : Type 0} where
  abbrev pub goto : Task H → Pc → Task H
  goto t pc = record t { pc = pc }

  unfoldable pub enter : Engine H → Task H → Engine H × Task H
  enter e t = elim (reject t.env) [
    | some verdict ↦ (e, goto t (stopped verdict))
    | none ↦ (e, goto t (if Seen.has e.seen t.env.message_id then stopped duplicate else looking))
  ]

  -- Step 5: the test-and-set.
  unfoldable pub test_and_set : Engine H → Task H → ℕ → Engine H × Task H
  test_and_set e t now =
      let (was_seen, seen) = Seen.check e.seen t.env.message_id now in
      (record e { seen = seen }, goto t (if was_seen then stopped duplicate else counting now))

  -- Steps 3 and 4.
  unfoldable pub verify : Host → Engine H → Task H → KeyEntry → ℕ → Engine H × Task H
  verify h e t entry now =
      if verify_envelope h.crypto t.env entry.pub_key
      then (let (ok, limiter) = Limiter.allow e.limiter t.env.sender_id now in
          (record e { limiter = limiter }, goto t (if ok then checking else stopped rate_limited)))
      else (e, goto t (stopped invalid_signature))

module _ (h : Host) {H : Type 0} where
  -- The turn in which the handler returns. A handler that blocks, as the chat handler does in
  -- DeliverRemote on a hub that has stopped, is a call that gets no such turn: nothing here says that
  -- a call returns.
  unfoldable pub handle_message : Engine H → Task H → ℕ → Engine H × Task H
  handle_message e t at =
      let (e', deliveries) = deliver h e t.env in
      (e', record t { pc = forwarding at; deliveries = deliveries })

  -- forwardTo, up to statsForwarded
  unfoldable pub send_on : Engine H → Task H → ℕ → List PeerHandle → Bytes → Engine H × Task H
  send_on e t at peers raw =
      let all = candidates peers t.from in
      if length all == 0
      then (e, goto t (finished at))
      else (let sends = send_all (choose h e.fanout all) raw in
          let sent = count_sent sends in
          (
            record e { stats = record e.stats { forwarded = add_uint64 e.stats.forwarded sent } },
            record t { pc = reporting at (length sends - sent); sends = sends },
          ))

  unfoldable pub relay : Engine H → Task H → ℕ → List PeerHandle → Engine H × Task H
  relay e t at peers =
      if leb t.env.hop_count 1
      then (e, goto t (finished at))
      else elim (h.marshal (record t.env { hop_count = t.env.hop_count - 1 })) [
        | none ↦ (e, goto t (finished at))
        | some raw ↦ send_on e t at peers raw
      ]

  unfoldable pub advance_from : Pc → Engine H → Task H → ℕ → List PeerHandle → Engine H × Task H
  advance_from idle e t now peers = (e, t)
  advance_from entering e t now peers = enter e t
  advance_from looking e t now peers = (
    e,
    goto t (
        found (KeyRing.lookup e.key_ring t.env.sender_id)
          (if can_learn h t.env then learning else stopped unknown_sender)),
  )
  advance_from learning e t now peers = (
    record e {
      key_ring = KeyRing.add e.key_ring t.env.sender_id t.env.sender_pubkey gossip_learned;
    },
    goto t relooking,
  )
  advance_from relooking e t now peers =
      (e, goto t (found (KeyRing.lookup e.key_ring t.env.sender_id) (stopped unknown_sender)))
  advance_from (verifying entry) e t now peers = verify h e t entry now
  advance_from checking e t now peers = test_and_set e t now
  advance_from (counting at) e t now peers = (
    record e { stats = record e.stats { received = add_uint64 e.stats.received 1 } },
    goto t (delivering at),
  )
  advance_from (delivering at) e t now peers = handle_message e t at
  advance_from (forwarding at) e t now peers = relay e t at peers
  advance_from (reporting at dropped) e t now peers =
      (record e { stats = add_dropped e.stats dropped }, goto t (finished at))
  advance_from (stopped verdict) e t now peers = (e, t)
  advance_from (finished at) e t now peers = (e, t)

  -- The next turn of a call, at `now`, when getPeers gives `peers`.
  unfoldable pub advance : Engine H → Task H → ℕ → List PeerHandle → Engine H × Task H
  advance e t now peers = advance_from t.pc e t now peers
