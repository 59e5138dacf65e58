-- ===== src/Gossip/Engine/Binding.antt =====
-- Keys are bound to node ids by their hash, and an accepted message is authentic.
use micelio.Base.{ℕ, ◌≡◌, arith, true, some, List, ◌⊎◌, inl, inr, nat_eq, Option-cases, beq_iff}
use micelio.Base.Bytes.{Bytes, bytes_eq}
use micelio.Stdlib.Crypto.{Crypto}
use micelio.Stdlib.Hex
use micelio.Proto.{Envelope, verify_envelope}
use micelio.Gossip.KeyRing
use micelio.Gossip.KeyRing.{KeyRing, KeyEntry, TrustLevel, gossip_learned}
use micelio.Gossip.KeyRing.Trust.{lookup-add}
use micelio.Gossip.Limiter
use micelio.Gossip.State.{PeerHandle, Host, Engine, accepted, drop}
use micelio.Gossip.Engine.{find_key, authenticate, admit, handle_incoming}
use micelio.Gossip.Engine.Outcome.{WellSized, accepted-Passed}
use micelio.Gossip.Engine.Fields.{accept-seen}

-- The node id of a public key: hex(sha256(key)).
abbrev pub node_id_of : Crypto → Bytes → Bytes
node_id_of c key = Hex.encode (c.sum256 key)

-- Every key in the ring hashes to the node id under which it stands.
pub record IsBound (c : Crypto) (ring : KeyRing) : Type 0 where
  pub at :
      (id : Bytes) (entry : KeyEntry)
      → KeyRing.lookup ring id ≡ some entry
      → node_id_of c entry.pub_key ≡ id

bound_lookup :
    (c : Crypto) (ring : KeyRing) (id j key : Bytes) (trust : TrustLevel) (entry : KeyEntry)
    → IsBound c ring
    → node_id_of c key ≡ id
    → KeyRing.lookup (KeyRing.add ring id key trust) j ≡ some entry
    → node_id_of c entry.pub_key ≡ j
bound_lookup c ring id j key trust entry b e h =
    ground (arith, lookup-add ring id j key trust, beq_iff id j, b.at j entry)

-- Adding a key under its own hash keeps the ring bound.
pub add-IsBound :
    (c : Crypto) (ring : KeyRing) (id key : Bytes) (trust : TrustLevel)
    → IsBound c ring
    → node_id_of c key ≡ id
    → IsBound c (KeyRing.add ring id key trust)
add-IsBound c ring id key trust b e = record {
  at = λ j entry h. bound_lookup c ring id j key trust entry b e h;
}

module _ (h : Host) where
  -- The ring changes only by a key that hashes to the sender's id.
  find_key-ring :
      (ring : KeyRing) (env : Envelope)
      → ((find_key h ring env).0 ≡ ring)
        ⊎ ((node_id_of h.crypto env.sender_pubkey ≡ env.sender_id)
            × ((find_key h ring env).0
                ≡ KeyRing.add ring env.sender_id env.sender_pubkey gossip_learned))
  unfolding find_key
  find_key-ring ring env =
      ground (arith, beq_iff (node_id_of h.crypto env.sender_pubkey) env.sender_id)

  find_key-IsBound :
      (ring : KeyRing) (env : Envelope)
      → IsBound h.crypto ring
      → IsBound h.crypto (find_key h ring env).0
  find_key-IsBound ring env b = elim (find_key-ring ring env) [
    | inl same ↦ rw same b
    | inr (hashed, added) ↦ rw added (add-IsBound h.crypto ring _ _ gossip_learned b hashed)
  ]

  find_key-lookup :
      (ring : KeyRing) (env : Envelope) (entry : KeyEntry)
      → (find_key h ring env).1 ≡ some entry
      → KeyRing.lookup (find_key h ring env).0 env.sender_id ≡ some entry
  unfolding find_key
  find_key-lookup ring env entry found = ground arith

module _ (h : Host) {H : Type 0} (e : Engine H) (from : Bytes) (env : Envelope) (now : ℕ)
    (peers : List PeerHandle) where
  -- If the keys of the ring hash to their node ids, a message that is accepted has well-sized
  -- fields and carries a signature that verifies under a public key whose hash is the message's
  -- sender id, whatever the peer it came from.
  pub accepted_authentic :
      IsBound h.crypto e.key_ring
      → (handle_incoming h e from env now peers).verdict ≡ accepted
      → (key : Bytes) × (node_id_of h.crypto key ≡ env.sender_id)
        × (verify_envelope h.crypto env key ≡ true)
        × WellSized env
  accepted_authentic b ok =
      let (entry, passed, _) = accepted-Passed h e from env now peers ok in
      let ring = find_key-IsBound h e.key_ring env b in
      (
        entry.pub_key,
        ring.at env.sender_id entry (find_key-lookup h e.key_ring env entry passed.key),
        passed.signed,
        passed.sized,
      )

  authenticate_ring :
      (e' : Engine H) (entry : KeyEntry)
      → (authenticate h e' env entry from now peers).engine.key_ring ≡ e'.key_ring
  unfolding authenticate drop
  authenticate_ring e' entry = ground (
    arith,
    accept-seen h (record e' { limiter = (Limiter.allow e'.limiter env.sender_id now).1 }) env from
        now peers,
  )

  admit_ring :
      ((admit h e env from now peers).engine.key_ring ≡ e.key_ring)
      ⊎ ((admit h e env from now peers).engine.key_ring ≡ (find_key h e.key_ring env).0)
  unfolding admit drop
  admit_ring = elim (Option-cases (find_key h e.key_ring env).1) [
    | inl unknown ↦ ground arith
    | inr (entry, found) ↦
        ground
          (arith, authenticate_ring (record e { key_ring = (find_key h e.key_ring env).0 }) entry)
  ]

  ring_after :
      ((handle_incoming h e from env now peers).engine.key_ring ≡ e.key_ring)
      ⊎ ((handle_incoming h e from env now peers).engine.key_ring ≡ (find_key h e.key_ring env).0)
  unfolding handle_incoming drop
  ring_after = ground (arith, admit_ring)

  -- Every call, whichever way it ends, keeps the keys of the ring bound to their node ids.
  pub handle-IsBound :
      IsBound h.crypto e.key_ring
      → IsBound h.crypto (handle_incoming h e from env now peers).engine.key_ring
  handle-IsBound b = elim ring_after [
    | inl same ↦ rw same b
    | inr found ↦ rw found (find_key-IsBound h e.key_ring env b)
  ]
