-- ===== src/Gossip/Engine/Outcome.antt =====
-- The branches of `handle_incoming`: what an accepted message has passed, and what a dropped one
-- leaves alone.
use micelio.Base.{
  ℕ, ◌≤◌, ◌<◌, ◌≡◌, sym, ap, ◌∙◌, ◌≢◌, arith, true, false, some, List, [], length, nat_eq,
  Option-cases, inl, inr,
}
use micelio.Base.Bytes.{Bytes, bytes_eq}
use micelio.Proto.{Envelope, verify_envelope}
use micelio.Gossip.Seen
use micelio.Gossip.KeyRing.{KeyEntry}
use micelio.Gossip.Limiter
use micelio.Gossip.State.{
  PeerHandle, Host, Engine, Handled, accepted, drop, max_field_len, max_gossip_payload,
}
use micelio.Gossip.Engine.{find_key, accept, authenticate, admit, handle_incoming}

-- The size tests at the start of HandleIncoming.
pub record WellSized (env : Envelope) : Type 0 where
  pub message_id_nonempty : 0 < length env.message_id
  pub message_id_fits : length env.message_id ≤ max_field_len
  pub sender_id_nonempty : 0 < length env.sender_id
  pub sender_id_fits : length env.sender_id ≤ max_field_len
  pub payload_fits : length env.payload ≤ max_gossip_payload

module _ (h : Host) {H : Type 0} (e : Engine H) (from : Bytes) (env : Envelope) (now : ℕ)
    (peers : List PeerHandle) where
  -- The engine with which the accepted message reaches the test-and-set of the seen cache.
  abbrev pub admitted : Engine H
  admitted = record e {
    key_ring = (find_key h e.key_ring env).0;
    limiter = (Limiter.allow e.limiter env.sender_id now).1;
  }

  pub record Passed (entry : KeyEntry) : Type 0 where
    pub sized : WellSized env
    pub unseen : Seen.has e.seen env.message_id ≡ false
    pub key : (find_key h e.key_ring env).1 ≡ some entry
    pub signed : verify_envelope h.crypto env entry.pub_key ≡ true
    pub in_rate : (Limiter.allow e.limiter env.sender_id now).0 ≡ true

  sized_of :
      ((handle_incoming h e from env now peers).verdict ≡ accepted)
      → WellSized env × (handle_incoming h e from env now peers ≡ admit h e env from now peers)
  unfolding handle_incoming drop
  sized_of v = ground arith

  unseen_of :
      ((admit h e env from now peers).verdict ≡ accepted)
      → (Seen.has e.seen env.message_id ≡ false)
        × (entry : KeyEntry) × ((find_key h e.key_ring env).1 ≡ some entry)
        × (admit h e env from now peers
            ≡ authenticate h
                (record e { key_ring = (find_key h e.key_ring env).0 })
                env
                entry
                from
                now
                peers)
  unfolding admit drop
  unseen_of v = ground arith

  signed_of :
      (entry : KeyEntry)
      → ((authenticate h
            (record e { key_ring = (find_key h e.key_ring env).0 })
            env
            entry
            from
            now
            peers).verdict
          ≡ accepted)
      → (verify_envelope h.crypto env entry.pub_key ≡ true)
        × ((Limiter.allow e.limiter env.sender_id now).0 ≡ true)
        × (authenticate h
              (record e { key_ring = (find_key h e.key_ring env).0 })
              env
              entry
              from
              now
              peers
            ≡ accept h admitted env from now peers)
  unfolding authenticate drop
  signed_of entry v = ground arith

  -- An accepted message has passed the size tests, was not seen, has a valid signature under the
  -- key that the ring gives for its sender, and is within its sender's rate; the rest of the call
  -- is `accept` on the engine with the new ring and limiter.
  pub accepted-Passed :
      (handle_incoming h e from env now peers).verdict ≡ accepted
      → (entry : KeyEntry) × Passed entry
        × (handle_incoming h e from env now peers ≡ accept h admitted env from now peers)
  accepted-Passed v =
      let (sized, p) = sized_of v in
      let (unseen, entry, key, q) = unseen_of (ap (λ r. r.verdict) (sym p) ∙ v) in
      let (signed, in_rate, r) = signed_of entry (ap (λ r. r.verdict) (sym (p ∙ q)) ∙ v) in
      (
        entry,
        record { sized = sized; unseen = unseen; key = key; signed = signed; in_rate = in_rate },
        p ∙ q ∙ r,
      )

-- A call that leaves the seen cache, the counters and the handlers as they were, and hands nothing
-- to the handlers or to the peers.
pub record Untouched {H : Type 0} (e : Engine H) (after : Handled H) : Type 0 where
  pub deliveries : after.deliveries ≡ []
  pub sends : after.sends ≡ []
  pub seen : after.engine.seen ≡ e.seen
  pub stats : after.engine.stats ≡ e.stats
  pub handlers : after.engine.handlers ≡ e.handlers

module _ (h : Host) {H : Type 0} (env : Envelope) (from : Bytes) (now : ℕ)
    (peers : List PeerHandle) where
  accept_drop :
      (e : Engine H)
      → (accept h e env from now peers).verdict ≢ accepted
      → Untouched e (accept h e env from now peers)
  unfolding accept drop Seen.check
  accept_drop e v = ground arith

  authenticate_drop :
      (e : Engine H) (entry : KeyEntry)
      → (authenticate h e env entry from now peers).verdict ≢ accepted
      → Untouched e (authenticate h e env entry from now peers)
  unfolding authenticate drop
  authenticate_drop e entry v =
      ground
        (arith, accept_drop (record e { limiter = (Limiter.allow e.limiter env.sender_id now).1 }))

  admit_drop :
      (e : Engine H)
      → (admit h e env from now peers).verdict ≢ accepted
      → Untouched e (admit h e env from now peers)
  unfolding admit drop
  admit_drop e v = elim (Option-cases (find_key h e.key_ring env).1) [
    | inl unknown ↦ ground arith
    | inr (entry, found) ↦
        ground
          (arith, authenticate_drop (record e { key_ring = (find_key h e.key_ring env).0 }) entry)
  ]

  -- A message that is not accepted, on whichever branch, is neither delivered nor sent on; the
  -- seen cache, the counters and the handlers stay as they were, so that the message can be tried
  -- again.
  pub handle_drop :
      (e : Engine H)
      → (handle_incoming h e from env now peers).verdict ≢ accepted
      → Untouched e (handle_incoming h e from env now peers)
  unfolding handle_incoming drop
  handle_drop e v = ground (arith, admit_drop e)
