-- ===== src/Gossip/Engine/Acceptance.antt =====
-- Which messages are accepted.
use micelio.Base.{ℕ, ◌≡◌, refl, ap, ◌∙◌, ◌↔◌, arith, true, false, some, List, nat_eq}
use micelio.Base.Bytes.{Bytes, bytes_eq}
use micelio.Proto.{Envelope, verify_envelope}
use micelio.Gossip.Seen
use micelio.Gossip.KeyRing.{KeyEntry}
use micelio.Gossip.Limiter
use micelio.Gossip.State.{PeerHandle, Host, Engine, accepted}
use micelio.Gossip.Engine.{find_key, accept, authenticate, admit, handle_incoming}
use micelio.Gossip.Engine.Outcome.{WellSized, Passed, admitted, accepted-Passed}

module _ (h : Host) {H : Type 0} (e : Engine H) (from : Bytes) (env : Envelope) (now : ℕ)
    (peers : List PeerHandle) where
  sized_admit :
      WellSized env → handle_incoming h e from env now peers ≡ admit h e env from now peers
  unfolding handle_incoming
  sized_admit s = ground (
    arith, s.message_id_nonempty, s.message_id_fits, s.sender_id_nonempty, s.sender_id_fits,
    s.payload_fits,
  )

  unseen_authenticate :
      (entry : KeyEntry)
      → Seen.has e.seen env.message_id ≡ false
      → (find_key h e.key_ring env).1 ≡ some entry
      → admit h e env from now peers
        ≡ authenticate h
            (record e { key_ring = (find_key h e.key_ring env).0 })
            env
            entry
            from
            now
            peers
  unfolding admit
  unseen_authenticate entry unseen found = rw (unseen, found, admit) refl

  signed_accept :
      (entry : KeyEntry)
      → verify_envelope h.crypto env entry.pub_key ≡ true
      → (Limiter.allow e.limiter env.sender_id now).0 ≡ true
      → authenticate h
          (record e { key_ring = (find_key h e.key_ring env).0 })
          env
          entry
          from
          now
          peers
        ≡ accept h (admitted h e from env now peers) env from now peers
  unfolding authenticate
  signed_accept entry signed in_rate = rw (signed, in_rate) refl

  unseen_accept :
      Seen.has e.seen env.message_id ≡ false
      → (accept h (admitted h e from env now peers) env from now peers).verdict ≡ accepted
  unfolding accept Seen.check Seen.has
  unseen_accept unseen = rw unseen refl

  -- A message is accepted exactly if its fields are well-sized, its id is not seen, its sender's key
  -- is known or can be learned from it, its signature verifies under that key, and its sender is
  -- within the rate.
  pub handle_accepts :
      ((handle_incoming h e from env now peers).verdict ≡ accepted)
      ↔ ((entry : KeyEntry) × Passed h e from env now peers entry)
  handle_accepts = (
    λ ok. (let (entry, passed, _) = accepted-Passed h e from env now peers ok in (entry, passed)),
    λ (entry, p).
        ap (λ r. r.verdict)
          (sized_admit p.sized
            ∙ unseen_authenticate entry p.unseen p.key
            ∙ signed_accept entry p.signed p.in_rate)
        ∙ unseen_accept p.unseen,
  )
