-- ===== src/Gossip/Engine/Fields.antt =====
-- Which parts of the engine the steps of a call write.
use micelio.Base.{ℕ, ◌-◌, ◌≡◌, ◌≢◌, ap, ◌∙◌, arith, List, ◌⊎◌, inl, inr, Option-cases}
use micelio.Base.Bytes.{Bytes, bytes_eq}
use micelio.Proto.{Envelope}
use micelio.Gossip.Seen
use micelio.Gossip.Seen.{SeenCache}
use micelio.Gossip.State.{PeerHandle, Host, Engine, Verdict, accepted, drop, add_uint64}
use micelio.Gossip.Engine.{deliver, forward_to, forward, accept, handle_incoming}
use micelio.Gossip.Engine.Outcome.{admitted, accepted-Passed, handle_drop}

-- The tables and the settings of two engines agree; their counters may differ.
pub record SameTables {H : Type 0} (a b : Engine H) : Type 0 where
  pub seen : a.seen ≡ b.seen
  pub key_ring : a.key_ring ≡ b.key_ring
  pub limiter : a.limiter ≡ b.limiter
  pub handlers : a.handlers ≡ b.handlers
  pub fanout : a.fanout ≡ b.fanout

abbrev received : {H : Type 0} → Engine H → SeenCache → Engine H
received e seen = record e {
  seen = seen;
  stats = record e.stats { received = add_uint64 e.stats.received 1 };
}

Verdict-discrete : Discrete Verdict
Verdict-discrete = hlevel

pub Verdict-cases : (v : Verdict) → (v ≡ accepted) ⊎ (v ≢ accepted)
Verdict-cases v = elim (Verdict-discrete v accepted) [ yes p ↦ inl p | no p ↦ inr p ]

module _ (h : Host) {H : Type 0} where
  pub forward_to-SameTables :
      (e : Engine H) (peers : List PeerHandle) (raw exclude : Bytes)
      → SameTables (forward_to h e peers raw exclude).0 e
  unfolding forward_to
  forward_to-SameTables e peers raw exclude = ground arith

  pub forward-SameTables :
      (e : Engine H) (env : Envelope) (from : Bytes) (peers : List PeerHandle)
      → SameTables (forward h e env from peers).0 e
  unfolding forward
  forward-SameTables e env from peers =
      elim (Option-cases (h.marshal (record env { hop_count = env.hop_count - 1 }))) [
        | inl failed ↦ ground arith
        | inr (raw, made) ↦ ground (arith, forward_to-SameTables e peers raw from)
      ]

  pub deliver-SameTables : (e : Engine H) (env : Envelope) → SameTables (deliver h e env).0 e
  unfolding deliver
  deliver-SameTables e env = ground arith

  pub accept-seen :
      (e : Engine H) (env : Envelope) (from : Bytes) (now : ℕ) (peers : List PeerHandle)
      → ((accept h e env from now peers).engine.seen ≡ (Seen.check e.seen env.message_id now).1)
        × ((accept h e env from now peers).engine.key_ring ≡ e.key_ring)
        × ((accept h e env from now peers).engine.limiter ≡ e.limiter)
  unfolding accept drop
  accept-seen e env from now peers =
      let e1 = received e (Seen.check e.seen env.message_id now).1 in
      ground
        (arith, deliver-SameTables e1 env, forward-SameTables (deliver h e1 env).0 env from peers)

  -- A call writes the seen cache by the test-and-set of an accepted message, or not at all.
  pub handle-seen :
      (e : Engine H) (from : Bytes) (env : Envelope) (now : ℕ) (peers : List PeerHandle)
      → ((handle_incoming h e from env now peers).engine.seen
          ≡ (Seen.check e.seen env.message_id now).1)
        ⊎ ((handle_incoming h e from env now peers).engine.seen ≡ e.seen)
  handle-seen e from env now peers =
      elim (Verdict-cases (handle_incoming h e from env now peers).verdict) [
        | inl ok ↦
            let (entry, passed, same) = accepted-Passed h e from env now peers ok in
            inl (
              ap (λ r. r.engine.seen) same
              ∙ (accept-seen (admitted h e from env now peers) env from now peers).0)
        | inr other ↦ inr (handle_drop h env from now peers e other).seen
      ]
