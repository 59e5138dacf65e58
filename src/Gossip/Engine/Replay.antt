-- ===== src/Gossip/Engine/Replay.antt =====
-- No message is accepted twice within the time to live of the seen cache, whatever the engine does
-- in between.
use micelio.Base.{
  ℕ, ◌+◌, ◌≤◌, ◌≡◌, ap, ◌∙◌, sym, ◌≢◌, arith, true, false, some, List, [], ◌∷◌, All, inl, inr,
  is_some,
}
use mathlib.Core.Bool.{false≢true}
use micelio.Base.Bytes.{Bytes, bytes_eq}
use micelio.Base.Dict.{UniqueKeys, lookup-insert_self}
use micelio.Proto.{Envelope}
use micelio.Gossip.Seen
use micelio.Gossip.Seen.{SeenCache}
use micelio.Gossip.Seen.Once.{
  seen_at, check_call, cleanup_call, UniqueKeys-call, seen_at-call, ttl-call, call,
}
use micelio.Gossip.KeyRing
use micelio.Gossip.KeyRing.{TrustLevel}
use micelio.Gossip.Limiter
use micelio.Gossip.State.{PeerHandle, Host, Engine, accepted}
use micelio.Gossip.Engine.{broadcast, handle_incoming}
use micelio.Gossip.Engine.Outcome.{admitted, accepted-Passed}
use micelio.Gossip.Engine.Fields.{handle-seen, accept-seen}

-- What happens to an engine: messages from peers, own messages, the clean-up loops, and keys that
-- other parts add.
pub data Event : Type 0 where
  incoming : Bytes → Envelope → ℕ → List PeerHandle → Event
  own : Envelope → ℕ → List PeerHandle → Event
  seen_cleanup : ℕ → Event
  limiter_cleanup : ℕ → Event
  key_added : Bytes → Bytes → TrustLevel → Event

-- A key brings no clock reading.
abbrev pub event_time : Event → ℕ
event_time (incoming from env now peers) = now
event_time (own env now peers) = now
event_time (seen_cleanup now) = now
event_time (limiter_cleanup now) = now
event_time (key_added id key trust) = 0

-- The id is in the cache since `t`.
pub record Remembers (s : SeenCache) (id : Bytes) (t ttl : ℕ) : Type 0 where
  pub unique : UniqueKeys s.entries
  pub since : seen_at s id ≡ some t
  pub lives : s.ttl ≡ ttl

Remembers-check :
    (s : SeenCache) (id j : Bytes) (t ttl now : ℕ)
    → Remembers s id t ttl
    → now ≤ t + ttl
    → Remembers (Seen.check s j now).1 id t ttl
unfolding call
Remembers-check s id j t ttl now m le = record {
  unique = UniqueKeys-call s (check_call j now) m.unique;
  since = seen_at-call s (check_call j now) id t m.unique m.since (omega (arith, m.lives));
  lives = ttl-call s (check_call j now) ∙ m.lives;
}

Remembers-cleanup :
    (s : SeenCache) (id : Bytes) (t ttl now : ℕ)
    → Remembers s id t ttl
    → now ≤ t + ttl
    → Remembers (Seen.cleanup s now) id t ttl
unfolding call
Remembers-cleanup s id t ttl now m le = record {
  unique = UniqueKeys-call s (cleanup_call now) m.unique;
  since = seen_at-call s (cleanup_call now) id t m.unique m.since (omega (arith, m.lives));
  lives = ttl-call s (cleanup_call now) ∙ m.lives;
}

pub has_of : (s : SeenCache) (id : Bytes) (t ttl : ℕ) → Remembers s id t ttl → Seen.has s id ≡ true
unfolding Seen.has
has_of s id t ttl m = ap is_some m.since

pub first_seen_at :
    (s : SeenCache) (id : Bytes) (now : ℕ)
    → Seen.has s id ≡ false
    → seen_at (Seen.check s id now).1 id ≡ some now
unfolding Seen.check Seen.has
first_seen_at s id now unseen = ground (arith, lookup-insert_self id now s.entries)

first_check-Remembers :
    (s : SeenCache) (id : Bytes) (now : ℕ)
    → UniqueKeys s.entries
    → Seen.has s id ≡ false
    → Remembers (Seen.check s id now).1 id now s.ttl
unfolding call
first_check-Remembers s id now u unseen = record {
  unique = UniqueKeys-call s (check_call id now) u;
  since = first_seen_at s id now unseen;
  lives = ttl-call s (check_call id now);
}

module _ (h : Host) {H : Type 0} where
  -- The engine after an event.
  unfoldable pub after : Engine H → Event → Engine H
  after e (incoming from env now peers) = (handle_incoming h e from env now peers).engine
  after e (own env now peers) = (broadcast h e env now peers).0
  after e (seen_cleanup now) = record e { seen = Seen.cleanup e.seen now }
  after e (limiter_cleanup now) = record e { limiter = Limiter.cleanup e.limiter now }
  after e (key_added id key trust) = record e { key_ring = KeyRing.add e.key_ring id key trust }

  unfoldable pub after_all : Engine H → List Event → Engine H
  after_all e [] = e
  after_all e (ev ∷ evs) = after_all (after e ev) evs

  pub broadcast-seen :
      (e : Engine H) (env : Envelope) (now : ℕ) (peers : List PeerHandle)
      → (broadcast h e env now peers).0.seen ≡ (Seen.check e.seen env.message_id now).1
  unfolding broadcast
  broadcast-seen e env now peers = ground arith

  Remembers-after :
      (e : Engine H) (ev : Event) (id : Bytes) (t ttl : ℕ)
      → Remembers e.seen id t ttl
      → event_time ev ≤ t + ttl
      → Remembers (after e ev).seen id t ttl
  unfolding after
  Remembers-after e (incoming from env now peers) id t ttl m le =
      elim (handle-seen h e from env now peers) [
        | inl checked ↦ rw checked (Remembers-check e.seen id env.message_id t ttl now m le)
        | inr same ↦ rw same m
      ]
  Remembers-after e (own env now peers) id t ttl m le =
      rw (broadcast-seen e env now peers) (Remembers-check e.seen id env.message_id t ttl now m le)
  Remembers-after e (seen_cleanup now) id t ttl m le = Remembers-cleanup e.seen id t ttl now m le
  Remembers-after e (limiter_cleanup now) id t ttl m le = m
  Remembers-after e (key_added j key trust) id t ttl m le = m

  Remembers-after_all :
      (e : Engine H) (evs : List Event) (id : Bytes) (t ttl : ℕ)
      → Remembers e.seen id t ttl
      → All (λ ev. event_time ev ≤ t + ttl) evs
      → Remembers (after_all e evs).seen id t ttl
  unfolding after_all
  Remembers-after_all e [] id t ttl m le = m
  Remembers-after_all e (ev ∷ evs) id t ttl m (le, les) =
      Remembers-after_all (after e ev) evs id t ttl (Remembers-after e ev id t ttl m le) les

  accepted-Remembers :
      (e : Engine H) (from : Bytes) (env : Envelope) (now : ℕ) (peers : List PeerHandle)
      → UniqueKeys e.seen.entries
      → (handle_incoming h e from env now peers).verdict ≡ accepted
      → Remembers (handle_incoming h e from env now peers).engine.seen env.message_id now e.seen.ttl
  accepted-Remembers e from env now peers u ok =
      let (entry, passed, same) = accepted-Passed h e from env now peers ok in
      rw (same, (accept-seen h (admitted h e from env now peers) env from now peers).0)
        (first_check-Remembers e.seen env.message_id now u passed.unseen)

  -- In an engine whose seen cache has no id twice: once a message is accepted at `now`, no message
  -- with its id is accepted again, from whichever peer and at whichever time, after any events
  -- with clock readings up to `now + ttl`.
  pub accepted_once :
      (e : Engine H) (from : Bytes) (env : Envelope) (now : ℕ) (peers : List PeerHandle)
      (evs : List Event) (from' : Bytes) (env' : Envelope) (now' : ℕ) (peers' : List PeerHandle)
      → UniqueKeys e.seen.entries
      → (handle_incoming h e from env now peers).verdict ≡ accepted
      → All (λ ev. event_time ev ≤ now + e.seen.ttl) evs
      → env'.message_id ≡ env.message_id
      → (handle_incoming h
          (after_all (handle_incoming h e from env now peers).engine evs)
          from'
          env'
          now'
          peers').verdict
        ≢ accepted
  accepted_once e from env now peers evs from' env' now' peers' u ok les same again =
      let later = after_all (handle_incoming h e from env now peers).engine evs in
      let m =
        Remembers-after_all (handle_incoming h e from env now peers).engine evs env.message_id now
          e.seen.ttl (accepted-Remembers e from env now peers u ok) les in
      let (entry, passed, _) = accepted-Passed h later from' env' now' peers' again in
      false≢true (
        sym passed.unseen
        ∙ ap (Seen.has later.seen) same
        ∙ has_of later.seen env.message_id now e.seen.ttl m)
