-- ===== src/Tests/Gossip.antt =====
-- Runs of the engine (internal/gossip).
use micelio.Base.{
  ℕ, ◌≡◌, ◌≢◌, ◌≤◌, refl, arith, true, false, some, List, [], ◌∷◌, length, All, map, ◌+◌,
}
use micelio.Base.Bytes.{Bytes, bytes_eq, bytes_beq, codes}
use micelio.Base.Dict
use micelio.Base.Dict.{UniqueKeys}
use micelio.Stdlib.Hex
use micelio.Proto.{Envelope, verify_envelope, envelope_sign_data}
use micelio.Gossip.Seen
use micelio.Gossip.KeyRing
use micelio.Gossip.Limiter
use micelio.Gossip.State.{
  PeerHandle, Host, Engine, Handled, accepted, new_engine, register_handler, drop, add_uint64,
}
use micelio.Gossip.Engine.{
  handle_incoming, admit, authenticate, accept, deliver, forward, forward_to, candidates, choose,
  send_all, count_sent, find_key, broadcast,
}
use micelio.Gossip.Engine.Replay.{
  Event, own, seen_cleanup, key_added, event_time, after_all, accepted_once,
}
use micelio.Gossip.Engine.Binding.{IsBound, node_id_of, accepted_authentic}
use micelio.Gossip.Engine.Outcome.{WellSized, Untouched, handle_drop}
use micelio.Gossip.Engine.Forwarding.{
  IsShuffle, IsRelay, Fanned, others, handle_sends, accepted_fanout,
}
use micelio.Gossip.Engine.Counters.{
  IsWords, Accounts, taken, refused, accepted_count, handle-Accounts, broadcast_all,
}
use micelio.Base.Perms.{same_order}
use micelio.Gossip.Engine.Acceptance.{handle_accepts}
use micelio.Gossip.Engine.Outcome.{Passed}
use micelio.Base.{◌↔◌}
use micelio.Tests.{toy_crypto, key_a, private_a, id_a, zeros}

abbrev pub host : Host
host = record {
  crypto = toy_crypto;
  marshal = λ env. some (env.hop_count ∷ env.payload);
  shuffle = λ ps. ps;
}

abbrev pub peers : List PeerHandle
peers =
    record { node_id = codes "p1"; send = λ raw. true }
    ∷ record { node_id = codes "p2"; send = λ raw. true }
    ∷ record { node_id = codes "p3"; send = λ raw. false }
    ∷ []

abbrev pub hello : Envelope
hello = record {
  message_id = codes "m1";
  sender_id = id_a;
  lamport_ts = 1;
  hop_count = 3;
  msg_type = 3;
  payload = codes "hi";
  signature = private_a;
  sender_pubkey = key_a;
}

abbrev pub engine : Engine ℕ
engine = register_handler (new_engine (codes "n1")) 3 42

abbrev first : Handled ℕ
first = handle_incoming host engine (codes "p1") hello 5 peers

pub engine_unique : UniqueKeys engine.seen.entries
unfolding new_engine register_handler Seen.new_seen_cache
engine_unique = tt

first_accepted : first.verdict ≡ accepted
unfolding new_engine register_handler handle_incoming drop admit authenticate accept deliver forward
    forward_to candidates choose send_all count_sent find_key Seen.new_seen_cache Seen.has
    Seen.check KeyRing.new_key_ring KeyRing.lookup KeyRing.add Limiter.new_rate_limiter
    Limiter.allow Limiter.visit Dict.lookup Dict.insert verify_envelope envelope_sign_data
    Hex.encode bytes_beq
first_accepted = refl

-- A clean-up, a message of the node itself and a key, before the message comes again.
abbrev events : List Event
events =
    seen_cleanup 100
    ∷ own (record hello { message_id = codes "m2" }) 200 peers
    ∷ key_added (codes "08") key_a KeyRing.gossip_learned
    ∷ []

events_in_time : All (λ ev. event_time ev ≤ 5 + engine.seen.ttl) events
unfolding new_engine register_handler Seen.new_seen_cache
events_in_time = (omega arith, (omega arith, (omega arith, tt)))

accepted_once_example :
    (handle_incoming host (after_all host first.engine events) (codes "p2") hello 300 peers).verdict
    ≢ accepted
accepted_once_example =
    accepted_once host engine (codes "p1") hello 5 peers events (codes "p2") hello 300 peers
      engine_unique first_accepted events_in_time refl

pub engine-IsBound : IsBound toy_crypto engine.key_ring
engine-IsBound = record {
  at = λ id entry found.
      unfold new_engine register_handler KeyRing.new_key_ring KeyRing.lookup Dict.lookup in
      ground arith;
}

accepted_authentic_example :
    (key : Bytes) × (node_id_of toy_crypto key ≡ id_a)
    × (verify_envelope toy_crypto hello key ≡ true)
    × WellSized hello
accepted_authentic_example =
    accepted_authentic host engine (codes "p1") hello 5 peers engine-IsBound first_accepted

-- A message whose signature is not the sender's.
abbrev forged : Envelope
forged = record hello { signature = zeros 64 }

forged_dropped : (handle_incoming host engine (codes "p1") forged 5 peers).verdict ≢ accepted
unfolding new_engine register_handler handle_incoming drop admit authenticate accept deliver forward
    forward_to candidates choose send_all count_sent find_key Seen.new_seen_cache Seen.has
    Seen.check KeyRing.new_key_ring KeyRing.lookup KeyRing.add Limiter.new_rate_limiter
    Limiter.allow Limiter.visit Dict.lookup Dict.insert verify_envelope envelope_sign_data
    Hex.encode bytes_beq
forged_dropped = ground arith

handle_drop_example : Untouched engine (handle_incoming host engine (codes "p1") forged 5 peers)
handle_drop_example = handle_drop host forged (codes "p1") 5 peers engine forged_dropped

host_shuffles : IsShuffle host
host_shuffles = record { permutes = λ ps. same_order ps }

handle_sends_example :
    All (IsRelay host hello (codes "p1")) first.sends × (length first.sends ≤ engine.fanout)
handle_sends_example = handle_sends host host_shuffles engine (codes "p1") hello 5 peers

accepted_fanout_example :
    Fanned (others peers (codes "p1")) engine.fanout (2 ∷ codes "hi") first.sends
accepted_fanout_example =
    accepted_fanout host host_shuffles engine (codes "p1") hello 5 peers first_accepted
      (omega arith) refl

engine-IsWords : IsWords engine.stats
unfolding new_engine register_handler
engine-IsWords = record {
  received = omega arith;
  delivered = omega arith;
  broadcast = omega arith;
  forwarded = omega arith;
  dropped = omega arith;
}

handle-Accounts_example :
    Accounts engine.stats first.engine.stats
      (accepted_count first.verdict)
      (length first.deliveries)
      first.sends
handle-Accounts_example = handle-Accounts host engine (codes "p1") hello 5 peers engine-IsWords

broadcast_all_example :
    let (e, (sent, total), sends) = broadcast host engine hello 5 peers in
    (sends
      ≡ map
          (λ p. record {
            node_id = p.node_id;
            raw = 3 ∷ codes "hi";
            accepted = p.send (3 ∷ codes "hi");
          })
          peers)
    × (total ≡ 3)
    × (sent ≡ taken sends)
    × (e.stats.broadcast ≡ add_uint64 engine.stats.broadcast (taken sends))
    × (e.stats.dropped ≡ add_uint64 engine.stats.dropped (refused sends))
    × (Seen.has e.seen (codes "m1") ≡ true)
broadcast_all_example = broadcast_all host engine hello 5 peers engine-IsWords refl

handle_accepts_example :
    (first.verdict ≡ accepted)
    ↔ ((entry : KeyRing.KeyEntry) × Passed host engine (codes "p1") hello 5 peers entry)
handle_accepts_example = handle_accepts host engine (codes "p1") hello 5 peers
