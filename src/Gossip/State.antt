-- ===== src/Gossip/State.antt =====
-- internal/gossip/gossip.go: the state of the engine, its constants, and what a call hands out.
use micelio.Base.{ℕ, ◌+◌, ◌^◌, ◌%◌, Bool, Option, List, [], ltb, nat_eq, if◌then◌else◌}
use micelio.Base.Bytes.{Bytes, bytes_eq}
use micelio.Base.Dict.{Dict, insert}
use micelio.Stdlib.Crypto.{Crypto}
use micelio.Proto.{Envelope}
use micelio.Gossip.Seen
use micelio.Gossip.Seen.{SeenCache}
use micelio.Gossip.KeyRing
use micelio.Gossip.KeyRing.{KeyRing, KeyEntry, gossip_learned}
use micelio.Gossip.Limiter
use micelio.Gossip.Limiter.{RateLimiter}

abbrev pub default_fanout : ℕ
default_fanout = 3

abbrev pub default_max_hops : ℕ
default_max_hops = 10

-- 5 * time.Minute
abbrev pub default_seen_ttl : ℕ
default_seen_ttl = 300_000_000_000

abbrev pub default_max_per_sec : ℕ
default_max_per_sec = 10

-- 64 << 10
abbrev pub max_gossip_payload : ℕ
max_gossip_payload = 65536

abbrev pub max_field_len : ℕ
max_field_len = 128

-- `send` says whether the peer's buffer takes the bytes.
pub record PeerHandle : Type 0 where
  pub node_id : Bytes
  pub send : Bytes → Bool

-- What the engine calls and the repository does not implement: the cryptography, proto.Marshal of
-- an envelope (`none` is an error) and rand.Shuffle of a list of peers.
pub record Host : Type 0 where
  pub crypto : Crypto
  pub marshal : Envelope → Option Bytes
  pub shuffle : List PeerHandle → List PeerHandle

pub record Stats : Type 0 where
  pub received : ℕ
  pub delivered : ℕ
  pub broadcast : ℕ
  pub forwarded : ℕ
  pub dropped : ℕ

-- `H` is the type of the registered handlers.
pub record Engine (H : Type 0) : Type 0 where
  pub local_id : Bytes
  pub seen : SeenCache
  pub key_ring : KeyRing
  pub limiter : RateLimiter
  pub fanout : ℕ
  pub max_hops : ℕ
  pub handlers : Dict ℕ H
  pub stats : Stats

-- atomic.Uint64.Add
abbrev pub add_uint64 : ℕ → ℕ → ℕ
add_uint64 a b = (a + b) % 2 ^ 64

-- `handler(env.SenderId, env.Payload)`
pub record Delivery (H : Type 0) : Type 0 where
  pub handler : H
  pub sender_id : Bytes
  pub payload : Bytes

-- `p.Send(raw)` with its result
pub record Send : Type 0 where
  pub node_id : Bytes
  pub raw : Bytes
  pub accepted : Bool

-- Where `HandleIncoming` returned.
pub data Verdict : Type 0 where
  empty_id oversized_field oversized_payload duplicate unknown_sender : Verdict
  invalid_signature rate_limited accepted : Verdict

pub record Handled (H : Type 0) : Type 0 where
  pub engine : Engine H
  pub verdict : Verdict
  pub deliveries : List (Delivery H)
  pub sends : List Send

-- `if dropped > 0 { e.statsDropped.Add(dropped) }`
abbrev pub add_dropped : Stats → ℕ → Stats
add_dropped s dropped =
    if ltb 0 dropped then record s { dropped = add_uint64 s.dropped dropped } else s

module _ {H : Type 0} where
  unfoldable pub new_engine : Bytes → Engine H
  new_engine local_id = record {
    local_id = local_id;
    seen = Seen.new_seen_cache default_seen_ttl;
    key_ring = KeyRing.new_key_ring;
    limiter = Limiter.new_rate_limiter default_max_per_sec;
    fanout = default_fanout;
    max_hops = default_max_hops;
    handlers = [];
    stats = record { received = 0; delivered = 0; broadcast = 0; forwarded = 0; dropped = 0 };
  }

  unfoldable pub register_handler : Engine H → ℕ → H → Engine H
  register_handler e msg_type handler = record e { handlers = insert msg_type handler e.handlers }

  unfoldable pub drop : Engine H → Verdict → Handled H
  drop e verdict = record { engine = e; verdict = verdict; deliveries = []; sends = [] }
