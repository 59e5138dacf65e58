-- ===== src/Transport/State.antt =====
-- internal/transport: the state of the peer manager (manager.go) and the records of the discovery
-- table (discovery.go). The store's bucket `peers` holds encoded records; `none` is no store. Times
-- are unix seconds or nanoseconds, not negative.
use micelio.Base.{ℕ, Bool, Option, List, nat_eq}
use micelio.Base.Bytes.{Bytes}
use micelio.Base.Dict.{Dict}
use micelio.Stdlib.Crypto.{Crypto}
use micelio.Gossip.KeyRing.{KeyRing}

pub record PeerRecord : Type 0 where
  pub node_id : Bytes
  pub addr : Bytes
  pub reachable : Bool
  pub public_key : Bytes
  pub last_seen : ℕ
  pub fail_count : ℕ
  pub last_fail : ℕ

pub record Identity : Type 0 where
  pub node_id : Bytes
  pub public_key : Bytes
  pub private_key : Bytes

-- A connected peer after the hello exchange, with the envelopes that wait in its send channel.
pub record Peer : Type 0 where
  pub node_id : Bytes
  pub ed_pub_key : Bytes
  pub remote_reachable : Bool
  pub remote_listen_addr : Bytes
  pub send_queue : List Bytes

pub record Manager : Type 0 where
  pub id : Identity
  pub max_peers : ℕ
  pub configured_addr : Bytes
  pub listen_addr : Bytes
  pub key_ring : KeyRing
  pub peers : Dict Bytes Peer
  pub known_peers : Dict Bytes PeerRecord
  pub dialing : Dict Bytes Bool
  pub bootstrap_addrs : Dict Bytes Bool
  pub store : Option (Dict Bytes Bytes)

-- What the manager calls and the repository does not implement: the cryptography, encoding/json on
-- a record (`none` is an error) and rand.Shuffle of dial candidates.
pub record Services : Type 0 where
  pub crypto : Crypto
  pub marshal_record : PeerRecord → Option Bytes
  pub unmarshal_record : Bytes → Option PeerRecord
  pub shuffle : List PeerRecord → List PeerRecord
