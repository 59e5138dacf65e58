-- ===== src/Transport/Discovery.antt =====
-- internal/transport/discovery.go: the table of known peers, the exchange of peer records and the
-- choice of peers to dial. What the program saves in a goroutine is saved here before the call
-- returns.
use micelio.Base.{
  ℕ, ◌-◌, ◌^◌, Bool, true, false, not, ◌&&◌, none, some, List, [], ◌∷◌, length, ltb, ◌==◌, nat_eq,
  if◌then◌else◌,
}
use micelio.Base.Bytes.{Bytes, bytes_eq}
use micelio.Base.Dict.{Dict, insert, values}
use micelio.Stdlib.Crypto.{public_key_size}
use micelio.Stdlib.Hex
use micelio.Stdlib.Net.{split_host_port}
use micelio.Transport.State.{Manager, PeerRecord, Services}
use micelio.Transport.Peers.{is_wildcard}
use Prim.Native.Nat.{min}

abbrev pub max_dials_per_tick : ℕ
max_dials_per_tick = 3

abbrev pub second : ℕ
second = 1_000_000_000

-- math.MaxInt64
abbrev pub max_int64 : ℕ
max_int64 = 9223372036854775807

-- backoff, in seconds
unfoldable pub backoff : PeerRecord → ℕ
backoff r = if r.fail_count == 0 then 0 else min (2 ^ (r.fail_count - 1)) 30

-- isInvalidPeerAddr
unfoldable pub is_invalid_peer_addr : Bytes → Bool
is_invalid_peer_addr addr = elim (split_host_port addr) [
  | none ↦ true
  | some (host, port) ↦ if port == [] then true else is_wildcard host
]

-- safeLastSeen
unfoldable pub safe_last_seen : ℕ → ℕ
safe_last_seen ts = if ltb max_int64 ts then max_int64 else ts

unfoldable pub put_records : Dict Bytes PeerRecord → List PeerRecord → Dict Bytes PeerRecord
put_records known [] = known
put_records known (rec ∷ recs) = put_records (insert rec.node_id rec known) recs

-- saveKnownPeer; a record that cannot be encoded is not saved.
module _ (sv : Services) where
  unfoldable pub save_known_peer : Manager → PeerRecord → Manager
  save_known_peer m rec = elim m.store [
    | none ↦ m
    | some bucket ↦ elim (sv.marshal_record rec) [
      | none ↦ m
      | some encoded ↦ record m { store = some (insert rec.node_id encoded bucket) }
    ]
  ]

  unfoldable pub save_all : Manager → List PeerRecord → Manager
  save_all m [] = m
  save_all m (rec ∷ recs) = save_all (save_known_peer m rec) recs

  -- The test of a stored public key: empty, or hexadecimal of a key that hashes to the node id.
  unfoldable pub valid_key : PeerRecord → Bool
  valid_key rec = if rec.public_key == [] then true else elim (Hex.decode rec.public_key) [
    | none ↦ false
    | some key ↦
        if length key == public_key_size
        then Hex.encode (sv.crypto.sum256 key) == rec.node_id
        else false
  ]

  -- The tests of loadKnownPeers on a decoded record.
  unfoldable pub valid_record : PeerRecord → Bool
  valid_record rec =
      if rec.node_id == []
      then false
      else if not (rec.addr == []) && is_invalid_peer_addr rec.addr
      then false
      else valid_key rec

  unfoldable pub decode_valid : List Bytes → List PeerRecord
  decode_valid [] = []
  decode_valid (v ∷ vs) = elim (sv.unmarshal_record v) [
    | none ↦ decode_valid vs
    | some rec ↦ if valid_record rec then rec ∷ decode_valid vs else decode_valid vs
  ]

  -- loadKnownPeers
  unfoldable pub load_known_peers : Manager → Manager
  load_known_peers m = elim m.store [
    | none ↦ m
    | some bucket ↦ record m {
      known_peers = put_records m.known_peers (decode_valid (values bucket));
    }
  ]
