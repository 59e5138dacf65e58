-- ===== src/Transport/Exchange.antt =====
-- internal/transport/discovery.go: what a connection and a peer exchange do to the known peers, and
-- the list that is sent. `now` is time.Now().Unix().
pub mod Known
pub mod Connected
pub mod Updates
pub mod Merge
pub mod Shared
use micelio.Base.{
  ℕ, Bool, true, false, not, ◌&&◌, ◌||◌, Option, none, some, List, [], ◌∷◌, ◌++◌, length, keep, ltb,
  ◌==◌, nat_eq, if◌then◌else◌,
}
use micelio.Base.Bytes.{Bytes, bytes_eq}
use micelio.Base.Dict.{Dict, lookup, insert, values}
use micelio.Stdlib.Crypto.{public_key_size}
use micelio.Stdlib.Hex
use micelio.Proto.{PeerInfo}
use micelio.Gossip.KeyRing
use micelio.Gossip.KeyRing.{KeyRing, directly_verified, gossip_learned}
use micelio.Transport.State.{Manager, Peer, PeerRecord, Services}
use micelio.Transport.Peers.{advertise_addr}
use micelio.Transport.Discovery.{is_invalid_peer_addr, safe_last_seen, save_known_peer, save_all}

-- The record that a connection writes to: the known one, or a new one with the node id alone.
unfoldable pub base_record : Option PeerRecord → Bytes → PeerRecord
base_record (some rec) node_id = rec
base_record none node_id = record {
  node_id = node_id;
  addr = [];
  reachable = false;
  public_key = [];
  last_seen = 0;
  fail_count = 0;
  last_fail = 0;
}

-- The record after a connection: what the hello said, and no failures.
unfoldable pub connected_record : PeerRecord → Peer → ℕ → PeerRecord
connected_record rec p now = record rec {
  addr = p.remote_listen_addr;
  reachable = p.remote_reachable;
  public_key = Hex.encode p.ed_pub_key;
  last_seen = now;
  fail_count = 0;
  last_fail = 0;
}

-- A peer record that passed the tests of mergeDiscoveredPeers.
pub record ValidEntry : Type 0 where
  pub info : PeerInfo
  pub pub_key_hex : Bytes
  pub last_seen : ℕ

unfoldable pub new_record : ValidEntry → PeerRecord
new_record v = record {
  node_id = v.info.node_id;
  addr = v.info.addr;
  reachable = v.info.reachable;
  public_key = v.pub_key_hex;
  last_seen = v.last_seen;
  fail_count = 0;
  last_fail = 0;
}

unfoldable pub newer_record : ValidEntry → PeerRecord → PeerRecord
newer_record v existing = record existing {
  addr = v.info.addr;
  reachable = v.info.reachable;
  public_key = v.pub_key_hex;
  last_seen = v.last_seen;
}

-- The record to write for an entry, if any: a new one, or one that is more recent.
unfoldable pub update : Option PeerRecord → ValidEntry → Option PeerRecord
update none v = some (new_record v)
update (some existing) v =
    if ltb existing.last_seen v.last_seen then some (newer_record v existing) else none

abbrev pub put_update :
    Option PeerRecord → ValidEntry → Dict Bytes PeerRecord → Dict Bytes PeerRecord
put_update none v known = known
put_update (some rec) v known = insert v.info.node_id rec known

abbrev pub note : Option PeerRecord → List PeerRecord → List PeerRecord
note none recs = recs
note (some rec) recs = rec ∷ recs

-- The loop under the lock: the table, and the records to persist.
unfoldable pub apply_entries :
    Dict Bytes PeerRecord → List ValidEntry → Dict Bytes PeerRecord × List PeerRecord
apply_entries known [] = (known, [])
apply_entries known (v ∷ vs) =
    let u = update (lookup v.info.node_id known) v in
    let (known', recs) = apply_entries (put_update u v known) vs in (known', note u recs)

module _ (sv : Services) where
  -- onPeerConnected, up to the exchange message that it sends.
  unfoldable pub on_peer_connected : Manager → Peer → ℕ → Manager
  on_peer_connected m p now =
      let rec = connected_record (base_record (lookup p.node_id m.known_peers) p.node_id) p now in
      save_known_peer sv
        (record m {
          key_ring = KeyRing.add m.key_ring p.node_id p.ed_pub_key directly_verified;
          known_peers = insert p.node_id rec m.known_peers;
        })
        rec

  -- The tests of mergeDiscoveredPeers on one record, in its order.
  unfoldable pub passes : Bytes → PeerInfo → Bool
  passes own_id info =
      if info.node_id == own_id
      then false
      else if not info.reachable || info.addr == [] || is_invalid_peer_addr info.addr
      then false
      else if not (length info.ed25519_pubkey == public_key_size)
      then false
      else info.node_id == Hex.encode (sv.crypto.sum256 info.ed25519_pubkey)

  unfoldable pub valid_entry : PeerInfo → ValidEntry
  valid_entry info = record {
    info = info;
    pub_key_hex = Hex.encode info.ed25519_pubkey;
    last_seen = safe_last_seen info.last_seen;
  }

  -- The loop before the lock: the key ring, and the validated entries.
  unfoldable pub validate : Bytes → KeyRing → List PeerInfo → KeyRing × List ValidEntry
  validate own_id ring [] = (ring, [])
  validate own_id ring (info ∷ infos) =
      let ok = passes own_id info in
      let ring' =
        if ok then KeyRing.add ring info.node_id info.ed25519_pubkey gossip_learned else ring in
      let (ring'', vs) = validate own_id ring' infos in
      (ring'', if ok then valid_entry info ∷ vs else vs)

  -- mergeDiscoveredPeers
  unfoldable pub merge_discovered_peers : Manager → List PeerInfo → Manager
  merge_discovered_peers m infos =
      let (ring, vs) = validate m.id.node_id m.key_ring infos in
      let (known, recs) = apply_entries m.known_peers vs in
      save_all sv (record m { key_ring = ring; known_peers = known }) recs

-- The tests of buildPeerInfoList under the lock.
unfoldable pub shareable : Bytes → Bytes → PeerRecord → Bool
shareable own_id exclude rec =
    if rec.node_id == exclude || rec.node_id == own_id
    then false
    else rec.reachable && not (rec.addr == []) && not (is_invalid_peer_addr rec.addr)

unfoldable pub to_infos : List PeerRecord → List PeerInfo
to_infos [] = []
to_infos (rec ∷ recs) =
    if rec.public_key == [] then to_infos recs else elim (Hex.decode rec.public_key) [
      | none ↦ to_infos recs
      | some key ↦
          if length key == public_key_size
          then record {
            node_id = rec.node_id;
            addr = rec.addr;
            reachable = rec.reachable;
            ed25519_pubkey = key;
            last_seen = rec.last_seen;
          }
            ∷ to_infos recs
          else to_infos recs
    ]

unfoldable pub self_info : Manager → ℕ → PeerInfo
self_info m now = record {
  node_id = m.id.node_id;
  addr = advertise_addr m;
  reachable = true;
  ed25519_pubkey = m.id.public_key;
  last_seen = now;
}

-- buildPeerInfoList
unfoldable pub build_peer_info_list : Manager → Bytes → ℕ → List PeerInfo
build_peer_info_list m exclude now =
    let infos = to_infos (keep (shareable m.id.node_id exclude) (values m.known_peers)) in
    if advertise_addr m == [] then infos else self_info m now ∷ infos
