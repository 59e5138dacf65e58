-- ===== src/Transport/Connections/WellFormed.antt =====
-- What the tables of a manager satisfy, and that each step of a connection keeps it.
use micelio.Base.{
  ℕ, ◌≡◌, ◌⊎◌, refl, sym, ap, ◌∙◌, arith, Option, none, some, inl, inr, List, [], ◌∷◌, length,
  nat_eq, Option-cases, All,
}
use mathlib.Core.Path.{subst}
use micelio.Base.Bytes.{Bytes, bytes_eq}
use micelio.Base.Dict.{
  lookup, insert, All-insert, All-lookup, All-remove, UniqueKeys-insert, length-insert_old,
}
use micelio.Stdlib.Hex
use micelio.Proto.{PeerInfo}
use micelio.Gossip.Engine.Binding.{IsBound}
use micelio.Transport.State.{Manager, Peer, PeerRecord, Services}
use micelio.Transport.Peers.{add_peer, remove_peer, send_raw}
use micelio.Transport.Peers.Capacity.{WithinLimit, add_peer-WithinLimit, remove_peer-WithinLimit}
use micelio.Transport.Discovery.{save_known_peer, save_all}
use micelio.Transport.Exchange.{on_peer_connected, merge_discovered_peers}
use micelio.Transport.Exchange.Known.{AllKnown}
use micelio.Transport.Exchange.Connected.{Verified, on_peer_connected-Sound}
use micelio.Transport.Exchange.Merge.{KeysAreBytes, merge-IsBound, merge-AllKnown}
use micelio.Transport.Connections.{queue_to}

-- A peer stands under its own node id, which is the hash of its key.
pub record PeerOk (sv : Services) (entry : Bytes × Peer) : Type 0 where
  pub placed : entry.1.node_id ≡ entry.0
  pub verified : Verified sv entry.1

-- The keys of the ring hash to their node ids, the known peers are sound, the connected peers are
-- verified, none is there twice, and there are no more than the limit allows.
pub record WellFormed (sv : Services) (m : Manager) : Type 0 where
  pub ring : IsBound sv.crypto m.key_ring
  pub known : AllKnown sv m.known_peers
  pub limit : WithinLimit m
  pub peers : All (PeerOk sv) m.peers

-- The connected peers and their limit are the same.
abbrev pub SamePeers : Manager → Manager → Type 0
SamePeers a b = (a.peers ≡ b.peers) × (a.max_peers ≡ b.max_peers)

pub save-SamePeers :
    (sv : Services) (m : Manager) (rec : PeerRecord) → SamePeers (save_known_peer sv m rec) m
unfolding save_known_peer
save-SamePeers sv m rec = elim (Option-cases m.store) [
  | inl absent ↦ rw (absent, save_known_peer) (refl, refl)
  | inr (bucket, there) ↦ elim (Option-cases (sv.marshal_record rec)) [
    | inl failed ↦ rw (there, failed, save_known_peer) (refl, refl)
    | inr (bytes, made) ↦ rw (there, made, save_known_peer) (refl, refl)
  ]
]

save_all-SamePeers :
    (sv : Services) (m : Manager) (recs : List PeerRecord) → SamePeers (save_all sv m recs) m
unfolding save_all
save_all-SamePeers sv m [] = (refl, refl)
save_all-SamePeers sv m (r ∷ rs) =
    let (p, q) = save_all-SamePeers sv (save_known_peer sv m r) rs in
    let (p', q') = save-SamePeers sv m r in (p ∙ p', q ∙ q')

-- What does not touch the connected peers.
pub WellFormed-SamePeers :
    (sv : Services) (m m' : Manager)
    → SamePeers m' m
    → IsBound sv.crypto m'.key_ring
    → AllKnown sv m'.known_peers
    → WellFormed sv m
    → WellFormed sv m'
WellFormed-SamePeers sv m m' (same, limit) ring known f = record {
  ring = ring;
  known = known;
  limit = record { unique = rw same f.limit.unique; bounded = rw (same, limit) f.limit.bounded };
  peers = rw same f.peers;
}

add_peer-cases :
    (m : Manager) (p : Peer)
    → ((add_peer m p).0 ≡ m) ⊎ ((add_peer m p).0 ≡ record m { peers = insert p.node_id p m.peers })
unfolding add_peer
add_peer-cases m p = ground arith

pub add_peer-WellFormed :
    (sv : Services) (m : Manager) (p : Peer)
    → Verified sv p
    → WellFormed sv m
    → WellFormed sv (add_peer m p).0
add_peer-WellFormed sv m p v f = elim (add_peer-cases m p) [
  | inl same ↦ rw same f
  | inr new ↦ rw new (record {
    ring = f.ring;
    known = f.known;
    limit = subst WithinLimit new (add_peer-WithinLimit m p f.limit);
    peers =
        All-insert (PeerOk sv) p.node_id p m.peers (record { placed = refl; verified = v }) f.peers;
  })
]

queued-PeerOk :
    (sv : Services) (node_id bytes : Bytes) (p : Peer)
    → PeerOk sv (node_id, p)
    → PeerOk sv (node_id, (send_raw p bytes).1)
queued-PeerOk sv node_id bytes p k = record {
  placed = id ∙ k.placed;
  verified = record {
    named = id ∙ k.verified.named ∙ ap (λ b. Hex.encode (sv.crypto.sum256 b)) (sym key);
    sized = ap length key ∙ k.verified.sized;
    bytes = rw key k.verified.bytes;
  };
}
  where
    id : (send_raw p bytes).1.node_id ≡ p.node_id
    id = unfold send_raw in ground arith

    key : (send_raw p bytes).1.ed_pub_key ≡ p.ed_pub_key
    key = unfold send_raw in ground arith

pub queue_to-WellFormed :
    (sv : Services) (m : Manager) (node_id : Bytes) (bytes : Option Bytes)
    → WellFormed sv m
    → WellFormed sv (queue_to m node_id bytes)
unfolding queue_to
queue_to-WellFormed sv m node_id none f = f
queue_to-WellFormed sv m node_id (some bytes) f = elim (Option-cases (lookup node_id m.peers)) [
  | inl absent ↦ rw (absent, queue_to) f
  | inr (p, there) ↦
      rw (there, queue_to)
        (record {
          ring = f.ring;
          known = f.known;
          limit = record {
            unique = UniqueKeys-insert node_id (send_raw p bytes).1 m.peers f.limit.unique;
            bounded =
                ground (
                  arith,
                  f.limit.bounded,
                  length-insert_old node_id (send_raw p bytes).1 p m.peers,
                );
          };
          peers =
              All-insert (PeerOk sv) node_id (send_raw p bytes).1 m.peers
                (queued-PeerOk sv node_id bytes p
                  (All-lookup (PeerOk sv) node_id p m.peers f.peers there))
                f.peers;
        })
]

pub remove_peer-WellFormed :
    (sv : Services) (m : Manager) (node_id : Bytes)
    → WellFormed sv m
    → WellFormed sv (remove_peer m node_id)
remove_peer-WellFormed sv m node_id f =
    unfold remove_peer in
    record {
      ring = f.ring;
      known = f.known;
      limit = remove_peer-WithinLimit m node_id f.limit;
      peers = All-remove (PeerOk sv) node_id m.peers f.peers;
    }

pub on_peer_connected-WellFormed :
    (sv : Services) (m : Manager) (p : Peer) (now : ℕ)
    → Verified sv p
    → WellFormed sv m
    → WellFormed sv (on_peer_connected sv m p now)
on_peer_connected-WellFormed sv m p now v f =
    let (ring, known) = on_peer_connected-Sound sv m p now v f.ring f.known in
    WellFormed-SamePeers sv m (on_peer_connected sv m p now)
      (unfold on_peer_connected in save-SamePeers sv _ _) ring known f

pub merge-WellFormed :
    (sv : Services) (m : Manager) (infos : List PeerInfo)
    → KeysAreBytes infos
    → WellFormed sv m
    → WellFormed sv (merge_discovered_peers sv m infos)
merge-WellFormed sv m infos bytes f =
    WellFormed-SamePeers sv m (merge_discovered_peers sv m infos)
      (unfold merge_discovered_peers in save_all-SamePeers sv _ _) (merge-IsBound sv m infos f.ring)
      (merge-AllKnown sv m infos bytes f.known) f
