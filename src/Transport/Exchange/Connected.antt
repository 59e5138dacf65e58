-- ===== src/Transport/Exchange/Connected.antt =====
-- What a new connection writes to the key ring and to the table of known peers.
use micelio.Base.{ℕ, ◌≡◌, refl, sym, ◌∙◌, inl, inr, length, All, Option-cases}
use micelio.Base.Bytes.{bytes_eq, IsByte}
use micelio.Base.Dict.{lookup, insert, All-insert, All-lookup}
use micelio.Stdlib.Crypto.{public_key_size}
use micelio.Stdlib.Hex
use micelio.Gossip.KeyRing
use micelio.Gossip.KeyRing.{directly_verified}
use micelio.Gossip.Engine.Binding.{IsBound, add-IsBound}
use micelio.Transport.State.{Manager, Peer, PeerRecord, Services}
use micelio.Transport.Exchange.{base_record, connected_record, on_peer_connected}
use micelio.Transport.Exchange.Known.{KnownOk, AllKnown, valid_key_of, save_known}

-- A peer whose hello was accepted.
pub record Verified (sv : Services) (p : Peer) : Type 0 where
  pub named : p.node_id ≡ Hex.encode (sv.crypto.sum256 p.ed_pub_key)
  pub sized : length p.ed_pub_key ≡ public_key_size
  pub bytes : All IsByte p.ed_pub_key

connected-KnownOk :
    (sv : Services) (old : PeerRecord) (p : Peer) (now : ℕ)
    → Verified sv p
    → old.node_id ≡ p.node_id
    → KnownOk sv (p.node_id, connected_record old p now)
unfolding connected_record
connected-KnownOk sv old p now v e = record {
  named = e;
  keyed =
      valid_key_of sv (connected_record old p now) p.ed_pub_key v.bytes v.sized
        (sym v.named ∙ sym e) refl;
}

base-named :
    (sv : Services) (m : Manager) (p : Peer)
    → AllKnown sv m.known_peers
    → (base_record (lookup p.node_id m.known_peers) p.node_id).node_id ≡ p.node_id
unfolding base_record
base-named sv m p a = elim (Option-cases (lookup p.node_id m.known_peers)) [
  | inl new ↦ rw (new, base_record) refl
  | inr (rec, found) ↦
      rw (found, base_record) (All-lookup (KnownOk sv) p.node_id rec m.known_peers a found).named
]

-- After the connection of a verified peer the keys of the ring are bound to their node ids, and the
-- table of known peers is sound.
pub on_peer_connected-Sound :
    (sv : Services) (m : Manager) (p : Peer) (now : ℕ)
    → Verified sv p
    → IsBound sv.crypto m.key_ring
    → AllKnown sv m.known_peers
    → IsBound sv.crypto (on_peer_connected sv m p now).key_ring
      × AllKnown sv (on_peer_connected sv m p now).known_peers
unfolding on_peer_connected
on_peer_connected-Sound sv m p now v b a =
    let old = base_record (lookup p.node_id m.known_peers) p.node_id in
    let rec' = connected_record old p now in
    let (known, ring) =
      save_known sv
        (record m {
          key_ring = KeyRing.add m.key_ring p.node_id p.ed_pub_key directly_verified;
          known_peers = insert p.node_id rec' m.known_peers;
        })
        rec' in
    (
      rw ring (
          add-IsBound sv.crypto m.key_ring p.node_id p.ed_pub_key directly_verified b
            (sym v.named)),
      rw known (
          All-insert (KnownOk sv) p.node_id rec' m.known_peers
            (connected-KnownOk sv old p now v (base-named sv m p a)) a),
    )
