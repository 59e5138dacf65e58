-- ===== src/Transport/Peers/Capacity.antt =====
-- The number of connected peers stays within the limit, and no peer is connected twice.
use micelio.Base.{◌≤◌, ◌≡◌, arith, ◌⊎◌, List, [], ◌∷◌, length}
use micelio.Base.Bytes.{Bytes, bytes_eq}
use micelio.Base.Dict.{
  UniqueKeys, UniqueKeys-insert, UniqueKeys-remove, length-insert_new, length-remove,
}
use micelio.Transport.State.{Manager, Peer}
use micelio.Transport.Peers.{add_peer, remove_peer}

pub record WithinLimit (m : Manager) : Type 0 where
  pub unique : UniqueKeys m.peers
  pub bounded : (m.max_peers ≡ 0) ⊎ (length m.peers ≤ m.max_peers)

pub data Change : Type 0 where
  connected : Peer → Change
  disconnected : Bytes → Change

unfoldable pub change : Manager → Change → Manager
change m (connected p) = (add_peer m p).0
change m (disconnected node_id) = remove_peer m node_id

unfoldable pub changes : Manager → List Change → Manager
changes m [] = m
changes m (c ∷ cs) = changes (change m c) cs

pub add_peer-WithinLimit : (m : Manager) (p : Peer) → WithinLimit m → WithinLimit (add_peer m p).0
unfolding add_peer
add_peer-WithinLimit m p w = record {
  unique = ground (arith, w.unique, UniqueKeys-insert p.node_id p m.peers);
  bounded = ground (arith, w.bounded, length-insert_new p.node_id p m.peers);
}

pub remove_peer-WithinLimit :
    (m : Manager) (id : Bytes) → WithinLimit m → WithinLimit (remove_peer m id)
unfolding remove_peer
remove_peer-WithinLimit m id w = record {
  unique = UniqueKeys-remove id m.peers w.unique;
  bounded = omega (arith, w.bounded, length-remove id m.peers);
}

-- From a table within the limit, and whatever peers come and go, the table keeps one entry for a
-- node id and, if a limit is set, no more entries than it allows.
pub changes-WithinLimit :
    (m : Manager) (cs : List Change) → WithinLimit m → WithinLimit (changes m cs)
unfolding changes change
changes-WithinLimit m [] w = w
changes-WithinLimit m (connected p ∷ cs) w =
    changes-WithinLimit (add_peer m p).0 cs (add_peer-WithinLimit m p w)
changes-WithinLimit m (disconnected id ∷ cs) w =
    changes-WithinLimit (remove_peer m id) cs (remove_peer-WithinLimit m id w)
