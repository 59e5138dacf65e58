-- ===== src/Transport/Peers.antt =====
-- internal/transport/manager.go: the table of connected peers.
pub mod Capacity
use micelio.Base.{
  ℕ, ◌+◌, Bool, true, false, not, ◌&&◌, ◌||◌, Option, none, some, List, [], ◌∷◌, ◌++◌, map, length,
  ltb, leb, ◌==◌, nat_eq, if◌then◌else◌,
}
use micelio.Base.Bytes.{Bytes, bytes_eq, codes}
use micelio.Base.Dict.{Dict, lookup, insert, remove, has_key, values}
use micelio.Stdlib.Net.{split_host_port}
use micelio.Transport.State.{Manager, Peer}

-- `""` on success, or the reason for the refusal.
pub data Admission : Type 0 where
  admitted duplicate max_peers_reached : Admission

-- addPeer
unfoldable pub add_peer : Manager → Peer → Manager × Admission
add_peer m p =
    if has_key p.node_id m.peers
    then (m, duplicate)
    else if ltb 0 m.max_peers && leb m.max_peers (length m.peers)
    then (m, max_peers_reached)
    else (record m { peers = insert p.node_id p m.peers }, admitted)

-- removePeer
unfoldable pub remove_peer : Manager → Bytes → Manager
remove_peer m node_id = record m { peers = remove node_id m.peers }

-- PeerCount
unfoldable pub peer_count : Manager → ℕ
peer_count m = length m.peers

-- The early test of handleInbound.
unfoldable pub at_capacity : Manager → Bool
at_capacity m = ltb 0 m.max_peers && leb m.max_peers (length m.peers)

-- make(chan []byte, 64)
abbrev pub send_buffer : ℕ
send_buffer = 64

-- SendRaw: the answer, and the peer after the call.
unfoldable pub send_raw : Peer → Bytes → Bool × Peer
send_raw p bytes =
    if ltb (length p.send_queue) send_buffer
    then (true, record p { send_queue = p.send_queue ++ (bytes ∷ []) })
    else (false, p)

abbrev pub is_wildcard : Bytes → Bool
is_wildcard host = host == codes "0.0.0.0" || host == codes "::" || host == []

-- advertiseAddr
unfoldable pub advertise_addr : Manager → Bytes
advertise_addr m =
    if not (m.configured_addr == [])
    then m.configured_addr
    else if m.listen_addr == []
    then []
    else elim (split_host_port m.listen_addr) [
      | none ↦ []
      | some (host, port) ↦ if is_wildcard host then [] else m.listen_addr
    ]
