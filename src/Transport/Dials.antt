-- ===== src/Transport/Dials.antt =====
-- internal/transport/discovery.go: which known peers are dialled. `now` is a number of nanoseconds.
pub mod Choice
pub mod Backoff
use micelio.Base.{
  ℕ, ◌+◌, ◌*◌, ◌/◌, Bool, true, false, not, ◌&&◌, ◌||◌, Option, none, some, List, [], ◌∷◌, length,
  take, keep, ltb, ◌==◌, nat_eq, if◌then◌else◌,
}
use micelio.Base.Bytes.{Bytes, bytes_eq}
use micelio.Base.Dict.{Dict, lookup, insert, remove, has_key, values}
use micelio.Transport.State.{Manager, PeerRecord, Services}
use micelio.Transport.Peers.{at_capacity}
use micelio.Transport.Discovery.{backoff, second, max_dials_per_tick, save_known_peer}

-- m.dialing[id], m.bootstrapAddrs[addr]: false if absent
abbrev pub is_set : Option Bool → Bool
is_set none = false
is_set (some b) = b

-- `now.Before(time.Unix(LastFail, 0).Add(backoff))`
unfoldable pub in_backoff : PeerRecord → ℕ → Bool
in_backoff rec now = ltb 0 rec.fail_count && ltb now (rec.last_fail * second + backoff rec * second)

-- The tests of tryDiscoveryDials on one record, in its order.
unfoldable pub is_candidate : Manager → ℕ → PeerRecord → Bool
is_candidate m now rec =
    if rec.node_id == m.id.node_id
    then false
    else if not rec.reachable || rec.addr == []
    then false
    else if has_key rec.node_id m.peers
    then false
    else if is_set (lookup rec.node_id m.dialing)
    then false
    else if is_set (lookup rec.addr m.bootstrap_addrs)
    then false
    else not (in_backoff rec now)

unfoldable pub mark_dialing : Dict Bytes Bool → List PeerRecord → Dict Bytes Bool
mark_dialing dialing [] = dialing
mark_dialing dialing (rec ∷ recs) = mark_dialing (insert rec.node_id true dialing) recs

module _ (sv : Services) where
  unfoldable pub pick : List PeerRecord → List PeerRecord
  pick candidates =
      let shuffled = sv.shuffle candidates in
      if ltb max_dials_per_tick (length shuffled)
      then take max_dials_per_tick shuffled
      else shuffled

  -- tryDiscoveryDials: the manager with the picked peers marked, and the dials that start.
  unfoldable pub try_discovery_dials : Manager → ℕ → Manager × List PeerRecord
  try_discovery_dials m now =
      if at_capacity m
      then (m, [])
      else (let picked = pick (keep (is_candidate m now) (values m.known_peers)) in
          (record m { dialing = mark_dialing m.dialing picked }, picked))

  -- The failure branch of dialDiscovered; `now` is in nanoseconds.
  unfoldable pub dial_failed : Manager → PeerRecord → ℕ → Manager
  dial_failed m rec now = elim (lookup rec.node_id m.known_peers) [
    | none ↦ m
    | some r ↦
        let r' = record r { fail_count = r.fail_count + 1; last_fail = now / second } in
        save_known_peer sv (record m { known_peers = insert rec.node_id r' m.known_peers }) r'
  ]

  -- dialDiscovered behind its wait; `failed` is the result of dial. The deferred delete runs last.
  unfoldable pub dial_discovered : Manager → PeerRecord → Bool → ℕ → Manager
  dial_discovered m rec failed now =
      let m' = if failed then dial_failed m rec now else m in
      record m' { dialing = remove rec.node_id m'.dialing }
