-- ===== src/Transport/Connections/Events.antt =====
-- Whatever connects, disconnects, is received or is dialled, the tables of the manager stay sound.
use micelio.Base.{
  ℕ, ◌≡◌, refl, sym, arith, Bool, true, false, Option, none, some, inr, List, [], ◌∷◌, nat_eq,
}
use mathlib.Core.Path.{subst}
use micelio.Base.Bytes.{Bytes, bytes_eq}
use micelio.Stdlib.Crypto.{Crypto}
use micelio.Gossip.KeyRing
use micelio.Gossip.KeyRing.{directly_verified}
use micelio.Gossip.Engine.Binding.{IsBound, add-IsBound}
use micelio.Base.Dict
use micelio.Transport.Discovery.{load_known_peers}
use micelio.Transport.Exchange.Known.{load-AllKnown}
use micelio.Transport.Connections.{fresh_manager}
use micelio.Identity.Stable.{IsOwn}
use micelio.Transport.State.{Identity}
use micelio.Base.Dict.{Dict, lookup, insert, All-insert, All-lookup}
use micelio.Proto.{PeerInfo}
use micelio.Transport.State.{Manager, PeerRecord, Services}
use micelio.Transport.Dials.{try_discovery_dials, dial_failed, dial_discovered}
use micelio.Transport.Hello.{Link, Wire}
use micelio.Transport.Hello.Greeting.{Encoder}
use micelio.Transport.Connections.{
  Settings, new_manager, listen, Opening, exchange_tick, handle_inbound, dial, disconnect, on_frame,
  EngineView,
}
use micelio.Transport.Connections.WellFormed.{
  WellFormed, WellFormed-SamePeers, remove_peer-WellFormed,
}
use micelio.Transport.Connections.Steps.{
  IsWire, open_connection-WellFormed, exchange_tick-WellFormed, on_frame-WellFormed,
  dial_failed-WellFormed, handle_inbound-WellFormed, try_discovery_dials-WellFormed,
}

-- What happens to a manager. A time is `now`; a dial that has ended has failed or not.
pub data Event : Type 0 where
  inbound : Opening → ℕ → Event
  outbound : Bool → Opening → ℕ → Event
  disconnected : Bytes → Event
  framed : EngineView → Link → Bytes → ℕ → Event
  exchange_ticked : List Bytes → (Bytes → Bytes) → ℕ → Event
  dials_ticked : ℕ → Event
  dial_ended : PeerRecord → Bool → ℕ → Event
  listening : Bytes → Event

module _ (sv : Services) (w : Wire) (enc : Encoder) (marshal : List PeerInfo → Option Bytes)
    (tags : List Bytes) where
  unfoldable pub after : Manager → Event → Manager
  after m (inbound o now) = (handle_inbound sv w enc marshal tags m o now).0
  after m (outbound connected o now) = (dial sv w enc marshal tags m connected o now).0
  after m (disconnected node_id) = disconnect sv w enc marshal tags m node_id
  after m (framed v p raw now) = on_frame sv w enc v m p raw now
  after m (exchange_ticked node_ids ids now) =
      exchange_tick sv w enc marshal tags m node_ids ids now
  after m (dials_ticked now) = (try_discovery_dials sv m now).0
  after m (dial_ended rec failed now) = dial_discovered sv m rec failed now
  after m (listening addr) = listen m addr

  unfoldable pub after_all : Manager → List Event → Manager
  after_all m [] = m
  after_all m (e ∷ es) = after_all (after m e) es

empty-IsBound : (c : Crypto) → IsBound c KeyRing.new_key_ring
unfolding KeyRing.new_key_ring KeyRing.lookup
empty-IsBound c = record { at = λ id entry found. absurd (unfold Dict.lookup in ground arith) }

fresh-WellFormed :
    (sv : Services) (cfg : Settings) (id : Identity) (st : Option (Dict Bytes Bytes))
    → IsOwn sv.crypto id
    → WellFormed sv (fresh_manager cfg id st)
unfolding fresh_manager
fresh-WellFormed sv cfg id st own = record {
  ring =
      add-IsBound sv.crypto KeyRing.new_key_ring id.node_id id.public_key directly_verified
        (empty-IsBound sv.crypto) (sym own.named);
  known = tt;
  limit = record { unique = tt; bounded = inr (omega arith) };
  peers = tt;
}

load_known_peers-WellFormed :
    (sv : Services) (m : Manager) → WellFormed sv m → WellFormed sv (load_known_peers sv m)
load_known_peers-WellFormed sv m f =
    WellFormed-SamePeers sv m (load_known_peers sv m) (kept.0, kept.1) (rw kept.2 f.ring)
      (load-AllKnown sv m f.known) f
  where
    kept :
        ((load_known_peers sv m).peers ≡ m.peers)
        × ((load_known_peers sv m).max_peers ≡ m.max_peers)
        × ((load_known_peers sv m).key_ring ≡ m.key_ring)
    kept = unfold load_known_peers in ground arith

new_manager-WellFormed :
    {K : Type 0} (sv : Services) (cfg : Settings) (id : Identity) (key : Option K)
    (st : Option (Dict Bytes Bytes)) (m : Manager)
    → IsOwn sv.crypto id
    → new_manager sv cfg id key st ≡ some m
    → WellFormed sv m
unfolding new_manager
new_manager-WellFormed sv cfg id none st m own h = cc
new_manager-WellFormed sv cfg id (some key) st m own h =
    subst (WellFormed sv) made
      (load_known_peers-WellFormed sv (fresh_manager cfg id st) (fresh-WellFormed sv cfg id st own))
  where
    made : load_known_peers sv (fresh_manager cfg id st) ≡ m
    made = ground arith

module _ (sv : Services) (w : Wire) (enc : Encoder) (marshal : List PeerInfo → Option Bytes)
    (tags : List Bytes) (law : IsWire w) where
  after-WellFormed :
      (m : Manager) (e : Event) → WellFormed sv m → WellFormed sv (after sv w enc marshal tags m e)
  unfolding after dial disconnect dial_discovered listen
  after-WellFormed m (inbound o now) f =
      handle_inbound-WellFormed sv w enc marshal tags law m o now f
  after-WellFormed m (outbound false o now) f = f
  after-WellFormed m (outbound true o now) f =
      open_connection-WellFormed sv w enc marshal tags law m true o now f
  after-WellFormed m (disconnected node_id) f = remove_peer-WellFormed sv m node_id f
  after-WellFormed m (framed v p raw now) f =
      on_frame-WellFormed sv w enc marshal tags law v m p raw now f
  after-WellFormed m (exchange_ticked node_ids ids now) f =
      exchange_tick-WellFormed sv w enc marshal tags law m node_ids ids now f
  after-WellFormed m (dials_ticked now) f =
      try_discovery_dials-WellFormed sv w enc marshal tags law m now f
  after-WellFormed m (dial_ended rec false now) f =
      WellFormed-SamePeers sv m _ (refl, refl) f.ring f.known f
  after-WellFormed m (dial_ended rec true now) f =
      let g = dial_failed-WellFormed sv w enc marshal tags law m rec now f in
      WellFormed-SamePeers sv (dial_failed sv m rec now) _ (refl, refl) g.ring g.known g
  after-WellFormed m (listening addr) f = WellFormed-SamePeers sv m _ (refl, refl) f.ring f.known f

  after_all-WellFormed :
      (m : Manager) (es : List Event)
      → WellFormed sv m
      → WellFormed sv (after_all sv w enc marshal tags m es)
  unfolding after_all
  after_all-WellFormed m [] f = f
  after_all-WellFormed m (e ∷ es) f =
      after_all-WellFormed (after sv w enc marshal tags m e) es (after-WellFormed m e f)

  -- If decoded keys are made of bytes: a manager that NewManager makes for an identity whose node
  -- id is the hash of its key, whatever is stored, and whatever connections are then opened from
  -- either side, with whatever the other side sends, closed, dialled or fail, and whatever frames
  -- come, exchange messages and gossip messages whose senders' keys the engine learns, is
  -- well-formed: the keys of the ring and of the known peers hash to their node ids, every
  -- connected peer stands under the node id of its verified key, none is connected twice, and
  -- their number stays within the limit.
  pub manager-WellFormed :
      {K : Type 0} (cfg : Settings) (id : Identity) (key : Option K)
      (st : Option (Dict Bytes Bytes)) (m : Manager) (es : List Event)
      → IsOwn sv.crypto id
      → new_manager sv cfg id key st ≡ some m
      → WellFormed sv (after_all sv w enc marshal tags m es)
  manager-WellFormed cfg id key st m es own made =
      after_all-WellFormed m es (new_manager-WellFormed sv cfg id key st m own made)
