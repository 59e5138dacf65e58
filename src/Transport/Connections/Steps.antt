-- ===== src/Transport/Connections/Steps.antt =====
-- The steps of a connection and of the dials keep the tables of the manager well-formed.
use micelio.Base.{
  ℕ, ◌≡◌, ◌⊎◌, ◌+◌, ◌/◌, refl, ◌∙◌, arith, Bool, true, false, Option, some, inl, inr, List, [], ◌∷◌,
  length, nat_eq, Option-cases, Bool-cases, All,
}
use mathlib.Core.Path.{subst}
use micelio.Base.Bytes.{Bytes, bytes_eq, IsByte}
use micelio.Base.Dict.{lookup, insert, All-insert, All-lookup}
use micelio.Stdlib.Crypto.{public_key_size}
use micelio.Proto.{Envelope, PeerHello, PeerInfo, verify_envelope}
use micelio.Transport.State.{Manager, PeerRecord, Services}
use micelio.Transport.Peers.{
  Admission, admitted, duplicate, max_peers_reached, add_peer, at_capacity,
}
use micelio.Gossip.Engine.Binding.{handle-IsBound}
use micelio.Transport.Discovery.{second, valid_key, save_known_peer}
use micelio.Transport.Dials.{try_discovery_dials, dial_failed}
use micelio.Transport.Exchange.Known.{KnownOk, save_known}
use micelio.Transport.Exchange.Connected.{Verified}
use micelio.Transport.Exchange.Merge.{KeysAreBytes}
use micelio.Transport.Hello.{Link, Wire, Action, receive, nothing, exchange, gossip}
use micelio.Transport.Hello.Greeting.{Encoder}
use micelio.Transport.Hello.Identity.{Authentic}
use micelio.Transport.Hello.Dispatch.{Justified, receive-Justified}
use micelio.Transport.Connections.{
  Opening, new_link, to_peer, exchange_hello, enter_table, exchange_tick, open_connection,
  handle_inbound, on_frame, EngineView, host_of, learn_from, send_peer_exchange_to,
}
use micelio.Transport.Connections.Greeted.{exchange_hello-Authentic, hello_type}
use micelio.Transport.Connections.WellFormed.{
  WellFormed, WellFormed-SamePeers, add_peer-WellFormed, on_peer_connected-WellFormed,
  merge-WellFormed, queue_to-WellFormed, save-SamePeers,
}

-- proto.Unmarshal gives keys that are made of bytes.
pub record IsWire (w : Wire) : Type 0 where
  pub hello_bytes :
      (raw : Bytes) (hello : PeerHello) → w.hello raw ≡ some hello → All IsByte hello.ed25519_pubkey
  pub exchange_bytes :
      (raw : Bytes) (infos : List PeerInfo) → w.peer_exchange raw ≡ some infos → KeysAreBytes infos

Authentic-Verified :
    (sv : Services) (w : Wire) (raw : Bytes) (type : ℕ) (p p' : Link)
    → IsWire w
    → Authentic sv.crypto w raw type p p'
    → Verified sv (to_peer p')
unfolding to_peer
Authentic-Verified sv w raw type p p' law a = record {
  named = a.named;
  sized = key_size a.env p'.ed_pub_key a.signed;
  bytes = rw a.key (law.hello_bytes a.env.payload a.hello a.said);
}
  where
    key_size :
        (env : Envelope) (key : Bytes)
        → verify_envelope sv.crypto env key ≡ true
        → length key ≡ public_key_size
    key_size env key signed = unfold verify_envelope in ground arith

Admission-cases : (a : Admission) → (a ≡ admitted) ⊎ ((a ≡ duplicate) ⊎ (a ≡ max_peers_reached))
Admission-cases admitted = inl refl
Admission-cases duplicate = inr (inl refl)
Admission-cases max_peers_reached = inr (inr refl)

Action-cases :
    (a : Action)
    → (a ≡ nothing)
      ⊎ (((from : Bytes) × (infos : List PeerInfo) × (a ≡ exchange from infos))
          ⊎ ((from : Bytes) × (env : Envelope) × (a ≡ gossip from env)))
Action-cases nothing = inl refl
Action-cases (exchange from infos) = inr (inl (from, infos, refl))
Action-cases (gossip from env) = inr (inr (from, env, refl))

module _ (sv : Services) (w : Wire) (enc : Encoder) (marshal : List PeerInfo → Option Bytes)
    (tags : List Bytes) (law : IsWire w) where
  enter_table-WellFormed :
      (m : Manager) (p : Link) (o : Opening) (now : ℕ)
      → Verified sv (to_peer p)
      → WellFormed sv m
      → WellFormed sv (enter_table sv w enc marshal tags m p o now).0
  unfolding enter_table send_peer_exchange_to
  enter_table-WellFormed m p o now v f =
      let f' = add_peer-WellFormed sv m (to_peer p) v f in
      elim (Admission-cases (add_peer m (to_peer p)).1) [
        | inl new ↦
            rw (new, enter_table)
              (queue_to-WellFormed sv _ p.node_id _
                (on_peer_connected-WellFormed sv (add_peer m (to_peer p)).0 (to_peer p) now v f'))
        | inr (inl old) ↦ rw (old, enter_table) f'
        | inr (inr full) ↦ rw (full, enter_table) f'
      ]

  pub open_connection-WellFormed :
      (m : Manager) (initiator : Bool) (o : Opening) (now : ℕ)
      → WellFormed sv m
      → WellFormed sv (open_connection sv w enc marshal tags m initiator o now).0
  unfolding open_connection
  open_connection-WellFormed m initiator o now f = elim (Option-cases o.handshake) [
    | inl absent ↦ rw (absent, open_connection) f
    | inr (static, shook) ↦
        elim (Option-cases (exchange_hello sv w enc marshal tags m initiator (new_link static) o)) [
          | inl bad ↦ rw (shook, bad, open_connection) f
          | inr (p, good) ↦
              let (raw, frame, a) =
                exchange_hello-Authentic sv w enc marshal tags m initiator (new_link static) p o
                  good in
              rw (shook, good, open_connection)
                (enter_table-WellFormed m p o now
                  (Authentic-Verified sv w raw (hello_type initiator) (new_link static) p law a) f)
        ]
  ]

  pub exchange_tick-WellFormed :
      (m : Manager) (node_ids : List Bytes) (ids : Bytes → Bytes) (now : ℕ)
      → WellFormed sv m
      → WellFormed sv (exchange_tick sv w enc marshal tags m node_ids ids now)
  unfolding exchange_tick send_peer_exchange_to
  exchange_tick-WellFormed m [] ids now f = f
  exchange_tick-WellFormed m (node_id ∷ node_ids) ids now f =
      exchange_tick-WellFormed
        (send_peer_exchange_to sv w enc marshal tags m node_id (ids node_id) now) node_ids ids now
        (queue_to-WellFormed sv m node_id _ f)

  pub on_frame-WellFormed :
      (v : EngineView) (m : Manager) (p : Link) (raw : Bytes) (now : ℕ)
      → WellFormed sv m
      → WellFormed sv (on_frame sv w enc v m p raw now)
  unfolding on_frame learn_from
  on_frame-WellFormed v m p raw now f = elim (Action-cases (receive sv.crypto w p raw now).1) [
    | inl idle ↦ rw (idle, on_frame) f
    | inr (inl (from, infos, got)) ↦
        let j =
          subst (Justified sv.crypto w p raw (receive sv.crypto w p raw now).0) got
            (receive-Justified sv.crypto w p raw now) in
        rw (got, on_frame)
          (merge-WellFormed sv m infos (law.exchange_bytes j.env.payload infos j.carried) f)
    | inr (inr (from, env, got)) ↦
        let e = record v.engine { key_ring = m.key_ring } in
        rw (got, on_frame)
          (WellFormed-SamePeers sv m (learn_from sv enc v m from env now) (refl, refl)
            (handle-IsBound (host_of sv enc v) e from env now v.handles f.ring) f.known f)
  ]

  failed-KnownOk :
      (r : PeerRecord) (id : Bytes) (count last : ℕ)
      → KnownOk sv (id, r)
      → KnownOk sv (id, record r { fail_count = count; last_fail = last })
  failed-KnownOk r id count last k = record { named = k.named; keyed = same ∙ k.keyed }
    where
      same : valid_key sv (record r { fail_count = count; last_fail = last }) ≡ valid_key sv r
      same = unfold valid_key in refl

  pub dial_failed-WellFormed :
      (m : Manager) (rec : PeerRecord) (now : ℕ)
      → WellFormed sv m
      → WellFormed sv (dial_failed sv m rec now)
  unfolding dial_failed
  dial_failed-WellFormed m rec now f = elim (Option-cases (lookup rec.node_id m.known_peers)) [
    | inl absent ↦ rw (absent, dial_failed) f
    | inr (r, there) ↦
        let r' = record r { fail_count = r.fail_count + 1; last_fail = now / second } in
        let m' = record m { known_peers = insert rec.node_id r' m.known_peers } in
        let k = All-lookup (KnownOk sv) rec.node_id r m.known_peers f.known there in
        let (known, ring) = save_known sv m' r' in
        rw (there, dial_failed)
          (WellFormed-SamePeers sv m (save_known_peer sv m' r') (save-SamePeers sv m' r')
            (rw ring f.ring)
            (rw known (
              All-insert (KnownOk sv) rec.node_id r' m.known_peers
                (failed-KnownOk r rec.node_id (r.fail_count + 1) (now / second) k) f.known))
            f)
  ]

  pub handle_inbound-WellFormed :
      (m : Manager) (o : Opening) (now : ℕ)
      → WellFormed sv m
      → WellFormed sv (handle_inbound sv w enc marshal tags m o now).0
  unfolding handle_inbound
  handle_inbound-WellFormed m o now f = elim (Bool-cases (at_capacity m)) [
    | inl full ↦ rw full f
    | inr room ↦ rw room (open_connection-WellFormed m false o now f)
  ]

  pub try_discovery_dials-WellFormed :
      (m : Manager) (now : ℕ) → WellFormed sv m → WellFormed sv (try_discovery_dials sv m now).0
  unfolding try_discovery_dials
  try_discovery_dials-WellFormed m now f = elim (Bool-cases (at_capacity m)) [
    | inl full ↦ rw full f
    | inr room ↦ rw room (WellFormed-SamePeers sv m _ (refl, refl) f.ring f.known f)
  ]
