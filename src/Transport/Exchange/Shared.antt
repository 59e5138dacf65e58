-- ===== src/Transport/Exchange/Shared.antt =====
-- The peer records that are sent pass the tests of the peer that gets them.
use micelio.Base.{
  ℕ, ◌≡◌, ◌≢◌, ◌⊎◌, arith, true, false, none, some, inl, inr, List, [], ◌∷◌, length, keep, All,
  ◌==◌, nat_eq, beq_iff, beq_false, Bool-cases, Option-cases,
}
use micelio.Base.Bytes.{Bytes, bytes_eq}
use micelio.Base.Dict.{Dict, values}
use micelio.Stdlib.Crypto.{public_key_size}
use micelio.Stdlib.Hex
use micelio.Proto.{PeerInfo}
use micelio.Transport.State.{Manager, PeerRecord, Services}
use micelio.Transport.Peers.{advertise_addr}
use micelio.Transport.Discovery.{is_invalid_peer_addr, valid_key}
use micelio.Transport.Exchange.{passes, shareable, to_infos, self_info, build_peer_info_list}
use micelio.Config.{validate_peer_addr}
use micelio.Config.Addresses.{validate_peer_addr-Dials, Dials-valid}
use micelio.Stdlib.Trim.{trim_space}
use micelio.Stdlib.Net.{split_host_port}
use micelio.Transport.Exchange.Known.{AllKnown}

abbrev pub Passing : Services → Bytes → List PeerInfo → Type 0
Passing sv own_id infos = All (λ info. passes sv own_id info ≡ true) infos

info_of : PeerRecord → Bytes → PeerInfo
info_of rec key = record {
  node_id = rec.node_id;
  addr = rec.addr;
  reachable = rec.reachable;
  ed25519_pubkey = key;
  last_seen = rec.last_seen;
}

shareable-passes :
    (sv : Services) (own_id exclude : Bytes) (rec : PeerRecord) (key : Bytes)
    → shareable own_id exclude rec ≡ true
    → valid_key sv rec ≡ true
    → (rec.public_key == []) ≡ false
    → Hex.decode rec.public_key ≡ some key
    → passes sv exclude (info_of rec key) ≡ true
unfolding passes shareable valid_key info_of
shareable-passes sv own_id exclude rec key s v e d = ground (
  arith,
  beq_iff (Hex.encode (sv.crypto.sum256 key)) rec.node_id,
  beq_iff rec.node_id (Hex.encode (sv.crypto.sum256 key)),
)

to_infos-Passing :
    (sv : Services) (own_id exclude : Bytes) (known : Dict Bytes PeerRecord)
    → AllKnown sv known
    → Passing sv exclude (to_infos (keep (shareable own_id exclude) (values known)))
unfolding to_infos info_of
to_infos-Passing sv own_id exclude [] a = tt
to_infos-Passing sv own_id exclude ((id, rec) ∷ known) (k, ks) =
    let rest = to_infos-Passing sv own_id exclude known ks in
    elim (Bool-cases (shareable own_id exclude rec)) [
      | inr hidden ↦ rw hidden rest
      | inl shared ↦ rw shared (elim (Bool-cases (rec.public_key == [])) [
        | inl no_key ↦ rw (no_key, to_infos) rest
        | inr has_key ↦
            rw (has_key, to_infos)
              (elim (Option-cases (Hex.decode rec.public_key)) [
                | inl broken ↦ rw (broken, to_infos) rest
                | inr (key, decoded) ↦
                    rw (decoded, to_infos)
                      (elim (Bool-cases (length key == public_key_size)) [
                        | inr short ↦ rw short rest
                        | inl sized ↦ rw sized (
                          shareable-passes sv own_id exclude rec key shared k.keyed has_key decoded,
                          rest,
                        )
                      ])
              ])
      ])
    ]

-- The node's own identity, as identity.go makes it; the address that the configuration advertises, as
-- Validate accepts it, with no space around it; and a bound address that has a port, as that of a
-- net.Listener has.
pub record Sound (sv : Services) (m : Manager) : Type 0 where
  pub named : m.id.node_id ≡ Hex.encode (sv.crypto.sum256 m.id.public_key)
  pub sized : length m.id.public_key ≡ public_key_size
  pub configured :
      (m.configured_addr ≡ [])
      ⊎ ((validate_peer_addr m.configured_addr ≡ none)
          × (trim_space m.configured_addr ≡ m.configured_addr))
  pub bound : (host : Bytes) → split_host_port m.listen_addr ≢ some (host, [])

configured_valid :
    (addr : Bytes)
    → (addr ≡ []) ⊎ ((validate_peer_addr addr ≡ none) × (trim_space addr ≡ addr))
    → (addr ≡ []) ⊎ (is_invalid_peer_addr addr ≡ false)
configured_valid addr (inl e) = inl e
configured_valid addr (inr (accepted, bare)) =
    inr (rw (← bare) (Dials-valid addr ((validate_peer_addr-Dials addr).0 accepted)))

dialable :
    (sv : Services) (m : Manager)
    → Sound sv m
    → (advertise_addr m ≡ []) ⊎ (is_invalid_peer_addr (advertise_addr m) ≡ false)
unfolding advertise_addr is_invalid_peer_addr
dialable sv m s = elim (Option-cases (split_host_port m.listen_addr)) [
  | inl bad ↦ ground (arith, configured_valid m.configured_addr s.configured)
  | inr ((host, port), split) ↦
      let port_there = s.bound host in
      ground (
        arith,
        configured_valid m.configured_addr s.configured,
        port_there,
        split,
        beq_iff port [],
        beq_iff m.listen_addr [],
      )
]

self_passes :
    (sv : Services) (m : Manager) (exclude : Bytes) (now : ℕ)
    → Sound sv m
    → m.id.node_id ≢ exclude
    → (advertise_addr m == []) ≡ false
    → passes sv exclude (self_info m now) ≡ true
unfolding passes self_info
self_passes sv m exclude now s other some_addr = ground (
  arith,
  s.named,
  s.sized,
  dialable sv m s,
  beq_false m.id.node_id exclude,
  beq_iff (advertise_addr m) [],
  beq_iff m.id.node_id (Hex.encode (sv.crypto.sum256 m.id.public_key)),
)

-- If the known peers of a node are sound, its node id is the hash of its 32-byte key, the address that
-- it is configured to advertise is empty or passes Validate with no space around it, and the address
-- that it is bound to has no empty port: every record that it sends to another peer passes all the
-- tests of that peer, the node's own record included. It is not the receiver's own, its key hashes
-- to its node id, and it is reachable at a valid address.
pub build_peer_info_list-Passing :
    (sv : Services) (m : Manager) (exclude : Bytes) (now : ℕ)
    → Sound sv m
    → m.id.node_id ≢ exclude
    → AllKnown sv m.known_peers
    → Passing sv exclude (build_peer_info_list m exclude now)
unfolding build_peer_info_list
build_peer_info_list-Passing sv m exclude now s other a =
    let rest = to_infos-Passing sv m.id.node_id exclude m.known_peers a in
    elim (Bool-cases (advertise_addr m == [])) [
      | inl unknown ↦ rw unknown rest
      | inr known ↦ rw known (self_passes sv m exclude now s other known, rest)
    ]
