-- ===== src/Gossip/KeyRing/Trust.antt =====
-- Trust in a key only grows.
use micelio.Base.{◌≡◌, arith, some, List, [], ◌∷◌, if◌then◌else◌, ◌==◌, beq_iff}
use micelio.Base.Bytes.{Bytes, bytes_eq}
use micelio.Base.Dict.{lookup-insert}
use micelio.Gossip.KeyRing.{
  KeyRing, KeyEntry, TrustLevel, directly_verified, gossip_learned, keeps, add, lookup,
}

-- What `add` leaves at every node id.
pub lookup-add :
    (kr : KeyRing) (id j key : Bytes) (trust : TrustLevel)
    → lookup (add kr id key trust) j ≡ (
        if id == j
        then (if keeps (lookup kr id) trust
            then lookup kr j
            else some (record { pub_key = key; trust_level = trust }))
        else lookup kr j)
unfolding lookup add
lookup-add kr id j key trust = ground (
  arith,
  lookup-insert id j (record { pub_key = key; trust_level = trust }) kr.keys,
  beq_iff id j,
)

pub record Learned : Type 0 where
  pub node_id : Bytes
  pub key : Bytes
  pub trust : TrustLevel

unfoldable pub add_all : KeyRing → List Learned → KeyRing
add_all kr [] = kr
add_all kr (l ∷ ls) = add_all (add kr l.node_id l.key l.trust) ls

-- Whatever is learned later, a directly verified key stays as it is.
pub add_all-keeps_direct :
    (kr : KeyRing) (ls : List Learned) (id key : Bytes)
    → lookup kr id ≡ some (record { pub_key = key; trust_level = directly_verified })
    → lookup (add_all kr ls) id ≡ some (record { pub_key = key; trust_level = directly_verified })
unfolding add_all
add_all-keeps_direct kr [] id key h = h
add_all-keeps_direct kr (l ∷ ls) id key h =
    add_all-keeps_direct (add kr l.node_id l.key l.trust) ls id key
      (ground (arith, lookup-add kr l.node_id id l.key l.trust, beq_iff l.node_id id))

-- Whatever was learned before, a directly verified key that is added to a ring without one is the
-- key that the ring gives afterwards.
pub add-upgrades :
    (kr : KeyRing) (id key : Bytes) {e : KeyEntry}
    → lookup kr id ≡ some e
    → e.trust_level ≡ gossip_learned
    → lookup (add kr id key directly_verified) id
      ≡ some (record { pub_key = key; trust_level = directly_verified })
add-upgrades kr id key h t =
    ground (arith, lookup-add kr id id key directly_verified, beq_iff id id)
