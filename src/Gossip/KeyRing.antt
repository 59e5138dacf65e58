-- ===== src/Gossip/KeyRing.antt =====
-- internal/gossip/keyring.go
pub mod Trust
use micelio.Base.{ℕ, Bool, true, false, Option, none, some, [], leb, length, if◌then◌else◌}
use micelio.Base.Bytes.{Bytes, bytes_eq}
use micelio.Base.Dict
use micelio.Base.Dict.{Dict, insert}

-- The constants in the order of `iota`: a smaller number is a stronger trust.
pub data TrustLevel : Type 0 where
  directly_verified gossip_learned : TrustLevel

abbrev pub rank : TrustLevel → ℕ
rank directly_verified = 0
rank gossip_learned = 1

pub record KeyEntry : Type 0 where
  pub pub_key : Bytes
  pub trust_level : TrustLevel

pub record KeyRing : Type 0 where
  pub keys : Dict Bytes KeyEntry

unfoldable pub new_key_ring : KeyRing
new_key_ring = record { keys = [] }

-- `ok && trust >= existing.TrustLevel`
abbrev pub keeps : Option KeyEntry → TrustLevel → Bool
keeps none trust = false
keeps (some existing) trust = leb (rank existing.trust_level) (rank trust)

unfoldable pub add : KeyRing → Bytes → Bytes → TrustLevel → KeyRing
add kr node_id pub_key trust = if keeps (Dict.lookup node_id kr.keys) trust then kr else record kr {
  keys = insert node_id (record { pub_key = pub_key; trust_level = trust }) kr.keys;
}

unfoldable pub lookup : KeyRing → Bytes → Option KeyEntry
lookup kr node_id = Dict.lookup node_id kr.keys

unfoldable pub remove : KeyRing → Bytes → KeyRing
remove kr node_id = record kr { keys = Dict.remove node_id kr.keys }

unfoldable pub len : KeyRing → ℕ
len kr = length kr.keys
