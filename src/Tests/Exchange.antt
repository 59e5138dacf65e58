-- ===== src/Tests/Exchange.antt =====
-- Runs of the discovery.
use micelio.Base.{◌≡◌, ◌≢◌, ◌≤◌, refl, arith, true, some, inr, [], ◌∷◌, length, All, nat_eq}
use micelio.Base.Bytes.{Bytes, bytes_eq, bytes_beq, codes, IsByte}
use micelio.Base.Dict.{lookup}
use micelio.Base.Perms.{same_order}
use micelio.Stdlib.Hex
use micelio.Stdlib.Net.{split_host_port}
use micelio.Stdlib.Fields
use micelio.Stdlib.Trim.{trim_space, trim_left, trim_right, all_spaces}
use micelio.Stdlib.Ip.{parse_ip, is_unspecified}
use micelio.Config.{validate_peer_addr, validate_with, check_peer, is_unspecified_host}
use micelio.Transport.State.{Manager, PeerRecord, Services}
use micelio.Transport.Discovery.{valid_key, max_dials_per_tick}
use micelio.Transport.Exchange.{merge_discovered_peers, build_peer_info_list}
use micelio.Transport.Exchange.Known.{AllKnown}
use micelio.Transport.Exchange.Merge.{KeysAreBytes, merge-Keeps}
use micelio.Transport.Exchange.Shared.{Sound, Passing, build_peer_info_list-Passing}
use micelio.Transport.Dials.{try_discovery_dials}
use micelio.Transport.Dials.Choice.{IsShuffle, Dialable, dials_safe, no_double_dial}
use micelio.Transport.Exchange.Updates.{Keeps}
use micelio.Tests.{toy_crypto, key_a, id_a}
use micelio.Tests.Transport.{manager, info}

abbrev rec_a : PeerRecord
rec_a = record {
  node_id = id_a;
  addr = codes "10.0.0.1:4000";
  reachable = true;
  public_key = Hex.encode key_a;
  last_seen = 50;
  fail_count = 2;
  last_fail = 40;
}

-- A store that holds every record as `rec_a`.
abbrev pub services : Services
services = record {
  crypto = toy_crypto;
  marshal_record = λ rec. some rec.node_id;
  unmarshal_record = λ raw. some rec_a;
  shuffle = λ recs. recs;
}

abbrev knowing : Manager
knowing = record manager { known_peers = (id_a, rec_a) ∷ [] }

knowing_sound : AllKnown services knowing.known_peers
unfolding valid_key bytes_beq Hex.encode Hex.decode
knowing_sound = (record { named = refl; keyed = refl }, tt)

pub key_bytes : All IsByte key_a
key_bytes = omega arith

pub infos_bytes : KeysAreBytes (info ∷ [])
infos_bytes = (key_bytes, tt)

merge-Keeps_example :
    ((id : Bytes)
      → Keeps
          (lookup id knowing.known_peers)
          (lookup id (merge_discovered_peers services knowing (info ∷ [])).known_peers))
    × (lookup knowing.id.node_id (merge_discovered_peers services knowing (info ∷ [])).known_peers
        ≡ lookup knowing.id.node_id knowing.known_peers)
merge-Keeps_example = merge-Keeps services knowing (info ∷ []) infos_bytes

manager-Sound : Sound services knowing
unfolding Hex.encode validate_peer_addr validate_with check_peer is_unspecified_host trim_space
    trim_left trim_right all_spaces split_host_port parse_ip is_unspecified bytes_beq
    Fields.space_length
manager-Sound = record {
  named = refl;
  sized = refl;
  configured = inr (refl, refl);
  bound = λ host e. ground arith;
}

build_peer_info_list-Passing_example :
    Passing services (codes "08") (build_peer_info_list knowing (codes "08") 60)
build_peer_info_list-Passing_example =
    build_peer_info_list-Passing services knowing (codes "08") 60 manager-Sound (ground arith)
      knowing_sound

shuffles : IsShuffle services
shuffles = record { permutes = λ rs. same_order rs }

dials_safe_example :
    All (Dialable knowing 100_000_000_000) (try_discovery_dials services knowing 100_000_000_000).1
    × (length (try_discovery_dials services knowing 100_000_000_000).1 ≤ max_dials_per_tick)
dials_safe_example = dials_safe services shuffles knowing 100_000_000_000

no_double_dial_example :
    All
      (λ r.
        All
          (λ r'. r'.node_id ≢ r.node_id)
          (try_discovery_dials services
            (try_discovery_dials services knowing 100_000_000_000).0
            110_000_000_000).1)
      (try_discovery_dials services knowing 100_000_000_000).1
no_double_dial_example = no_double_dial services knowing 100_000_000_000 110_000_000_000 shuffles
