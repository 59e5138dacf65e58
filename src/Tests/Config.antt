-- ===== src/Tests/Config.antt =====
-- Runs of the validation of a configuration (internal/config).
use micelio.Base.{◌≡◌, ◌↔◌, refl, arith, true, false, none, some, [], ◌∷◌, All, nat_eq}
use micelio.Base.Bytes.{bytes_eq, bytes_beq, codes}
use micelio.Base.Int.{pos, negsuc}
use micelio.Stdlib.Fields
use micelio.Stdlib.Trim.{trim_space, trim_left, trim_right, all_spaces}
use micelio.Stdlib.Net.{split_host_port}
use micelio.Stdlib.Ip.{parse_ip, is_unspecified}
use micelio.Transport.State.{Manager}
use micelio.Transport.Discovery.{is_invalid_peer_addr, load_known_peers}
use micelio.Transport.Connections.{hello_config, listen, fresh_manager, new_manager}
use micelio.Config.{
  Config, validate, validate_addresses, validate_numeric_fields, validate_log_level,
  validate_listen_addr, validate_peer_addr, validate_with, validate_bootstrap, optional,
  check_listen, check_peer, is_unspecified_host, non_negative, lowers_to, lower_first,
  bad_bootstrap, bad_max_peers, bad_log_level, wildcard_host, missing_port, defaults,
}
use micelio.Config.Accepted.{Accepted, validate-Accepted}
use micelio.Config.Advertised.{settings_of, advertised_valid}
use micelio.Tests.{key_a}
use micelio.Tests.Exchange.{services}
use micelio.Tests.Connections.{own}

abbrev sample : Config
sample = record {
  node_name = codes "n1";
  tags = [];
  data_dir = codes "d";
  ssh_listen = codes "0.0.0.0:2222";
  network_listen = codes " [::]:4000";
  advertise_addr = codes "10.0.0.1:4000";
  bootstrap = codes " [::1]:4000 " ∷ codes "node.example.com:4000" ∷ [];
  max_peers = pos 15;
  exchange_interval = pos 0;
  discovery_interval = pos 7;
  log_level = codes " WarN";
  log_format = [];
}

sample_valid : validate sample ≡ []
unfolding validate validate_addresses validate_numeric_fields validate_log_level
    validate_listen_addr validate_peer_addr validate_with validate_bootstrap optional check_listen
    check_peer is_unspecified_host non_negative lowers_to lower_first trim_space trim_left
    trim_right all_spaces split_host_port parse_ip is_unspecified bytes_beq Fields.space_length
sample_valid = refl

-- Every fault is in the result, in order.
abbrev faulty : Config
faulty = record sample {
  bootstrap = codes "a:1" ∷ codes "[::ffff:0.0.0.0]:4000" ∷ codes "b:" ∷ codes "[0::0:0]:1" ∷ [];
  max_peers = negsuc 0;
  log_level = codes "trace";
}

faults :
    validate faulty
    ≡ bad_bootstrap 1 wildcard_host
      ∷ bad_bootstrap 2 missing_port
      ∷ bad_bootstrap 3 wildcard_host
      ∷ bad_max_peers
      ∷ bad_log_level
      ∷ []
unfolding validate validate_addresses validate_numeric_fields validate_log_level
    validate_listen_addr validate_peer_addr validate_with validate_bootstrap optional check_listen
    check_peer is_unspecified_host non_negative lowers_to lower_first trim_space trim_left
    trim_right all_spaces split_host_port parse_ip is_unspecified bytes_beq Fields.space_length
faults = refl

defaults_valid : validate (defaults (codes "host")) ≡ []
unfolding validate validate_addresses validate_numeric_fields validate_log_level
    validate_listen_addr validate_peer_addr validate_with validate_bootstrap optional check_listen
    check_peer is_unspecified_host non_negative lowers_to lower_first trim_space trim_left
    trim_right all_spaces split_host_port parse_ip is_unspecified bytes_beq Fields.space_length
    defaults
defaults_valid = refl

addresses_parsed :
    (parse_ip (codes "1.2.3.255")
      ≡ some (0 ∷ 0 ∷ 0 ∷ 0 ∷ 0 ∷ 0 ∷ 0 ∷ 0 ∷ 0 ∷ 0 ∷ 255 ∷ 255 ∷ 1 ∷ 2 ∷ 3 ∷ 255 ∷ []))
    × (parse_ip (codes "00.0.0.0") ≡ none)
    × (parse_ip (codes "1:2:3:4:5:6:7:8::") ≡ none)
    × (parse_ip (codes "1:2:3:4:5:6:7::")
        ≡ some (0 ∷ 1 ∷ 0 ∷ 2 ∷ 0 ∷ 3 ∷ 0 ∷ 4 ∷ 0 ∷ 5 ∷ 0 ∷ 6 ∷ 0 ∷ 7 ∷ 0 ∷ 0 ∷ []))
    × (parse_ip (codes "node.example.com") ≡ none)
unfolding parse_ip bytes_beq
addresses_parsed = (refl, refl, refl, refl, refl)

validate-Accepted_example : (validate sample ≡ []) ↔ Accepted sample
validate-Accepted_example = validate-Accepted sample

abbrev advertising : Manager
advertising = load_known_peers services (fresh_manager (settings_of sample) own none)

advertising_made :
    new_manager services (settings_of sample) own (some key_a) none ≡ some advertising
unfolding new_manager
advertising_made = refl

advertised_valid_example :
    (let hello = hello_config (listen advertising (codes "[::]:4000")) sample.tags in
      (hello.reachable ≡ true)
      × (hello.listen_addr ≡ codes "10.0.0.1:4000")
      × (is_invalid_peer_addr hello.listen_addr ≡ false))
    × All (λ a. is_invalid_peer_addr (trim_space a) ≡ false) sample.bootstrap
advertised_valid_example =
    advertised_valid services sample own (some key_a) none advertising (codes "[::]:4000")
      sample_valid (ground arith) bare advertising_made
  where
    bare : trim_space (codes "10.0.0.1:4000") ≡ codes "10.0.0.1:4000"
    bare = unfold trim_space trim_left trim_right all_spaces Fields.space_length bytes_beq in refl
