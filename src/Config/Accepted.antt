-- ===== src/Config/Accepted.antt =====
-- What a configuration without validation errors is.
use micelio.Base.{
  ◌≡◌, ◌⊎◌, ◌↔◌, refl, arith, true, inl, inr, List, [], ◌∷◌, ◌++◌, All, nat_eq, Bool-cases, beq_iff,
}
use mathlib.Core.List.{append-eq-nil_iff}
use micelio.Base.Bytes.{Bytes, bytes_eq, codes}
use micelio.Base.Int.{ℤ, pos, ltb_ℤ, ◌≤ℤ◌}
use micelio.Stdlib.Trim.{trim_space}
use micelio.Config.{
  Config, ConfigError, validate_listen_addr, validate_peer_addr, optional, validate_bootstrap,
  validate_addresses, non_negative, validate_numeric_fields, lowers_to, validate_log_level,
  validate, bad_network_listen, bad_ssh_listen, bad_advertise_addr, bad_max_peers,
  bad_exchange_interval, bad_discovery_interval,
}
use micelio.Config.Addresses.{
  Listens, Dials, validate_listen_addr-Listens, validate_peer_addr-Dials, optional-nil,
  bootstrap-nil,
}

-- An address that is absent, or a good one.
abbrev pub AbsentOr : (Bytes → Type 0) → Bytes → Type 0
AbsentOr P addr = (addr ≡ []) ⊎ P addr

-- One of the five levels in any case, or none.
abbrev pub IsLevel : Bytes → Type 0
IsLevel level =
    (level ≡ [])
    ⊎ ((lowers_to level (codes "debug") ≡ true)
        ⊎ ((lowers_to level (codes "info") ≡ true)
            ⊎ ((lowers_to level (codes "warn") ≡ true)
                ⊎ ((lowers_to level (codes "warning") ≡ true)
                    ⊎ (lowers_to level (codes "error") ≡ true)))))

pub record Accepted (c : Config) : Type 0 where
  pub network : AbsentOr Listens c.network_listen
  pub ssh : AbsentOr Listens c.ssh_listen
  pub bootstrap : All Dials c.bootstrap
  pub advertised : AbsentOr Dials c.advertise_addr
  pub peers : pos 0 ≤ℤ c.max_peers
  pub exchange : pos 0 ≤ℤ c.exchange_interval
  pub discovery : pos 0 ≤ℤ c.discovery_interval
  pub level : IsLevel (trim_space c.log_level)

non_negative-nil : (e : ConfigError) (n : ℤ) → (non_negative e n ≡ []) ↔ (pos 0 ≤ℤ n)
unfolding non_negative
non_negative-nil e n = elim (Bool-cases (ltb_ℤ n (pos 0))) [
  | inl below ↦ (λ h. absurd (ground arith), λ le. absurd (ground arith))
  | inr above ↦ rw above (λ h. ground arith, λ le. refl)
]

validate_log_level-IsLevel :
    (level : Bytes) → (validate_log_level level ≡ true) ↔ IsLevel (trim_space level)
unfolding validate_log_level
validate_log_level-IsLevel level = ground (arith, beq_iff (trim_space level) [])

map_sum : {A B C : Type 0} → (B → C) → A ⊎ B → A ⊎ C
map_sum f (inl a) = inl a
map_sum f (inr b) = inr (f b)

map_all :
    {A : Type 0} {P Q : A → Type 0} → ((a : A) → P a → Q a) → (xs : List A) → All P xs → All Q xs
map_all f [] h = tt
map_all f (x ∷ xs) (p, ps) = (f x p, map_all f xs ps)

nil_parts : {A : Type 0} (xs ys : List A) → xs ++ ys ≡ [] → (xs ≡ []) × (ys ≡ [])
nil_parts xs ys h = (append-eq-nil_iff {p = xs} {q = ys}).0 h

-- Validate returns no error exactly when the listen addresses that are set have, without the space
-- around them, a host and a port; each bootstrap address, and the advertised address if it is set,
-- has these too, with a host that is no unspecified IP address; no number is negative; and the log
-- level, without the space around it, is empty or one of the five in any case.
pub validate-Accepted : (c : Config) → (validate c ≡ []) ↔ Accepted c
unfolding validate validate_addresses validate_numeric_fields
validate-Accepted c = (there, back)
  where
    there : validate c ≡ [] → Accepted c
    there h =
        let (addresses, rest) = nil_parts (validate_addresses c) _ h in
        let (numbers, level) = nil_parts (validate_numeric_fields c) _ rest in
        let (network, a1) =
          nil_parts (optional validate_listen_addr bad_network_listen c.network_listen) _
            addresses in
        let (ssh, a2) =
          nil_parts (optional validate_listen_addr bad_ssh_listen c.ssh_listen) _ a1 in
        let (bootstrap, advertised) = nil_parts (validate_bootstrap 0 c.bootstrap) _ a2 in
        let (peers, n1) = nil_parts (non_negative bad_max_peers c.max_peers) _ numbers in
        let (exchange, discovery) =
          nil_parts (non_negative bad_exchange_interval c.exchange_interval) _ n1 in
        record {
          network =
              map_sum (validate_listen_addr-Listens c.network_listen).0
                ((optional-nil validate_listen_addr bad_network_listen c.network_listen).0 network);
          ssh =
              map_sum (validate_listen_addr-Listens c.ssh_listen).0
                ((optional-nil validate_listen_addr bad_ssh_listen c.ssh_listen).0 ssh);
          bootstrap =
              map_all (λ a. (validate_peer_addr-Dials a).0) c.bootstrap
                ((bootstrap-nil 0 c.bootstrap).0 bootstrap);
          advertised =
              map_sum (validate_peer_addr-Dials c.advertise_addr).0 (
                (optional-nil validate_peer_addr bad_advertise_addr c.advertise_addr).0 advertised);
          peers = (non_negative-nil bad_max_peers c.max_peers).0 peers;
          exchange = (non_negative-nil bad_exchange_interval c.exchange_interval).0 exchange;
          discovery = (non_negative-nil bad_discovery_interval c.discovery_interval).0 discovery;
          level = (validate_log_level-IsLevel c.log_level).0 (ground arith);
        }

    back : Accepted c → validate c ≡ []
    back a =
        rw
          (
            (optional-nil validate_listen_addr bad_network_listen c.network_listen).1
                (map_sum (validate_listen_addr-Listens c.network_listen).1 a.network),
            (optional-nil validate_listen_addr bad_ssh_listen c.ssh_listen).1
                (map_sum (validate_listen_addr-Listens c.ssh_listen).1 a.ssh),
            (bootstrap-nil 0 c.bootstrap).1
                (map_all (λ addr. (validate_peer_addr-Dials addr).1) c.bootstrap a.bootstrap),
            (optional-nil validate_peer_addr bad_advertise_addr c.advertise_addr).1
                (map_sum (validate_peer_addr-Dials c.advertise_addr).1 a.advertised),
            (non_negative-nil bad_max_peers c.max_peers).1 a.peers,
            (non_negative-nil bad_exchange_interval c.exchange_interval).1 a.exchange,
            (non_negative-nil bad_discovery_interval c.discovery_interval).1 a.discovery,
            (validate_log_level-IsLevel c.log_level).1 a.level,
          )
          refl
