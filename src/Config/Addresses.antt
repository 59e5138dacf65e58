-- ===== src/Config/Addresses.antt =====
-- The addresses that validation accepts.
use micelio.Base.{
  ℕ, ◌+◌, ◌≡◌, ◌≢◌, ◌⊎◌, ◌↔◌, refl, ap, arith, true, false, Option, none, some, inl, inr, List, [],
  ◌∷◌, All, ◌==◌, nat_eq, Bool-cases, Option-cases, beq_iff,
}
use micelio.Base.Bytes.{Bytes, bytes_eq, bytes_beq, codes}
use micelio.Stdlib.Ip.{parse_ip, is_unspecified}
use micelio.Transport.Discovery.{is_invalid_peer_addr}
use micelio.Stdlib.Trim.{trim_space}
use micelio.Stdlib.Net.{split_host_port}
use micelio.Config.{
  ConfigError, AddrError, check_listen, check_peer, is_unspecified_host, validate_with,
  validate_listen_addr, validate_peer_addr, optional, validate_bootstrap,
}

-- Without the space around it, a host and a port.
pub record Listens (addr : Bytes) : Type 0 where
  pub host : Bytes
  pub port : Bytes
  pub parts : split_host_port (trim_space addr) ≡ some (host, port)
  pub some_host : host ≢ []
  pub some_port : port ≢ []

-- And the host is not an unspecified IP address.
pub record Dials (addr : Bytes) : Type 0 where
  pub listens : Listens addr
  pub specified : is_unspecified_host listens.host ≡ false

split-nil : split_host_port [] ≡ none
unfolding split_host_port
split-nil = refl

validate_with-none :
    (check : Bytes × Bytes → Option AddrError) (addr : Bytes)
    → (validate_with check addr ≡ none) ↔ (
        (parts : Bytes × Bytes) × (split_host_port (trim_space addr) ≡ some parts)
        × (check parts ≡ none))
unfolding validate_with
validate_with-none check addr = (there, back)
  where
    there :
        validate_with check addr ≡ none
        → (parts : Bytes × Bytes) × (split_host_port (trim_space addr) ≡ some parts)
          × (check parts ≡ none)
    there h = elim (Option-cases (split_host_port (trim_space addr))) [
      | inl bad ↦ absurd (ground arith)
      | inr (parts, split) ↦ (parts, split, ground arith)
    ]

    back :
        ((parts : Bytes × Bytes) × (split_host_port (trim_space addr) ≡ some parts)
          × (check parts ≡ none))
        → validate_with check addr ≡ none
    back (parts, split, good) = elim (Bool-cases (trim_space addr == [])) [
      | inl empty ↦
          let e : trim_space addr ≡ [] = ground (arith, beq_iff (trim_space addr) []) in
          absurd (ground (arith, split-nil))
      | inr full ↦ rw (full, split) good
    ]

pub validate_listen_addr-Listens :
    (addr : Bytes) → (validate_listen_addr addr ≡ none) ↔ Listens addr
unfolding validate_listen_addr check_listen
validate_listen_addr-Listens addr =
    let (there, back) = validate_with-none check_listen addr in
    (
      λ h.
          let ((host, port), split, good) = there h in
          record {
            host = host;
            port = port;
            parts = split;
            some_host = ground (arith, beq_iff host []);
            some_port = ground (arith, beq_iff port []);
          },
      λ l. back (
        (l.host, l.port),
        l.parts,
        ground (arith, l.some_host, l.some_port, beq_iff l.host [], beq_iff l.port []),
      ),
    )

pub validate_peer_addr-Dials : (addr : Bytes) → (validate_peer_addr addr ≡ none) ↔ Dials addr
unfolding validate_peer_addr check_peer
validate_peer_addr-Dials addr =
    let (there, back) = validate_with-none check_peer addr in
    (
      λ h.
          let ((host, port), split, good) = there h in
          record {
            listens = record {
              host = host;
              port = port;
              parts = split;
              some_host = ground (arith, beq_iff host []);
              some_port = ground (arith, beq_iff port []);
            };
            specified = ground arith;
          },
      λ d.
          let l = d.listens in
          back (
            (l.host, l.port),
            l.parts,
            ground (
              arith,
              l.some_host,
              l.some_port,
              d.specified,
              beq_iff l.host [],
              beq_iff l.port [],
            ),
          ),
    )

pub optional-nil :
    (check : Bytes → Option AddrError) (wrap : AddrError → ConfigError) (addr : Bytes)
    → (optional check wrap addr ≡ []) ↔ ((addr ≡ []) ⊎ (check addr ≡ none))
unfolding optional
optional-nil check wrap addr = elim (Bool-cases (addr == [])) [
  | inl empty ↦ rw empty (λ h. inl (ground (arith, beq_iff addr [])), λ s. refl)
  | inr full ↦ elim (Option-cases (check addr)) [
    | inl good ↦ rw (full, good) (λ h. inr refl, λ s. refl)
    | inr (e, bad) ↦ (λ h. absurd (ground arith), λ s. absurd (ground (arith, beq_iff addr [])))
  ]
]

pub bootstrap-nil :
    (i : ℕ) (addrs : List Bytes)
    → (validate_bootstrap i addrs ≡ []) ↔ All (λ a. validate_peer_addr a ≡ none) addrs
unfolding validate_bootstrap
bootstrap-nil i [] = (λ h. tt, λ a. refl)
bootstrap-nil i (addr ∷ addrs) =
    let (there, back) = bootstrap-nil (i + 1) addrs in
    elim (Option-cases (validate_peer_addr addr)) [
      | inl good ↦ rw (good, validate_bootstrap) (λ h. (refl, there h), λ a. back a.1)
      | inr (e, bad) ↦ (λ h. absurd (ground arith), λ a. absurd (ground (arith, a.0)))
    ]

ipv4_wildcard : is_unspecified_host (codes "0.0.0.0") ≡ true
unfolding is_unspecified_host parse_ip is_unspecified bytes_beq
ipv4_wildcard = refl

ipv6_wildcard : is_unspecified_host (codes "::") ≡ true
unfolding is_unspecified_host parse_ip is_unspecified bytes_beq
ipv6_wildcard = refl

-- No host that Validate accepts for a peer is a wildcard.
pub Dials-valid : (addr : Bytes) → Dials addr → is_invalid_peer_addr (trim_space addr) ≡ false
unfolding is_invalid_peer_addr
Dials-valid addr d = elim (Bool-cases (is_invalid_peer_addr (trim_space addr))) [
  | inr good ↦ good
  | inl bad ↦ absurd (wild (named (d.listens.parts) bad))
]
  where
    host : Bytes
    host = d.listens.host

    named :
        split_host_port (trim_space addr) ≡ some (host, d.listens.port)
        → is_invalid_peer_addr (trim_space addr) ≡ true
        → (host ≡ codes "0.0.0.0") ⊎ (host ≡ codes "::")
    named parts bad = ground (
      arith,
      parts,
      bad,
      d.listens.some_host,
      d.listens.some_port,
      beq_iff d.listens.port [],
      beq_iff host [],
      beq_iff host (codes "0.0.0.0"),
      beq_iff host (codes "::"),
    )

    wild : (host ≡ codes "0.0.0.0") ⊎ (host ≡ codes "::") → ⊥
    wild (inl e) = ground (arith, ap is_unspecified_host e, ipv4_wildcard, d.specified)
    wild (inr e) = ground (arith, ap is_unspecified_host e, ipv6_wildcard, d.specified)
