-- ===== src/Config/Advertised.antt =====
-- The address that a node with a valid configuration advertises.
use micelio.Base.{
  ◌≡◌, ◌≢◌, ◌⊎◌, refl, arith, true, false, Option, none, some, inl, inr, List, [], ◌∷◌, All, ◌==◌,
  nat_eq, beq_iff,
}
use micelio.Base.Bytes.{Bytes, bytes_eq}
use micelio.Stdlib.Trim.{trim_space}
use micelio.Transport.Discovery.{is_invalid_peer_addr}
use micelio.Config.{Config, validate}
use micelio.Base.Int.{pos_part}
use micelio.Base.Dict.{Dict}
use micelio.Transport.State.{Manager, Services, Identity}
use micelio.Transport.Peers.{advertise_addr}
use micelio.Transport.Discovery.{load_known_peers}
use micelio.Transport.Connections.{Settings, fresh_manager, new_manager, listen, hello_config}
use micelio.Config.Addresses.{Dials, Dials-valid}
use micelio.Config.Accepted.{validate-Accepted}

-- What NewManager reads of the configuration.
abbrev pub settings_of : Config → Settings
settings_of c = record {
  max_peers = pos_part c.max_peers;
  advertise_addr = c.advertise_addr;
  bootstrap = c.bootstrap;
}

configured :
    {K : Type 0} (sv : Services) (cfg : Settings) (id : Identity) (key : Option K)
    (st : Option (Dict Bytes Bytes)) (m : Manager)
    → new_manager sv cfg id key st ≡ some m
    → m.configured_addr ≡ cfg.advertise_addr
unfolding new_manager load_known_peers fresh_manager
configured sv cfg id none st m h = cc
configured sv cfg id (some key) st m h = ground arith

-- A manager that NewManager makes from a configuration without validation errors, whose advertised
-- address is set and has no space around it: whatever address it is bound to, its hello says that it
-- is reachable at the configured address, and a node that is told of that address takes it for
-- valid. So is each bootstrap address, without the space around it.
pub advertised_valid :
    {K : Type 0} (sv : Services) (c : Config) (id : Identity) (key : Option K)
    (st : Option (Dict Bytes Bytes)) (m : Manager) (bound : Bytes)
    → validate c ≡ []
    → c.advertise_addr ≢ []
    → trim_space c.advertise_addr ≡ c.advertise_addr
    → new_manager sv (settings_of c) id key st ≡ some m
    → (let hello = hello_config (listen m bound) c.tags in
        (hello.reachable ≡ true)
        × (hello.listen_addr ≡ c.advertise_addr)
        × (is_invalid_peer_addr hello.listen_addr ≡ false))
      × All (λ a. is_invalid_peer_addr (trim_space a) ≡ false) c.bootstrap
unfolding hello_config listen advertise_addr
advertised_valid sv c id key st m bound valid set bare made =
    let a = (validate-Accepted c).0 valid in
    let same = configured sv (settings_of c) id key st m made in
    let good = dials a.advertised in
    let filled : (c.advertise_addr == []) ≡ false = ground (arith, beq_iff c.advertise_addr []) in
    (rw (same, filled, filled) (refl, refl, rw (← bare) good), all_valid c.bootstrap a.bootstrap)
  where
    dials :
        (c.advertise_addr ≡ []) ⊎ Dials c.advertise_addr
        → is_invalid_peer_addr (trim_space c.advertise_addr) ≡ false
    dials (inl e) = absurd (set e)
    dials (inr d) = Dials-valid c.advertise_addr d

    all_valid :
        (addrs : List Bytes)
        → All Dials addrs
        → All (λ a. is_invalid_peer_addr (trim_space a) ≡ false) addrs
    all_valid [] d = tt
    all_valid (x ∷ xs) (d, ds) = (Dials-valid x d, all_valid xs ds)
