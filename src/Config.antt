-- ===== src/Config.antt =====
-- internal/config/config.go: the configuration, its defaults and its validation.
pub mod Addresses
pub mod Accepted
pub mod Advertised
use micelio.Base.{
  ℕ, zero, suc, ◌+◌, ◌*◌, Bool, true, false, ◌&&◌, ◌||◌, Option, none, some, List, [], ◌∷◌, ◌++◌,
  take, drop, leb, ◌==◌, nat_eq, if◌then◌else◌,
}
use micelio.Base.Bytes.{Bytes, bytes_eq, codes}
use micelio.Base.Int.{ℤ, pos, ltb_ℤ}
use micelio.Base.Results.{Result, ok, err}
use micelio.Stdlib.Trim.{trim_space}
use micelio.Stdlib.Net.{split_host_port}
use micelio.Stdlib.Ip.{parse_ip, is_unspecified}

-- A duration is in nanoseconds.
pub record Config : Type 0 where
  pub node_name : Bytes
  pub tags : List Bytes
  pub data_dir : Bytes
  pub ssh_listen : Bytes
  pub network_listen : Bytes
  pub advertise_addr : Bytes
  pub bootstrap : List Bytes
  pub max_peers : ℤ
  pub exchange_interval : ℤ
  pub discovery_interval : ℤ
  pub log_level : Bytes
  pub log_format : Bytes

abbrev second : ℕ
second = 1_000_000_000

-- Defaults; `hostname` is the result of os.Hostname.
unfoldable pub defaults : Bytes → Config
defaults hostname = record {
  node_name = if hostname == [] then codes "micelio" else hostname;
  tags = [];
  data_dir = codes "~/.micelio";
  ssh_listen = codes "0.0.0.0:2222";
  network_listen = [];
  advertise_addr = [];
  bootstrap = [];
  max_peers = pos 15;
  exchange_interval = pos (30 * second);
  discovery_interval = pos (10 * second);
  log_level = [];
  log_format = [];
}

-- What os.ReadFile finds at a path.
pub data File : Type 0 where
  absent unreadable : File
  content : Bytes → File

pub data LoadError : Type 0 where
  reading parsing : LoadError

-- The file system, toml.Decode onto a configuration (`none` is an error), and the place of the file
-- when none is named.
pub record Source : Type 0 where
  pub file : Bytes → File
  pub decode : Bytes → Config → Option Config
  pub default_path : Bytes

-- toml.Decode, and its error
unfoldable pub decoded : Option Config → Result LoadError Config
decoded none = err parsing
decoded (some c) = ok c

unfoldable pub load_file : Source → Config → File → Result LoadError Config
load_file s c absent = err reading
load_file s c unreadable = err reading
load_file s c (content text) = decoded (s.decode text c)

-- Without a path: os.Stat tells whether the file is there.
unfoldable pub load_default : Source → Config → File → Result LoadError Config
load_default s c absent = ok c
load_default s c unreadable = load_file s c unreadable
load_default s c (content text) = load_file s c (content text)

-- Load
unfoldable pub load : Source → Bytes → Bytes → Result LoadError Config
load s hostname path =
    if path == []
    then load_default s (defaults hostname) (s.file s.default_path)
    else load_file s (defaults hostname) (s.file path)

pub data AddrError : Type 0 where
  empty_addr invalid_format missing_port missing_host wildcard_host : AddrError

pub data ConfigError : Type 0 where
  bad_network_listen bad_ssh_listen bad_advertise_addr : AddrError → ConfigError
  bad_bootstrap : ℕ → AddrError → ConfigError
  bad_max_peers bad_exchange_interval bad_discovery_interval bad_log_level : ConfigError

-- The tests after the split: what is wrong with the two parts, if anything.
unfoldable pub check_listen : Bytes × Bytes → Option AddrError
check_listen (host, port) =
    if port == [] then some missing_port else if host == [] then some missing_host else none

-- ParseIP finds an address, and that is unspecified.
unfoldable pub is_unspecified_host : Bytes → Bool
is_unspecified_host host = elim (parse_ip host) [ none ↦ false | some ip ↦ is_unspecified ip ]

unfoldable pub check_peer : Bytes × Bytes → Option AddrError
check_peer (host, port) =
    if port == []
    then some missing_port
    else if host == []
    then some wildcard_host
    else if is_unspecified_host host
    then some wildcard_host
    else none

unfoldable pub validate_with : (Bytes × Bytes → Option AddrError) → Bytes → Option AddrError
validate_with check raw =
    let addr = trim_space raw in
    if addr == []
    then some empty_addr
    else elim (split_host_port addr) [ none ↦ some invalid_format | some parts ↦ check parts ]

-- validateListenAddr, validatePeerAddr
unfoldable pub validate_listen_addr : Bytes → Option AddrError
validate_listen_addr addr = validate_with check_listen addr

unfoldable pub validate_peer_addr : Bytes → Option AddrError
validate_peer_addr addr = validate_with check_peer addr

-- A field that may be empty.
unfoldable pub optional :
    (Bytes → Option AddrError) → (AddrError → ConfigError) → Bytes → List ConfigError
optional validate wrap addr =
    if addr == [] then [] else elim (validate addr) [ none ↦ [] | some e ↦ wrap e ∷ [] ]

-- The bootstrap addresses from place `i` on.
unfoldable pub validate_bootstrap : ℕ → List Bytes → List ConfigError
validate_bootstrap i [] = []
validate_bootstrap i (addr ∷ addrs) =
    elim (validate_peer_addr addr) [ none ↦ [] | some e ↦ bad_bootstrap i e ∷ [] ]
    ++ validate_bootstrap (i + 1) addrs

-- validateAddresses
unfoldable pub validate_addresses : Config → List ConfigError
validate_addresses c =
    optional validate_listen_addr bad_network_listen c.network_listen
    ++ (optional validate_listen_addr bad_ssh_listen c.ssh_listen
        ++ (validate_bootstrap 0 c.bootstrap
            ++ optional validate_peer_addr bad_advertise_addr c.advertise_addr))

unfoldable pub non_negative : ConfigError → ℤ → List ConfigError
non_negative e n = if ltb_ℤ n (pos 0) then e ∷ [] else []

-- validateNumericFields
unfoldable pub validate_numeric_fields : Config → List ConfigError
validate_numeric_fields c =
    non_negative bad_max_peers c.max_peers
    ++ (non_negative bad_exchange_interval c.exchange_interval
        ++ non_negative bad_discovery_interval c.discovery_interval)

-- What the first character of a text is lowered to if that is ASCII, and its bytes. Two others than
-- ASCII characters are: U+0130 is c4 b0, for i, and U+212A is e2 84 aa, for k.
unfoldable pub lower_first : Bytes → Option (ℕ × ℕ)
lower_first [] = none
lower_first (b ∷ bs) =
    if leb b'A' b && leb b b'Z'
    then some (b + 32, 1)
    else if leb b 127
    then some (b, 1)
    else if take 2 (b ∷ bs) == 196 ∷ 176 ∷ []
    then some (b'i', 2)
    else if take 3 (b ∷ bs) == 226 ∷ 132 ∷ 170 ∷ []
    then some (b'k', 3)
    else none

-- strings.ToLower of a text is the ASCII word.
unfoldable pub lowers_to : Bytes → Bytes → Bool
lowers_to s [] = s == []
lowers_to s (w ∷ word) = elim (lower_first s) [
  | none ↦ false
  | some (c, n) ↦ if c == w then lowers_to (drop n s) word else false
]

abbrev pub log_levels : List Bytes
log_levels = codes "debug" ∷ codes "info" ∷ codes "warn" ∷ codes "warning" ∷ codes "error" ∷ []

abbrev pub any {ℓ} : {A : Type ℓ} → (A → Bool) → List A → Bool
any p [] = false
any p (x ∷ xs) = p x || any p xs

-- validateLogLevel
unfoldable pub validate_log_level : Bytes → Bool
validate_log_level level =
    let trimmed = trim_space level in trimmed == [] || any (lowers_to trimmed) log_levels

-- Validate: all errors, none of which is nil.
unfoldable pub validate : Config → List ConfigError
validate c =
    validate_addresses c
    ++ (validate_numeric_fields c
        ++ (if validate_log_level c.log_level then [] else bad_log_level ∷ []))
