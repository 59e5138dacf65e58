-- ===== src/Identity.antt =====
-- internal/identity/identity.go: the key pair of a node, on disk. The two paths and the directory are
-- arguments; the encodings of keys are those of the Go libraries.
pub mod Stable
use micelio.Base.{Bool, true, false, Option, none, some, List, [], ◌∷◌, nat_eq, ◌==◌, if◌then◌else◌}
use micelio.Base.Bytes.{Bytes, bytes_eq}
use micelio.Base.Dict.{Dict, lookup, insert}
use micelio.Base.Results.{Result, ok, err, ◌>>=◌}
use micelio.Stdlib.Crypto.{Crypto}
use micelio.Stdlib.Hex
use micelio.Transport.State.{Identity}

-- What x509.ParsePKCS8PrivateKey gives.
pub data ParsedKey : Type 0 where
  ed25519 : Bytes → ParsedKey
  other_key : ParsedKey

-- `none` is an error. `generate_key` makes the pair from what rand.Reader gives; `ssh_line` is ssh.NewPublicKey with ssh.MarshalAuthorizedKey, and `signer` says
-- whether ssh.NewSignerFromKey takes the key.
pub record KeyLib : Type 0 where
  pub crypto : Crypto
  pub generate_key : Bytes → Option (Bytes × Bytes)
  pub marshal_pkcs8 : Bytes → Option Bytes
  pub parse_pkcs8 : Bytes → Option ParsedKey
  pub pem_encode : Bytes → Bytes
  pub pem_decode : Bytes → Option Bytes
  pub ssh_line : Bytes → Option Bytes
  pub signer : Bytes → Bool

-- The files, and whether a file that is there can be read, a directory made and a file written.
pub record Disk : Type 0 where
  pub files : Dict Bytes Bytes
  pub readable : Bytes → Bool
  pub makes_dir : Bytes → Bool
  pub writable : Bytes → Bool

pub data LoadError : Type 0 where
  reading_key generating making_dir marshaling_key writing_key : LoadError
  converting writing_public no_pem parsing not_ed25519 no_signer : LoadError

unfoldable pub from_option : {A : Type 0} → LoadError → Option A → Result LoadError A
from_option e none = err e
from_option e (some a) = ok a

-- os.MkdirAll, os.WriteFile
unfoldable pub make_dir : Disk → Bytes → Bool
make_dir d path = d.makes_dir path

unfoldable pub write_file : Disk → Bytes → Bytes → Option Disk
write_file d path content =
    if d.writable path then some (record d { files = insert path content d.files }) else none

module _ (lib : KeyLib) where
  -- fromKeyPair
  unfoldable pub from_key_pair : Bytes → Bytes → Result LoadError Identity
  from_key_pair priv pub_key =
      if lib.signer priv
      then ok (record {
        node_id = Hex.encode (lib.crypto.sum256 pub_key);
        public_key = pub_key;
        private_key = priv;
      })
      else err no_signer

  unfoldable pub of_parsed : ParsedKey → Result LoadError Identity
  of_parsed (ed25519 priv) = from_key_pair priv (lib.crypto.public priv)
  of_parsed other_key = err not_ed25519

  -- loadFrom
  unfoldable pub load_from : Bytes → Result LoadError Identity
  load_from priv_pem = do
    block ← from_option no_pem (lib.pem_decode priv_pem)
    raw_key ← from_option parsing (lib.parse_pkcs8 block)
    of_parsed raw_key

  -- Saving the two keys: the disk after it, whatever came of it.
  unfoldable pub save_public : Disk → Bytes → Bytes → Bytes → Disk × Result LoadError Identity
  save_public d pub_path priv pub_key = elim (lib.ssh_line pub_key) [
    | none ↦ (d, err converting)
    | some line ↦ elim (write_file d pub_path line) [
      | none ↦ (d, err writing_public)
      | some d' ↦ (d', from_key_pair priv pub_key)
    ]
  ]

  unfoldable pub save_keys : Disk → Bytes → Bytes → Bytes → Bytes → Disk × Result LoadError Identity
  save_keys d priv_path pub_path priv pub_key = elim (lib.marshal_pkcs8 priv) [
    | none ↦ (d, err marshaling_key)
    | some pkcs8 ↦ elim (write_file d priv_path (lib.pem_encode pkcs8)) [
      | none ↦ (d, err writing_key)
      | some d' ↦ save_public d' pub_path priv pub_key
    ]
  ]

  -- generate; `random` is what rand.Reader gives at this start.
  unfoldable pub generate : Disk → Bytes → Bytes → Bytes → Bytes → Disk × Result LoadError Identity
  generate d random key_dir priv_path pub_path = elim (lib.generate_key random) [
    | none ↦ (d, err generating)
    | some (pub_key, priv) ↦
        if make_dir d key_dir
        then save_keys d priv_path pub_path priv pub_key
        else (d, err making_dir)
  ]

  -- Load
  unfoldable pub load : Disk → Bytes → Bytes → Bytes → Bytes → Disk × Result LoadError Identity
  load d random key_dir priv_path pub_path = elim (lookup priv_path d.files) [
    | none ↦ generate d random key_dir priv_path pub_path
    | some priv_pem ↦ if d.readable priv_path then (d, load_from priv_pem) else (d, err reading_key)
  ]
