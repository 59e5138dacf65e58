-- ===== src/Tests.antt =====
-- Concrete data for runs of the model.
pub mod Gossip
pub mod Tables
pub mod Transport
pub mod Exchange
pub mod Greeting
pub mod Partyline
pub mod Commands
pub mod Concurrent
pub mod Noise
pub mod Chat
pub mod Connections
pub mod Identity
pub mod Ssh
pub mod Config
use micelio.Base.{ℕ, zero, suc, Bool, true, ◌==◌, Option, some, List, [], ◌∷◌, take, ◌++◌}
use micelio.Base.Bytes.{Bytes, bytes_eq, codes}
use micelio.Stdlib.Crypto.{Crypto}

abbrev pub zeros : ℕ → Bytes
zeros zero = []
zeros (suc n) = 0 ∷ zeros n

-- A toy hash and a toy signature: the first byte.
abbrev pub toy_crypto : Crypto
toy_crypto = record {
  sum256 = λ bytes. take 1 bytes;
  sign = λ private_key msg. take 1 private_key ++ zeros 63;
  verify = λ public_key msg signature. take 1 signature == take 1 public_key;
  public = λ private_key. take 32 private_key;
}

abbrev pub key_a : Bytes
key_a = 7 ∷ zeros 31

abbrev pub private_a : Bytes
private_a = 7 ∷ zeros 63

-- The node id of `key_a` under the toy hash.
abbrev pub id_a : Bytes
id_a = codes "07"
