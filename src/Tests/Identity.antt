-- ===== src/Tests/Identity.antt =====
-- Runs of Load (internal/identity), with toy encodings.
use micelio.Base.{◌≡◌, ◌≢◌, refl, arith, true, Option, none, some, [], ◌∷◌, ◌++◌, take, nat_eq}
use micelio.Base.Bytes.{Bytes, bytes_eq, bytes_beq, codes}
use micelio.Base.Dict.{lookup, insert}
use micelio.Base.Results.{ok}
use micelio.Stdlib.Hex
use micelio.Transport.State
use micelio.Identity.{
  KeyLib, Disk, ed25519, load, generate, save_keys, save_public, make_dir, write_file,
  from_key_pair,
}
use micelio.Identity.Stable.{IsOwn, IsKeyLib, load-again, load-IsOwn}
use micelio.Tests.{toy_crypto, key_a, private_a, id_a, zeros}

-- A private key from random bytes.
abbrev stretch : Bytes → Bytes
stretch random = take 64 (random ++ zeros 64)

abbrev lib : KeyLib
lib = record {
  crypto = toy_crypto;
  generate_key = λ random. some (take 32 (stretch random), stretch random);
  marshal_pkcs8 = λ priv. some priv;
  parse_pkcs8 = λ block. some (ed25519 block);
  pem_encode = λ block. 45 ∷ block;
  pem_decode = pem_decode;
  ssh_line = λ key. some key;
  signer = λ priv. true;
}
  where
    pem_decode : Bytes → Option Bytes
    pem_decode [] = none
    pem_decode (dash ∷ block) = some block

lib-IsKeyLib : IsKeyLib lib
lib-IsKeyLib = record {
  pem = λ b. refl;
  pkcs8 = λ priv b made. ground arith;
  generated = λ random pub_key priv made. ground arith;
}

abbrev empty_disk : Disk
empty_disk = record {
  files = [];
  readable = λ path. true;
  makes_dir = λ path. true;
  writable = λ path. true;
}

abbrev saved_disk : Disk
saved_disk = record empty_disk { files = (codes "k", 45 ∷ private_a) ∷ (codes "p", key_a) ∷ [] }

abbrev ada : State.Identity
ada = record { node_id = id_a; public_key = key_a; private_key = private_a }

first_load : load lib empty_disk (7 ∷ []) (codes "d") (codes "k") (codes "p") ≡ (saved_disk, ok ada)
unfolding load generate save_keys save_public make_dir write_file from_key_pair Hex.encode lookup
    insert bytes_beq
first_load = refl

other_path : codes "p" ≢ codes "k"
other_path = ground arith

load-again_example :
    load lib saved_disk (8 ∷ []) (codes "d") (codes "k") (codes "p") ≡ (saved_disk, ok ada)
load-again_example =
    load-again lib empty_disk saved_disk (7 ∷ []) (8 ∷ []) (codes "d") (codes "k") (codes "p") ada
      lib-IsKeyLib other_path (unfold lookup in refl) refl first_load

load-IsOwn_example : IsOwn toy_crypto ada
load-IsOwn_example =
    load-IsOwn lib empty_disk saved_disk (7 ∷ []) (codes "d") (codes "k") (codes "p") ada
      lib-IsKeyLib other_path first_load
