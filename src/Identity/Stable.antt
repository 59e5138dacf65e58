-- ===== src/Identity/Stable.antt =====
-- A node keeps its identity.
use micelio.Base.{
  ◌≡◌, ◌≢◌, refl, sym, ap, ◌∙◌, arith, true, none, some, inl, inr, nat_eq, Option-cases, Bool-cases,
  beq_iff, beq_refl,
}
use micelio.Base.Bytes.{Bytes, bytes_eq}
use micelio.Base.Dict.{lookup, insert, lookup-insert}
use micelio.Base.Results.{ok, bind-ok}
use micelio.Stdlib.Crypto.{Crypto}
use micelio.Stdlib.Hex
use micelio.Transport.State.{Identity}
use micelio.Identity.{
  KeyLib, Disk, ParsedKey, ed25519, other_key, from_option, write_file, from_key_pair, of_parsed,
  load_from, save_public, save_keys, generate, load, no_pem, parsing,
}

-- The node id is the hash of the public key, and the public key belongs to the private key.
pub record IsOwn (c : Crypto) (id : Identity) : Type 0 where
  pub named : id.node_id ≡ Hex.encode (c.sum256 id.public_key)
  pub paired : id.public_key ≡ c.public id.private_key

-- The encodings read back what they wrote, and a generated key pair is one.
pub record IsKeyLib (lib : KeyLib) : Type 0 where
  pub pem : (b : Bytes) → lib.pem_decode (lib.pem_encode b) ≡ some b
  pub pkcs8 :
      (priv b : Bytes) → lib.marshal_pkcs8 priv ≡ some b → lib.parse_pkcs8 b ≡ some (ed25519 priv)
  pub generated :
      (random pub_key priv : Bytes)
      → lib.generate_key random ≡ some (pub_key, priv)
      → pub_key ≡ lib.crypto.public priv

module _ (lib : KeyLib) where
  from_key_pair-ok :
      (priv pub_key : Bytes) (id : Identity)
      → from_key_pair lib priv pub_key ≡ ok id
      → (id.node_id ≡ Hex.encode (lib.crypto.sum256 id.public_key))
        × (id.public_key ≡ pub_key)
        × (id.private_key ≡ priv)
  unfolding from_key_pair
  from_key_pair-ok priv pub_key id h = ground arith

  save_keys-ok :
      (d d' : Disk) (priv_path pub_path priv pub_key : Bytes) (id : Identity)
      → pub_path ≢ priv_path
      → save_keys lib d priv_path pub_path priv pub_key ≡ (d', ok id)
      → (pkcs8 : Bytes) × (lib.marshal_pkcs8 priv ≡ some pkcs8)
        × (lookup priv_path d'.files ≡ some (lib.pem_encode pkcs8))
        × (d'.readable ≡ d.readable)
        × (from_key_pair lib priv pub_key ≡ ok id)
  unfolding save_keys save_public write_file
  save_keys-ok d d' priv_path pub_path priv pub_key id ne h =
      elim (Option-cases (lib.marshal_pkcs8 priv)) [
        | inl bad ↦ absurd (ground arith)
        | inr (pkcs8, made) ↦ elim (Bool-cases (d.writable priv_path)) [
          | inr bad ↦ absurd (ground arith)
          | inl first ↦ elim (Option-cases (lib.ssh_line pub_key)) [
            | inl bad ↦ absurd (ground arith)
            | inr (line, converted) ↦ elim (Bool-cases (d.writable pub_path)) [
              | inr bad ↦ absurd (ground arith)
              | inl second ↦
                  let pem = lib.pem_encode pkcs8 in
                  (
                    pkcs8,
                    made,
                    ground (
                      arith,
                      lookup-insert pub_path priv_path line (insert priv_path pem d.files),
                      lookup-insert priv_path priv_path pem d.files,
                      beq_refl priv_path,
                      beq_iff pub_path priv_path,
                    ),
                    ground arith,
                    ground arith,
                  )
            ]
          ]
        ]
      ]

  generate-ok :
      (d d' : Disk) (random key_dir priv_path pub_path : Bytes) (id : Identity)
      → generate lib d random key_dir priv_path pub_path ≡ (d', ok id)
      → (pub_key priv : Bytes) × (lib.generate_key random ≡ some (pub_key, priv))
        × (save_keys lib d priv_path pub_path priv pub_key ≡ (d', ok id))
  unfolding generate
  generate-ok d d' random key_dir priv_path pub_path id h =
      elim (Option-cases (lib.generate_key random)) [
        | inl bad ↦ absurd (ground arith)
        | inr ((pub_key, priv), made) ↦ (pub_key, priv, made, ground arith)
      ]

  load_from-saved :
      (priv pkcs8 : Bytes)
      → IsKeyLib lib
      → lib.marshal_pkcs8 priv ≡ some pkcs8
      → load_from lib (lib.pem_encode pkcs8) ≡ from_key_pair lib priv (lib.crypto.public priv)
  unfolding load_from from_option of_parsed
  load_from-saved priv pkcs8 law made =
      rw (law.pem pkcs8, from_option) (rw (law.pkcs8 priv pkcs8 made, from_option, of_parsed) refl)

  -- If the key encodings read back what they wrote, a generated pair is one, and the two key files
  -- differ: a node that starts without a key file, and makes and saves its keys without an error,
  -- loads the same identity at every later start, on a disk that can still be read, and a start
  -- does not change that disk.
  pub load-again :
      (d d' : Disk) (random random' key_dir priv_path pub_path : Bytes) (id : Identity)
      → IsKeyLib lib
      → pub_path ≢ priv_path
      → lookup priv_path d.files ≡ none
      → d.readable priv_path ≡ true
      → load lib d random key_dir priv_path pub_path ≡ (d', ok id)
      → load lib d' random' key_dir priv_path pub_path ≡ (d', ok id)
  unfolding load
  load-again d d' random random' key_dir priv_path pub_path id law ne fresh readable h =
      let (pub_key, priv, made, saved) =
        generate-ok d d' random key_dir priv_path pub_path id (ground arith) in
      let (pkcs8, encoded, there, same, pair) =
        save_keys-ok d d' priv_path pub_path priv pub_key id ne saved in
      let readable' : d'.readable priv_path ≡ true = ap (λ f. f priv_path) same ∙ readable in
      let again : load_from lib (lib.pem_encode pkcs8) ≡ ok id =
        load_from-saved priv pkcs8 law encoded
        ∙ ap (from_key_pair lib priv) (sym (law.generated random pub_key priv made))
        ∙ pair in
      rw (there, load) (rw (readable', again) refl)

  load_from-IsOwn : (pem : Bytes) (id : Identity) → load_from lib pem ≡ ok id → IsOwn lib.crypto id
  unfolding load_from of_parsed
  load_from-IsOwn pem id h =
      let (block, _, h1) = bind-ok (from_option no_pem (lib.pem_decode pem)) _ h in
      let (key, _, h2) = bind-ok (from_option parsing (lib.parse_pkcs8 block)) _ h1 in own key h2
    where
      own : (key : ParsedKey) → of_parsed lib key ≡ ok id → IsOwn lib.crypto id
      own (ed25519 priv) h =
          let (named, public, private) = from_key_pair-ok priv (lib.crypto.public priv) id h in
          record { named = named; paired = public ∙ ap lib.crypto.public (sym private) }
      own other_key h = cc

  -- If the key encodings read back what they wrote, a generated pair is one, and the two key files
  -- differ: however a node gets its identity, from the files or by making it, its node id is the
  -- hash of its public key, and its public key is that of its private key.
  pub load-IsOwn :
      (d d' : Disk) (random key_dir priv_path pub_path : Bytes) (id : Identity)
      → IsKeyLib lib
      → pub_path ≢ priv_path
      → load lib d random key_dir priv_path pub_path ≡ (d', ok id)
      → IsOwn lib.crypto id
  unfolding load
  load-IsOwn d d' random key_dir priv_path pub_path id law ne h =
      elim (Option-cases (lookup priv_path d.files)) [
        | inr (pem, there) ↦ load_from-IsOwn pem id (ground arith)
        | inl fresh ↦
            let (pub_key, priv, made, saved) =
              generate-ok d d' random key_dir priv_path pub_path id (ground arith) in
            let (_, _, _, _, pair) =
              save_keys-ok d d' priv_path pub_path priv pub_key id ne saved in
            let (named, public, private) = from_key_pair-ok priv pub_key id pair in
            record {
              named = named;
              paired =
                  public
                  ∙ law.generated random pub_key priv made
                  ∙ ap lib.crypto.public (sym private);
            }
      ]
