-- ===== src/Transport/Exchange/Merge.antt =====
-- What a peer exchange can do to the keys and the records.
use micelio.Base.{
  ◌≡◌, ◌≢◌, refl, sym, ap, ◌∙◌, arith, true, inl, inr, List, [], ◌∷◌, length, All, ltb, nat_eq,
  beq_iff, Bool-cases, Option-cases,
}
use micelio.Base.Bytes.{Bytes, bytes_eq, IsByte}
use micelio.Base.Dict.{Dict, lookup, All-insert, All-lookup}
use micelio.Stdlib.Crypto.{public_key_size}
use micelio.Stdlib.Hex
use micelio.Proto.{PeerInfo}
use micelio.Gossip.KeyRing
use micelio.Gossip.KeyRing.{KeyRing, gossip_learned}
use micelio.Gossip.Engine.Binding.{IsBound, add-IsBound}
use micelio.Transport.State.{Manager, PeerRecord, Services}
use micelio.Transport.Exchange.{
  ValidEntry, new_record, newer_record, update, put_update, apply_entries, passes, valid_entry,
  validate, merge_discovered_peers,
}
use micelio.Transport.Exchange.Known.{KnownOk, AllKnown, valid_key_of, save_all_known}
use micelio.Transport.Exchange.Updates.{Keeps, lookup-put_update, apply_entries-Keeps}

pub passes_ok :
    (sv : Services) (own_id : Bytes) (info : PeerInfo)
    → passes sv own_id info ≡ true
    → (info.node_id ≢ own_id)
      × (length info.ed25519_pubkey ≡ public_key_size)
      × (Hex.encode (sv.crypto.sum256 info.ed25519_pubkey) ≡ info.node_id)
unfolding passes
passes_ok sv own_id info p = ground (
  arith,
  beq_iff info.node_id own_id,
  beq_iff info.node_id (Hex.encode (sv.crypto.sum256 info.ed25519_pubkey)),
)

-- An entry made from a peer record that passed the tests.
pub record Passed (sv : Services) (own_id : Bytes) (v : ValidEntry) : Type 0 where
  pub passed : passes sv own_id v.info ≡ true
  pub made : v ≡ valid_entry sv v.info
  pub bytes : All IsByte v.info.ed25519_pubkey

abbrev pub KeysAreBytes : List PeerInfo → Type 0
KeysAreBytes infos = All (λ info. All IsByte info.ed25519_pubkey) infos

validate-Passed :
    (sv : Services) (own_id : Bytes) (ring : KeyRing) (infos : List PeerInfo)
    → KeysAreBytes infos
    → All (Passed sv own_id) (validate sv own_id ring infos).1
unfolding validate
validate-Passed sv own_id ring [] b = tt
validate-Passed sv own_id ring (info ∷ infos) (b, bs) = elim (Bool-cases (passes sv own_id info)) [
  | inr bad ↦ rw (bad, validate) (validate-Passed sv own_id ring infos bs)
  | inl good ↦
      rw (good, validate)
        (
          record {
            passed = unfold valid_entry in good;
            made = unfold valid_entry in refl;
            bytes = unfold valid_entry in b;
          },
          validate-Passed sv own_id
              (KeyRing.add ring info.node_id info.ed25519_pubkey gossip_learned) infos bs,
        )
]

validate-IsBound :
    (sv : Services) (own_id : Bytes) (ring : KeyRing) (infos : List PeerInfo)
    → IsBound sv.crypto ring
    → IsBound sv.crypto (validate sv own_id ring infos).0
unfolding validate
validate-IsBound sv own_id ring [] b = b
validate-IsBound sv own_id ring (info ∷ infos) b = elim (Bool-cases (passes sv own_id info)) [
  | inr bad ↦ rw (bad, validate) (validate-IsBound sv own_id ring infos b)
  | inl good ↦
      rw (good, validate)
        (validate-IsBound sv own_id
          (KeyRing.add ring info.node_id info.ed25519_pubkey gossip_learned) infos
          (add-IsBound sv.crypto ring info.node_id info.ed25519_pubkey gossip_learned b
            (passes_ok sv own_id info good).2))
]

new-KnownOk :
    (sv : Services) (own_id : Bytes) (v : ValidEntry) (old : PeerRecord)
    → Passed sv own_id v
    → old.node_id ≡ v.info.node_id
    → KnownOk sv (v.info.node_id, new_record v) × KnownOk sv (v.info.node_id, newer_record v old)
unfolding new_record newer_record valid_entry
new-KnownOk sv own_id v old p named =
    let (_, size, hash) = passes_ok sv own_id v.info p.passed in
    let hex = ap (λ v'. v'.pub_key_hex) p.made in
    (
      record {
        named = refl;
        keyed = valid_key_of sv (new_record v) v.info.ed25519_pubkey p.bytes size hash hex;
      },
      record {
        named = named;
        keyed =
            valid_key_of sv (newer_record v old) v.info.ed25519_pubkey p.bytes size
              (hash ∙ sym named) hex;
      },
    )

update-AllKnown :
    (sv : Services) (own_id : Bytes) (known : Dict Bytes PeerRecord) (v : ValidEntry)
    → Passed sv own_id v
    → AllKnown sv known
    → AllKnown sv (put_update (update (lookup v.info.node_id known) v) v known)
unfolding update
update-AllKnown sv own_id known v p a = elim (Option-cases (lookup v.info.node_id known)) [
  | inl new ↦ rw new (
      All-insert (KnownOk sv) v.info.node_id (new_record v) known
        (new-KnownOk sv own_id v (new_record v) p (unfold new_record in refl)).0 a)
  | inr (r, found) ↦ rw found (elim (Bool-cases (ltb r.last_seen v.last_seen)) [
    | inr older ↦ rw older a
    | inl newer ↦ rw newer (
        All-insert (KnownOk sv) v.info.node_id (newer_record v r) known
          (new-KnownOk sv own_id v r p
            (All-lookup (KnownOk sv) v.info.node_id r known a found).named).1
          a)
  ])
]

apply_entries-AllKnown :
    (sv : Services) (own_id : Bytes) (known : Dict Bytes PeerRecord) (vs : List ValidEntry)
    → All (Passed sv own_id) vs
    → AllKnown sv known
    → AllKnown sv (apply_entries known vs).0
unfolding apply_entries
apply_entries-AllKnown sv own_id known [] ps a = a
apply_entries-AllKnown sv own_id known (v ∷ vs) (p, ps) a =
    apply_entries-AllKnown sv own_id (put_update (update (lookup v.info.node_id known) v) v known)
      vs ps (update-AllKnown sv own_id known v p a)

apply_entries_own :
    (sv : Services) (own_id : Bytes) (known : Dict Bytes PeerRecord) (vs : List ValidEntry)
    → All (Passed sv own_id) vs
    → lookup own_id (apply_entries known vs).0 ≡ lookup own_id known
unfolding apply_entries
apply_entries_own sv own_id known [] ps = refl
apply_entries_own sv own_id known (v ∷ vs) (p, ps) =
    apply_entries_own sv own_id (put_update (update (lookup v.info.node_id known) v) v known) vs ps
    ∙ ground (
      arith,
      lookup-put_update (update (lookup v.info.node_id known) v) v known own_id,
      beq_iff v.info.node_id own_id,
      passes_ok sv own_id v.info p.passed,
    )

module _ (sv : Services) (m : Manager) (infos : List PeerInfo) where
  -- The records, the known peers and the ring before they are saved.
  merged_known :
      ((merge_discovered_peers sv m infos).known_peers
        ≡ (apply_entries m.known_peers (validate sv m.id.node_id m.key_ring infos).1).0)
      × ((merge_discovered_peers sv m infos).key_ring
          ≡ (validate sv m.id.node_id m.key_ring infos).0)
  unfolding merge_discovered_peers
  merged_known =
      save_all_known sv _
        (apply_entries m.known_peers (validate sv m.id.node_id m.key_ring infos).1).1

  -- Whatever records a peer sends, the keys of the ring stay bound to their node ids.
  pub merge-IsBound :
      IsBound sv.crypto m.key_ring → IsBound sv.crypto (merge_discovered_peers sv m infos).key_ring
  merge-IsBound b = rw (merged_known.1) (validate-IsBound sv m.id.node_id m.key_ring infos b)

  -- Whatever records a peer sends (with keys made of bytes), the table of known peers stays sound.
  pub merge-AllKnown :
      KeysAreBytes infos
      → AllKnown sv m.known_peers
      → AllKnown sv (merge_discovered_peers sv m infos).known_peers
  merge-AllKnown b a = rw (merged_known.0) (
      apply_entries-AllKnown sv m.id.node_id m.known_peers _
        (validate-Passed sv m.id.node_id m.key_ring infos b) a)

  -- Whatever records a peer sends (with keys made of bytes), no known peer is lost, its failures are
  -- kept, it is not seen earlier than before, and the record of the node itself does not change.
  pub merge-Keeps :
      KeysAreBytes infos
      → ((id : Bytes)
          → Keeps
              (lookup id m.known_peers)
              (lookup id (merge_discovered_peers sv m infos).known_peers))
        × (lookup m.id.node_id (merge_discovered_peers sv m infos).known_peers
            ≡ lookup m.id.node_id m.known_peers)
  merge-Keeps b = (
    λ id.
        rw (merged_known.0)
          (apply_entries-Keeps m.known_peers (validate sv m.id.node_id m.key_ring infos).1 id),
    rw (merged_known.0) (
        apply_entries_own sv m.id.node_id m.known_peers _
          (validate-Passed sv m.id.node_id m.key_ring infos b)),
  )
