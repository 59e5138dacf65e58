-- ===== src/Transport/Exchange/Known.antt =====
-- The table of known peers: every record stands under its node id, with a key that hashes to it.
use micelio.Base.{
  ◌≡◌, refl, ap, ◌∙◌, arith, true, inl, inr, List, [], ◌∷◌, length, All, nat_eq, beq_iff,
  Bool-cases, Option-cases,
}
use micelio.Base.Bytes.{Bytes, bytes_eq, IsByte}
use micelio.Base.Dict.{Dict, insert, All-insert, values}
use micelio.Stdlib.Crypto.{public_key_size}
use micelio.Stdlib.Hex
use micelio.Transport.State.{Manager, PeerRecord, Services}
use micelio.Transport.Discovery.{
  valid_key, valid_record, decode_valid, put_records, load_known_peers, save_known_peer, save_all,
}

pub record KnownOk (sv : Services) (entry : Bytes × PeerRecord) : Type 0 where
  pub named : entry.1.node_id ≡ entry.0
  pub keyed : valid_key sv entry.1 ≡ true

abbrev pub AllKnown : Services → Dict Bytes PeerRecord → Type 0
AllKnown sv known = All (KnownOk sv) known

pub save_known :
    (sv : Services) (m : Manager) (rec : PeerRecord)
    → ((save_known_peer sv m rec).known_peers ≡ m.known_peers)
      × ((save_known_peer sv m rec).key_ring ≡ m.key_ring)
unfolding save_known_peer
save_known sv m rec = elim (Option-cases m.store) [
  | inl absent ↦ ground arith
  | inr (bucket, found) ↦ ground arith
]

pub save_all_known :
    (sv : Services) (m : Manager) (recs : List PeerRecord)
    → ((save_all sv m recs).known_peers ≡ m.known_peers)
      × ((save_all sv m recs).key_ring ≡ m.key_ring)
unfolding save_all
save_all_known sv m [] = (refl, refl)
save_all_known sv m (r ∷ rs) =
    let (k, g) = save_all_known sv (save_known_peer sv m r) rs in
    let (k', g') = save_known sv m r in (k ∙ k', g ∙ g')

-- A key that hashes to the node id, stored in hexadecimal, is a valid stored key.
pub valid_key_of :
    (sv : Services) (rec : PeerRecord) (key : Bytes)
    → All IsByte key
    → length key ≡ public_key_size
    → Hex.encode (sv.crypto.sum256 key) ≡ rec.node_id
    → rec.public_key ≡ Hex.encode key
    → valid_key sv rec ≡ true
unfolding valid_key
valid_key_of sv rec key bytes size hash e = ground (
  arith,
  ap Hex.decode e,
  Hex.decode-encode key bytes,
  beq_iff (Hex.encode (sv.crypto.sum256 key)) rec.node_id,
)

put_records-AllKnown :
    (sv : Services) (known : Dict Bytes PeerRecord) (vs : List Bytes)
    → AllKnown sv known
    → AllKnown sv (put_records known (decode_valid sv vs))
unfolding put_records decode_valid
put_records-AllKnown sv known [] a = a
put_records-AllKnown sv known (v ∷ vs) a = elim (Option-cases (sv.unmarshal_record v)) [
  | inl broken ↦ rw (broken, decode_valid) (put_records-AllKnown sv known vs a)
  | inr (rec, found) ↦ elim (Bool-cases (valid_record sv rec)) [
    | inl good ↦
        rw (found, good, decode_valid)
          (put_records-AllKnown sv (insert rec.node_id rec known) vs
            (All-insert (KnownOk sv) rec.node_id rec known (known_of sv rec good) a))
    | inr bad ↦ rw (found, bad, decode_valid) (put_records-AllKnown sv known vs a)
  ]
]
  where
    known_of :
        (sv : Services) (rec : PeerRecord)
        → valid_record sv rec ≡ true
        → KnownOk sv (rec.node_id, rec)
    known_of sv rec good = record { named = refl; keyed = unfold valid_record in ground arith }

-- Whatever the store holds, loading it keeps a sound table sound: a record stands under its node
-- id, and a key that does not match it is left out.
pub load-AllKnown :
    (sv : Services) (m : Manager)
    → AllKnown sv m.known_peers
    → AllKnown sv (load_known_peers sv m).known_peers
unfolding load_known_peers
load-AllKnown sv m a = elim (Option-cases m.store) [
  | inl absent ↦ rw (absent, load_known_peers) a
  | inr (bucket, found) ↦
      rw (found, load_known_peers) (put_records-AllKnown sv m.known_peers (values bucket) a)
]
