-- ===== src/Transport/Exchange/Updates.antt =====
-- What the loop of mergeDiscoveredPeers under the lock does to one record.
use micelio.Base.{
  ◌≡◌, ◌≤◌, refl, ap, arith, Option, none, some, inl, inr, List, [], ◌∷◌, ltb, ◌==◌, nat_eq,
  beq_iff, if◌then◌else◌, Bool-cases,
}
use micelio.Base.Bytes.{Bytes, bytes_eq}
use micelio.Base.Dict.{Dict, lookup, lookup-insert}
use micelio.Transport.State.{PeerRecord}
use micelio.Transport.Exchange.{ValidEntry, newer_record, update, put_update, apply_entries}

-- What `old` becomes: a record stays, its failures are kept and it is not made older.
abbrev pub Keeps : Option PeerRecord → Option PeerRecord → Type 0
Keeps none new = Unit
Keeps (some r) none = ⊥
Keeps (some r) (some r') =
    (r.last_seen ≤ r'.last_seen) × (r'.fail_count ≡ r.fail_count) × (r'.last_fail ≡ r.last_fail)

Keeps-refl : (o : Option PeerRecord) → Keeps o o
Keeps-refl none = tt
Keeps-refl (some r) = (omega arith, refl, refl)

Keeps-trans : (a b d : Option PeerRecord) → Keeps a b → Keeps b d → Keeps a d
Keeps-trans none b d p q = tt
Keeps-trans (some x) none d p q = elim p [ ]
Keeps-trans (some x) (some y) none p q = q
Keeps-trans (some x) (some y) (some z) p q = ground arith

abbrev pub or_else : Option PeerRecord → Option PeerRecord → Option PeerRecord
or_else none old = old
or_else (some r) old = some r

pub lookup-put_update :
    (u : Option PeerRecord) (v : ValidEntry) (known : Dict Bytes PeerRecord) (id : Bytes)
    → lookup id (put_update u v known)
      ≡ (if v.info.node_id == id then or_else u (lookup id known) else lookup id known)
lookup-put_update none v known id = ground arith
lookup-put_update (some r) v known id = lookup-insert v.info.node_id id r known

step-Keeps : (old : Option PeerRecord) (v : ValidEntry) → Keeps old (or_else (update old v) old)
unfolding update newer_record
step-Keeps none v = tt
step-Keeps (some r) v = elim (Bool-cases (ltb r.last_seen v.last_seen)) [
  | inl newer ↦ rw (newer, update) (ground arith, refl, refl)
  | inr older ↦ rw (older, update) (omega arith, refl, refl)
]

step_at :
    (old seen : Option PeerRecord) (v : ValidEntry)
    → seen ≡ old
    → Keeps old (or_else (update seen v) old)
step_at old seen v e = rw e (step-Keeps old v)

update-Keeps :
    (known : Dict Bytes PeerRecord) (v : ValidEntry) (id : Bytes)
    → Keeps
        (lookup id known)
        (lookup id (put_update (update (lookup v.info.node_id known) v) v known))
update-Keeps known v id = elim (Bool-cases (v.info.node_id == id)) [
  | inr other ↦
      rw (lookup-put_update (update (lookup v.info.node_id known) v) v known id, other)
        (Keeps-refl (lookup id known))
  | inl this ↦
      rw (lookup-put_update (update (lookup v.info.node_id known) v) v known id, this)
        (step_at (lookup id known) (lookup v.info.node_id known) v
          (ap (λ k. lookup k known) ((beq_iff v.info.node_id id).0 this)))
]

pub apply_entries-Keeps :
    (known : Dict Bytes PeerRecord) (vs : List ValidEntry) (id : Bytes)
    → Keeps (lookup id known) (lookup id (apply_entries known vs).0)
unfolding apply_entries
apply_entries-Keeps known [] id = Keeps-refl (lookup id known)
apply_entries-Keeps known (v ∷ vs) id =
    let known' = put_update (update (lookup v.info.node_id known) v) v known in
    Keeps-trans (lookup id known) (lookup id known') _ (update-Keeps known v id)
      (apply_entries-Keeps known' vs id)
