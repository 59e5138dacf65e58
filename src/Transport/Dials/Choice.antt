-- ===== src/Transport/Dials/Choice.antt =====
-- Which peers a tick dials.
use micelio.Base.{
  ℕ, ◌≤◌, ◌≡◌, ◌≢◌, ap, arith, Bool, true, false, none, some, inl, inr, List, [], ◌∷◌, length, keep,
  All, ltb, nat_eq, beq_iff, Bool-cases, length-take,
}
use micelio.Base.Bytes.{Bytes, bytes_eq}
use micelio.Base.Dict.{Dict, lookup, insert, values, lookup-insert, lookup-insert_self}
use micelio.Base.Perms.{All_of_perm, All-take}
use micelio.Transport.State.{Manager, PeerRecord, Services}
use micelio.Transport.Peers.{at_capacity}
use micelio.Transport.Discovery.{max_dials_per_tick}
use micelio.Transport.Dials.{
  in_backoff, is_candidate, is_set, mark_dialing, pick, try_discovery_dials,
}
use mathlib.Core.List.{Permᴰ}

-- rand.Shuffle rearranges.
pub record IsShuffle (sv : Services) : Type 0 where
  pub permutes : (rs : List PeerRecord) → Permᴰ (sv.shuffle rs) rs

-- A peer that may be dialled at `now`.
pub record Dialable (m : Manager) (now : ℕ) (rec : PeerRecord) : Type 0 where
  pub other : rec.node_id ≢ m.id.node_id
  pub reachable : rec.reachable ≡ true
  pub addressed : rec.addr ≢ []
  pub unconnected : lookup rec.node_id m.peers ≡ none
  pub undialled : is_set (lookup rec.node_id m.dialing) ≡ false
  pub no_bootstrap : is_set (lookup rec.addr m.bootstrap_addrs) ≡ false
  pub waited : in_backoff rec now ≡ false

Dialable-of :
    (m : Manager) (now : ℕ) (rec : PeerRecord) → is_candidate m now rec ≡ true → Dialable m now rec
unfolding is_candidate
Dialable-of m now rec h =
    let own = beq_iff rec.node_id m.id.node_id in
    let unaddressed = beq_iff rec.addr [] in
    record {
      other = ground (arith, own);
      reachable = ground arith;
      addressed = ground (arith, unaddressed);
      unconnected = ground arith;
      undialled = ground arith;
      no_bootstrap = ground arith;
      waited = ground arith;
    }

keep-All :
    (m : Manager) (now : ℕ) (rs : List PeerRecord)
    → All (Dialable m now) (keep (is_candidate m now) rs)
keep-All m now [] = tt
keep-All m now (r ∷ rs) = elim (Bool-cases (is_candidate m now r)) [
  | inl good ↦ rw good (Dialable-of m now r good, keep-All m now rs)
  | inr bad ↦ rw bad (keep-All m now rs)
]

module _ (sv : Services) (law : IsShuffle sv) where
  pick_all :
      (m : Manager) (now : ℕ) (rs : List PeerRecord)
      → All (Dialable m now) rs
      → All (Dialable m now) (pick sv rs) × (length (pick sv rs) ≤ max_dials_per_tick)
  unfolding pick
  pick_all m now rs a =
      let mixed = All_of_perm (Dialable m now) (law.permutes rs) a in
      elim (Bool-cases (ltb max_dials_per_tick (length (sv.shuffle rs)))) [
        | inl many ↦ rw many (
          All-take (Dialable m now) max_dials_per_tick (sv.shuffle rs) mixed,
          omega (arith, length-take max_dials_per_tick (sv.shuffle rs)),
        )
        | inr few ↦ rw few (mixed, ground arith)
      ]

  -- If the shuffle rearranges: a tick dials three peers at most, each of them reachable at an
  -- address, neither this node nor connected nor being dialled nor a bootstrap address, and with
  -- its wait over.
  pub dials_safe :
      (m : Manager) (now : ℕ)
      → All (Dialable m now) (try_discovery_dials sv m now).1
        × (length (try_discovery_dials sv m now).1 ≤ max_dials_per_tick)
  unfolding try_discovery_dials
  dials_safe m now = elim (Bool-cases (at_capacity m)) [
    | inl full ↦ rw full (tt, omega arith)
    | inr room ↦ rw room (pick_all m now _ (keep-All m now (values m.known_peers)))
  ]

mark_keeps :
    (d : Dict Bytes Bool) (rs : List PeerRecord) (id : Bytes)
    → lookup id d ≡ some true
    → lookup id (mark_dialing d rs) ≡ some true
unfolding mark_dialing
mark_keeps d [] id h = h
mark_keeps d (r ∷ rs) id h =
    mark_keeps (insert r.node_id true d) rs id (ground (arith, lookup-insert r.node_id id true d))

mark_all :
    (d : Dict Bytes Bool) (rs : List PeerRecord)
    → All (λ r. lookup r.node_id (mark_dialing d rs) ≡ some true) rs
unfolding mark_dialing
mark_all d [] = tt
mark_all d (r ∷ rs) = (
  mark_keeps (insert r.node_id true d) rs r.node_id (lookup-insert_self r.node_id true d),
  mark_all (insert r.node_id true d) rs,
)

marked :
    (sv : Services) (m : Manager) (now : ℕ)
    → All
        (λ r. lookup r.node_id (try_discovery_dials sv m now).0.dialing ≡ some true)
        (try_discovery_dials sv m now).1
unfolding try_discovery_dials
marked sv m now = elim (Bool-cases (at_capacity m)) [
  | inl full ↦ rw full tt
  | inr room ↦ rw room (mark_all m.dialing _)
]

apart :
    (m : Manager) (now : ℕ) (id : Bytes) (rs : List PeerRecord)
    → lookup id m.dialing ≡ some true
    → All (Dialable m now) rs
    → All (λ r. r.node_id ≢ id) rs
apart m now id [] h a = tt
apart m now id (r ∷ rs) h (d, a) = (
  (λ same. ground (arith, d.undialled, ap (λ i. is_set (lookup i m.dialing)) same)),
  apart m now id rs h a,
)

All-each :
    (P Q : PeerRecord → Type 0) (rs : List PeerRecord)
    → ((r : PeerRecord) → P r → Q r)
    → All P rs
    → All Q rs
All-each P Q [] f a = tt
All-each P Q (r ∷ rs) f a = (f r a.0, All-each P Q rs f a.1)

-- If the shuffle rearranges: a tick that follows another before its dials have ended dials none of
-- the same nodes.
pub no_double_dial :
    (sv : Services) (m : Manager) (now later : ℕ)
    → IsShuffle sv
    → All
        (λ r.
          All
            (λ r'. r'.node_id ≢ r.node_id)
            (try_discovery_dials sv (try_discovery_dials sv m now).0 later).1)
        (try_discovery_dials sv m now).1
no_double_dial sv m now later law =
    let m' = (try_discovery_dials sv m now).0 in
    All-each _ _ (try_discovery_dials sv m now).1
      (λ r h. apart m' later r.node_id _ h (dials_safe sv law m' later).0) (marked sv m now)
