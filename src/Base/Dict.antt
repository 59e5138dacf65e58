-- ===== src/Base/Dict.antt =====
-- Go's `map[K]V` as an association list without repeated keys. The order of its entries is the
-- order in which a `range` loop meets them.
use micelio.Base.Tests.{if◌then◌else◌, is_some, Bool-cases}
use micelio.Base.Lists.{length, All}
use micelio.Base.Eq.{Equality, ◌==◌, beq_iff, beq_refl}
use mathlib.Core.Path.{◌≡◌, refl, subst}
use mathlib.Core.Logic.{inl, inr}
use mathlib.Core.Bool.{Bool}
use mathlib.Core.Option.{Option, none, some}
use mathlib.Core.List.{List, [], ◌∷◌}
use Prim.Native.Nat.{◌+◌, ◌≤◌}
use native.Mathlib.Omega.{arith}

abbrev pub Dict {ℓ κ} : Type ℓ → Type κ → Type (ℓ ⊔ κ)
Dict K V = List (K × V)

abbrev pub values {ℓ κ} : {K : Type ℓ} {V : Type κ} → Dict K V → List V
values [] = []
values ((k, v) ∷ m) = v ∷ values m

-- The value, if it passes the test.
abbrev pub kept {ℓ} : {V : Type ℓ} → (V → Bool) → Option V → Option V
kept test none = none
kept test (some v) = if test v then some v else none

module _ {ℓ κ} {K : Type ℓ} {V : Type κ} ⦃e : Equality K⦄ where
  -- v, ok := m[k]
  unfoldable pub lookup : K → Dict K V → Option V
  lookup k [] = none
  lookup k ((other, x) ∷ rest) = if other == k then some x else lookup k rest

  -- m[k] = v
  unfoldable pub insert : K → V → Dict K V → Dict K V
  insert k v [] = (k, v) ∷ []
  insert k v ((other, x) ∷ rest) =
      if other == k then (k, v) ∷ rest else (other, x) ∷ insert k v rest

  -- delete(m, k)
  unfoldable pub remove : K → Dict K V → Dict K V
  remove k [] = []
  remove k ((j, v) ∷ m) = if j == k then remove k m else (j, v) ∷ remove k m

  abbrev pub has_key : K → Dict K V → Bool
  has_key k m = is_some (lookup k m)

  pub lookup-insert :
      (written read : K) (v : V) (m : Dict K V)
      → lookup read (insert written v m) ≡ (if written == read then some v else lookup read m)
  unfolding lookup insert
  lookup-insert k j v [] = refl
  lookup-insert k j v ((i, w) ∷ m) =
      ground (arith, beq_iff k j, beq_iff i k, beq_iff i j, lookup-insert k j v m)

  pub lookup-remove :
      (k j : K) (m : Dict K V) → lookup j (remove k m) ≡ (if k == j then none else lookup j m)
  unfolding lookup remove
  lookup-remove k j [] = ground arith
  lookup-remove k j ((i, w) ∷ m) =
      ground (arith, beq_iff k j, beq_iff i k, beq_iff i j, lookup-remove k j m)

  pub lookup-insert_self : (k : K) (v : V) (m : Dict K V) → lookup k (insert k v m) ≡ some v
  lookup-insert_self k v m = ground (arith, lookup-insert k k v m, beq_refl k)

  pub length-insert_new :
      (k : K) (v : V) (m : Dict K V) → lookup k m ≡ none → length (insert k v m) ≡ length m + 1
  unfolding lookup insert
  length-insert_new k v [] h = omega arith
  length-insert_new k v ((j, w) ∷ m) h = ground (arith, length-insert_new k v m)

  pub length-insert_old :
      (k : K) (v w : V) (m : Dict K V) → lookup k m ≡ some w → length (insert k v m) ≡ length m
  unfolding lookup insert
  length-insert_old k v w [] h = cc
  length-insert_old k v w ((j, u) ∷ m) h = ground (arith, length-insert_old k v w m)

  pub length-remove : (k : K) (m : Dict K V) → length (remove k m) ≤ length m
  unfolding remove
  length-remove k [] = omega arith
  length-remove k ((j, v) ∷ m) = ground (arith, length-remove k m)

module _ {ℓ κ} {K : Type ℓ} {V : Type κ} ⦃e : Equality K⦄ where
  abbrev pub UniqueKeys : Dict K V → Type κ
  UniqueKeys [] = Unit {κ}
  UniqueKeys ((k, v) ∷ m) = (lookup k m ≡ none) × UniqueKeys m

  -- `for k, v := range m { if !test(k, v) { delete(m, k) } }`
  unfoldable pub keep_entries : (K → V → Bool) → Dict K V → Dict K V
  keep_entries test [] = []
  keep_entries test ((k, v) ∷ m) =
      if test k v then (k, v) ∷ keep_entries test m else keep_entries test m

  pub UniqueKeys-insert : (k : K) (v : V) (m : Dict K V) → UniqueKeys m → UniqueKeys (insert k v m)
  unfolding insert lookup
  UniqueKeys-insert k v [] u = (refl, tt)
  UniqueKeys-insert k v ((j, w) ∷ m) u =
      ground (arith, beq_iff j k, beq_iff k j, lookup-insert k j v m, UniqueKeys-insert k v m)

  keep_none :
      (test : K → V → Bool) (k : K) (m : Dict K V)
      → lookup k m ≡ none
      → lookup k (keep_entries test m) ≡ none
  unfolding lookup keep_entries
  keep_none test k [] h = refl
  keep_none test k ((j, w) ∷ m) h = ground (arith, keep_none test k m)

  pub UniqueKeys-keep_entries :
      (test : K → V → Bool) (m : Dict K V) → UniqueKeys m → UniqueKeys (keep_entries test m)
  unfolding keep_entries
  UniqueKeys-keep_entries test [] u = u
  UniqueKeys-keep_entries test ((k, v) ∷ m) u =
      ground (arith, keep_none test k m, UniqueKeys-keep_entries test m)

  pub lookup-keep_entries :
      (test : K → V → Bool) (k : K) (m : Dict K V)
      → UniqueKeys m
      → lookup k (keep_entries test m) ≡ kept (test k) (lookup k m)
  unfolding lookup keep_entries
  lookup-keep_entries test k [] u = refl
  lookup-keep_entries test k ((j, w) ∷ m) u =
      ground (arith, beq_iff j k, lookup-keep_entries test k m, keep_none test k m)

module _ {ℓ κ} {K : Type ℓ} {V : Type κ} ⦃e : Equality K⦄ where
  pub All-insert {μ} :
      (P : K × V → Type μ) (k : K) (v : V) (m : Dict K V)
      → P (k, v)
      → All P m
      → All P (insert k v m)
  unfolding insert
  All-insert P k v [] p h = (p, tt)
  All-insert P k v ((j, w) ∷ m) p h = elim (Bool-cases (j == k)) [
    | inl same ↦ rw same (p, h.1)
    | inr other ↦ rw other (h.0, All-insert P k v m p h.1)
  ]

  pub All-remove {μ} : (P : K × V → Type μ) (k : K) (m : Dict K V) → All P m → All P (remove k m)
  unfolding remove
  All-remove P k [] h = h
  All-remove P k ((j, w) ∷ m) h = elim (Bool-cases (j == k)) [
    | inl same ↦ rw same (All-remove P k m h.1)
    | inr other ↦ rw other (h.0, All-remove P k m h.1)
  ]

  pub All-lookup {μ} :
      (P : K × V → Type μ) (k : K) (v : V) (m : Dict K V) → All P m → lookup k m ≡ some v → P (k, v)
  unfolding lookup
  All-lookup P k v [] h found = cc
  All-lookup P k v ((j, w) ∷ m) h found = elim (Bool-cases (j == k)) [
    | inl same ↦ let e : (j, w) ≡ (k, v) = ground (arith, beq_iff j k) in subst P e h.0
    | inr other ↦ All-lookup P k v m h.1 (ground arith)
  ]

  pub UniqueKeys-remove : (k : K) (m : Dict K V) → UniqueKeys m → UniqueKeys (remove k m)
  unfolding remove
  UniqueKeys-remove k [] u = u
  UniqueKeys-remove k ((j, w) ∷ m) u =
      ground (arith, UniqueKeys-remove k m, lookup-remove k j m, beq_iff k j)

pub ruleset dict_laws = (lookup-insert, lookup-remove)
