-- ===== src/Base/Eq.antt =====
-- Go's `==` on the types that serve as map keys, as an interface.
use Prim.Native.Nat.{ℕ, compare, Ordering}
use mathlib.Core.Path.{◌≡◌, refl}
use mathlib.Core.Logic.{◌↔◌, ◌≢◌, inl, inr}
use mathlib.Core.Bool.{Bool, true, false}
use native.Mathlib.Omega.{arith}
use micelio.Base.Tests.{Bool-cases}

pub record Equality {ℓ} (A : Type ℓ) : Type ℓ where
  pub beq : A → A → Bool
  pub iff : (a b : A) → (beq a b ≡ true) ↔ (a ≡ b)

infix 50 ◌==◌
abbrev pub ◌==◌ {ℓ} : {A : Type ℓ} ⦃e : Equality A⦄ → A → A → Bool
◌==◌ ⦃e⦄ = e.beq

abbrev pub nat_beq : ℕ → ℕ → Bool
nat_beq a b = elim (compare a b) [ Ordering.eq ↦ true | _ ↦ false ]

pub nat_beq_iff : (a b : ℕ) → (nat_beq a b ≡ true) ↔ (a ≡ b)
nat_beq_iff a b = ground arith

instance abbrev pub nat_eq : Equality ℕ
nat_eq = record { beq = nat_beq; iff = nat_beq_iff }

module _ {ℓ} {A : Type ℓ} ⦃e : Equality A⦄ where
  pub beq_iff : (a b : A) → ((a == b) ≡ true) ↔ (a ≡ b)
  beq_iff a b = e.iff a b

  pub beq_refl : (a : A) → (a == a) ≡ true
  beq_refl a = (e.iff a a).1 refl

  pub beq_false : (a b : A) → a ≢ b → (a == b) ≡ false
  beq_false a b h = elim (Bool-cases (a == b)) [ inl p ↦ absurd (h ((e.iff a b).0 p)) | inr p ↦ p ]
