-- ===== src/Base/Perms.antt =====
-- Rearrangements of lists: what a shuffle keeps.
use Prim.Native.Nat.{ℕ, suc}
use mathlib.Core.Path.{◌≡◌, refl, sym, ◌∙◌, subst}
use mathlib.Core.List.{List, [], ◌∷◌, Permᴰ, map}
use mathlib.Core.List.Permᴰ.{nil, cons, swap, trans}
use native.Mathlib.Omega.{arith}
use micelio.Base.Lists.{length, All, take}

module _ {ℓ} {A : Type ℓ} where
  pub length_of_perm : {xs ys : List A} → Permᴰ xs ys → length xs ≡ length ys
  length_of_perm nil = refl
  length_of_perm (cons e p) = omega (arith, length_of_perm p)
  length_of_perm (swap e f) = refl
  length_of_perm (trans p q) = length_of_perm p ∙ length_of_perm q

  pub All_of_perm {κ} : {xs ys : List A} (P : A → Type κ) → Permᴰ xs ys → All P ys → All P xs
  All_of_perm P nil h = h
  All_of_perm P (cons e p) h = (subst P (sym e) h.0, All_of_perm P p h.1)
  All_of_perm P (swap e f) h = (subst P (sym e) h.1.0, (subst P (sym f) h.0, h.1.1))
  All_of_perm P (trans p q) h = All_of_perm P p (All_of_perm P q h)

  pub All-take {κ} : (P : A → Type κ) (n : ℕ) (xs : List A) → All P xs → All P (take n xs)
  All-take P (suc n) (x ∷ xs) h = (h.0, All-take P n xs h.1)
  All-take P (suc n) [] h = h
  All-take P _ xs h = tt

  pub All-map {κ μ} :
      {B : Type μ} (P : A → Type κ) (Q : B → Type κ) (f : A → B) (xs : List A)
      → ((x : A) → P x → Q (f x))
      → All P xs
      → All Q (map f xs)
  All-map P Q f [] g h = h
  All-map P Q f (x ∷ xs) g h = (g x h.0, All-map P Q f xs g h.1)

  pub same_order : (xs : List A) → Permᴰ xs xs
  same_order [] = nil
  same_order (x ∷ xs) = cons refl (same_order xs)
