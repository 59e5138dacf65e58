-- ===== src/Base/Bytes.antt =====
-- Go strings and byte slices: sequences of bytes, compared byte by byte.
use Prim.Native.Char.{code}
use Prim.Native.String.{String}
use micelio.Base.Eq.{Equality, nat_beq, nat_beq_iff}
use mathlib.Core.Path.{◌≡◌, refl}
use mathlib.Core.Logic.{◌↔◌}
use mathlib.Core.Bool.{Bool, true, false, ◌&&◌}
use mathlib.Core.List.{List, [], ◌∷◌}
use Prim.Native.Nat.{ℕ, ◌<◌}
use native.Mathlib.Omega.{arith}

abbrev pub Bytes : Type 0
Bytes = List ℕ

abbrev pub IsByte : ℕ → Type 0
IsByte b = b < 256

-- A literal: its code points, which are its bytes where the text is ASCII.
abbrev pub codes : String → Bytes
codes String.[] = []
codes (String.◌∷◌ c s) = code c ∷ codes s

unfoldable pub bytes_beq : Bytes → Bytes → Bool
bytes_beq [] [] = true
bytes_beq [] (y ∷ ys) = false
bytes_beq (x ∷ xs) [] = false
bytes_beq (x ∷ xs) (y ∷ ys) = nat_beq x y && bytes_beq xs ys

bytes_beq-eq : (a b : Bytes) → bytes_beq a b ≡ true → a ≡ b
unfolding bytes_beq
bytes_beq-eq [] [] h = refl
bytes_beq-eq [] (y ∷ ys) h = cc
bytes_beq-eq (x ∷ xs) [] h = cc
bytes_beq-eq (x ∷ xs) (y ∷ ys) h = ground (arith, nat_beq_iff x y, bytes_beq-eq xs ys)

bytes_beq_self : (a : Bytes) → bytes_beq a a ≡ true
unfolding bytes_beq
bytes_beq_self [] = refl
bytes_beq_self (x ∷ xs) = ground (arith, nat_beq_iff x x, bytes_beq_self xs)

pub bytes_beq_iff : (a b : Bytes) → (bytes_beq a b ≡ true) ↔ (a ≡ b)
bytes_beq_iff a b = (bytes_beq-eq a b, λ e. rw e (bytes_beq_self b))

instance abbrev pub bytes_eq : Equality Bytes
bytes_eq = record { beq = bytes_beq; iff = bytes_beq_iff }
