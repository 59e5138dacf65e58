-- ===== src/Stdlib/Trim.antt =====
-- strings.TrimSpace on the bytes of a text in UTF-8, and strings.HasPrefix.
use micelio.Base.{ℕ, zero, suc, Bool, true, false, ◌&&◌, [], ◌∷◌, ◌==◌, nat_eq, if◌then◌else◌}
use micelio.Base.Bytes.{Bytes}
use micelio.Stdlib.Fields.{space_length}

-- `skip` bytes of a space are left.
unfoldable pub trim_left : ℕ → Bytes → Bytes
trim_left skip [] = []
trim_left (suc skip) (c ∷ cs) = trim_left skip cs
trim_left zero (c ∷ cs) = elim (space_length (c ∷ cs)) [ zero ↦ c ∷ cs | suc n ↦ trim_left n cs ]

unfoldable pub all_spaces : ℕ → Bytes → Bool
all_spaces skip [] = true
all_spaces (suc skip) (c ∷ cs) = all_spaces skip cs
all_spaces zero (c ∷ cs) = elim (space_length (c ∷ cs)) [ zero ↦ false | suc n ↦ all_spaces n cs ]

unfoldable pub trim_right : Bytes → Bytes
trim_right [] = []
trim_right (c ∷ cs) = if all_spaces 0 (c ∷ cs) then [] else c ∷ trim_right cs

-- strings.TrimSpace
unfoldable pub trim_space : Bytes → Bytes
trim_space s = trim_right (trim_left 0 s)

-- strings.HasPrefix
unfoldable pub has_prefix : Bytes → Bytes → Bool
has_prefix s [] = true
has_prefix [] (p ∷ prefix) = false
has_prefix (c ∷ s) (p ∷ prefix) = c == p && has_prefix s prefix
