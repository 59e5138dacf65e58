-- ===== src/Stdlib/Net.antt =====
-- net.SplitHostPort: `host:port` or `[host]:port`; `none` is an error.
use micelio.Base.{
  ℕ, suc, ◌+◌, ◌-◌, Bool, Option, none, some, [], ◌∷◌, length, take, drop, ◌==◌, nat_eq,
  if◌then◌else◌, is_some,
}
use micelio.Base.Bytes.{Bytes}

abbrev shift : Option ℕ → Option ℕ
shift none = none
shift (some i) = some (suc i)

-- strings.IndexByte
unfoldable pub index_byte : Bytes → ℕ → Option ℕ
index_byte [] c = none
index_byte (x ∷ xs) c = let rest = index_byte xs c in if x == c then some 0 else shift rest

-- strings.LastIndexByte
unfoldable pub last_index_byte : Bytes → ℕ → Option ℕ
last_index_byte [] c = none
last_index_byte (x ∷ xs) c = elim (last_index_byte xs c) [
  | some i ↦ some (suc i)
  | none ↦ if x == c then some 0 else none
]

abbrev contains : Bytes → ℕ → Bool
contains s c = is_some (index_byte s c)

-- The end of the function: brackets where none may be, then the port behind the last colon `i`.
abbrev finish : Bytes → Bytes → ℕ → ℕ → ℕ → Option (Bytes × Bytes)
finish s host i j k =
    if contains (drop j s) b'['
    then none
    else if contains (drop k s) b']'
    then none
    else some (host, drop (i + 1) s)

abbrev split_bracketed : Bytes → ℕ → Option (Bytes × Bytes)
split_bracketed s i = elim (index_byte s b']') [
  | none ↦ none
  | some end ↦
      if end + 1 == length s
      then none
      else if end + 1 == i
      then finish s (take (end - 1) (drop 1 s)) i 1 (end + 1)
      else none
]

abbrev split_plain : Bytes → ℕ → Option (Bytes × Bytes)
split_plain s i = if contains (take i s) b':' then none else finish s (take i s) i 0 0

abbrev split_colon : Bytes → ℕ → Option (Bytes × Bytes)
split_colon [] i = none
split_colon (c ∷ s) i = if c == b'[' then split_bracketed (c ∷ s) i else split_plain (c ∷ s) i

unfoldable pub split_host_port : Bytes → Option (Bytes × Bytes)
unfolding index_byte last_index_byte
split_host_port s = elim (last_index_byte s b':') [ none ↦ none | some i ↦ split_colon s i ]
