-- ===== src/Stdlib/Fields.antt =====
-- strings.Fields on the bytes of a text in UTF-8, and the count of its characters.
use micelio.Base.{
  ℕ, zero, suc, ◌<◌, ◌≡◌, ◌≢◌, refl, sym, ap, ◌∙◌, arith, Bool, false, ◌&&◌, ◌||◌, List, [], ◌∷◌,
  ◌++◌, All, keep, length, leb, ltb, ◌==◌, nat_eq, if◌then◌else◌,
}
use mathlib.Core.List.{append_assoc, append-nil}
use micelio.Base.Bytes.{Bytes}

-- The byte at a place, 0 behind the end.
abbrev at : ℕ → Bytes → ℕ
at n [] = 0
at zero (b ∷ bs) = b
at (suc n) (b ∷ bs) = at n bs

unfoldable pub is_ascii_space : ℕ → Bool
is_ascii_space c = c == 32 || (leb 9 c && leb c 13)

-- U+0085 and U+00A0
abbrev is_space2 : ℕ → ℕ → Bool
is_space2 c d = c == 194 && (d == 133 || d == 160)

-- U+1680, U+2000 to U+200A, U+2028, U+2029, U+202F, U+205F and U+3000
abbrev is_space3 : ℕ → ℕ → ℕ → Bool
is_space3 c d e =
    (c == 225 && (d == 154 && e == 128))
    || (c == 226
        && (d == 128 && ((leb 128 e && leb e 138) || (e == 168 || (e == 169 || e == 175)))))
    || (c == 226 && (d == 129 && e == 159))
    || (c == 227 && (d == 128 && e == 128))

-- The length of the space character that the bytes start with, 0 if they start with none. No other
-- character has such bytes inside it.
unfoldable pub space_length : Bytes → ℕ
unfolding is_ascii_space
space_length bs =
    if is_ascii_space (at 0 bs)
    then 1
    else if is_space2 (at 0 bs) (at 1 bs)
    then 2
    else if is_space3 (at 0 bs) (at 1 bs) (at 2 bs)
    then 3
    else 0

abbrev flush : Bytes → List Bytes → List Bytes
flush [] rest = rest
flush (b ∷ word) rest = (b ∷ word) ∷ rest

-- `skip` bytes of a space are left; `word` is what is read of the present field.
unfoldable pub split : ℕ → Bytes → Bytes → List Bytes
split skip word [] = flush word []
split (suc skip) word (c ∷ cs) = split skip word cs
split zero word (c ∷ cs) = elim (space_length (c ∷ cs)) [
  | zero ↦ split 0 (word ++ (c ∷ [])) cs
  | suc n ↦ flush word (split n [] cs)
]

-- strings.Fields
unfoldable pub fields : Bytes → List Bytes
fields s = split 0 [] s

-- utf8.RuneCountInString, if the bytes are UTF-8
unfoldable pub rune_count : Bytes → ℕ
rune_count bs = length (keep (λ b. ltb b 128 || leb 192 b) bs)

-- Words of ASCII characters, with one space between them.
abbrev pub Plain : ℕ → Type 0
Plain b = (b < 128) × (is_ascii_space b ≡ false)

pub record IsWord (word : Bytes) : Type 0 where
  pub nonempty : word ≢ []
  pub plain : All Plain word

abbrev pub join_words : List Bytes → Bytes
join_words [] = []
join_words (w ∷ []) = w
join_words (w ∷ v ∷ ws) = w ++ (32 ∷ join_words (v ∷ ws))

space_length-Plain : (c : ℕ) (cs : Bytes) → Plain c → space_length (c ∷ cs) ≡ 0
unfolding space_length
space_length-Plain c cs p = ground arith

split-Plain :
    (c : ℕ) (cs word : Bytes) → Plain c → split 0 word (c ∷ cs) ≡ split 0 (word ++ (c ∷ [])) cs
unfolding split
split-Plain c cs word p = rw (space_length-Plain c cs p, split) refl

split-word :
    (w word rest : Bytes) → All Plain w → split 0 word (w ++ rest) ≡ split 0 (word ++ w) rest
split-word [] word rest p = ap (λ x. split 0 x rest) (sym (append-nil word))
split-word (c ∷ w) word rest (p, ps) =
    split-Plain c (w ++ rest) word p
    ∙ split-word w (word ++ (c ∷ [])) rest ps
    ∙ ap (λ x. split 0 x rest) (append_assoc word (c ∷ []) w)

flush_word : (w : Bytes) (rest : List Bytes) → w ≢ [] → flush w rest ≡ w ∷ rest
flush_word [] rest n = absurd (n refl)
flush_word (b ∷ w) rest n = refl

split-space : (w rest : Bytes) → w ≢ [] → split 0 w (32 ∷ rest) ≡ w ∷ fields rest
unfolding split fields space_length
split-space w rest n = flush_word w (split 0 [] rest) n

-- Fields gives back the words that are joined by spaces.
pub fields-join_words : (ws : List Bytes) → All IsWord ws → fields (join_words ws) ≡ ws
unfolding fields
fields-join_words [] ok = unfold split in refl
fields-join_words (w ∷ []) (ok, _) =
    ap (λ x. split 0 [] x) (sym (append-nil w))
    ∙ split-word w [] [] ok.plain
    ∙ unfold split in flush_word w [] ok.nonempty
fields-join_words (w ∷ v ∷ ws) (ok, oks) =
    split-word w [] (32 ∷ join_words (v ∷ ws)) ok.plain
    ∙ split-space w (join_words (v ∷ ws)) ok.nonempty
    ∙ ap (◌∷◌ w) (fields-join_words (v ∷ ws) oks)
