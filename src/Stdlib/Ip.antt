-- ===== src/Stdlib/Ip.antt =====
-- net.ParseIP, with netip.ParseAddr under it, and IP.IsUnspecified. An address has 16 bytes.
use micelio.Base.{
  ℕ, zero, suc, ◌+◌, ◌-◌, ◌*◌, ◌/◌, ◌%◌, Bool, false, ◌&&◌, ◌||◌, Option, none, some, [], ◌∷◌, ◌++◌,
  length, take, drop, ltb, leb, ◌==◌, nat_eq, if◌then◌else◌, is_some,
}
use micelio.Base.Bytes.{Bytes, bytes_eq}

abbrev zeros : ℕ → Bytes
zeros zero = []
zeros (suc n) = 0 ∷ zeros n

-- ::ffff:0:0/96
abbrev mapped : Bytes
mapped = zeros 10 ++ (255 ∷ 255 ∷ [])

abbrev prepend : ℕ → Option Bytes → Option Bytes
prepend b none = none
prepend b (some bs) = some (b ∷ bs)

-- parseIPv4Fields: `pos` fields are read, and `dig` digits of the next with value `val`.
unfoldable ipv4_fields : ℕ → ℕ → ℕ → Bytes → Option Bytes
ipv4_fields pos val dig [] = if ltb pos 3 then none else some (val ∷ [])
ipv4_fields pos val dig (c ∷ cs) =
    let digit = leb b'0' c && leb c b'9' in
    let next = val * 10 + (c - b'0') in
    let rest =
      ipv4_fields (if digit then pos else pos + 1) (if digit then next else 0)
        (if digit then dig + 1 else 0) cs in
    if digit
    then (if (dig == 1 && val == 0) || ltb 255 next then none else rest)
    else if c == b'.' && (ltb 0 dig && (ltb pos 3 && ltb 0 (length cs)))
    then prepend val rest
    else none

unfoldable hex_digit : ℕ → Option ℕ
hex_digit c =
    if leb b'0' c && leb c b'9'
    then some (c - b'0')
    else if leb b'a' c && leb c b'f'
    then some (c - b'a' + 10)
    else if leb b'A' c && leb c b'F'
    then some (c - b'A' + 10)
    else none

-- The digits of a group: how many, their value, and what follows.
unfoldable hex_group : ℕ → ℕ → Bytes → ℕ × ℕ × Bytes
hex_group off acc [] = (off, acc, [])
hex_group off acc (c ∷ cs) = elim (hex_digit c) [
  | none ↦ (off, acc, c ∷ cs)
  | some d ↦ hex_group (off + 1) (acc * 16 + d) cs
]

-- What a turn of the loop of parseIPv6 comes to: an error, its end, or the next turn, with the bytes
-- that are read, the place of the ellipsis and what is left.
pub data Turn : Type 0 where
  bad : Turn
  last more : Bytes → Option ℕ → Bytes → Turn

-- Behind a colon
after_colon : Bytes → Option ℕ → Bytes → Turn
after_colon ip ellipsis [] = bad
after_colon ip ellipsis (c ∷ cs) =
    if c == b':'
    then (if is_some ellipsis
        then bad
        else if cs == []
        then last ip (some (length ip)) []
        else more ip (some (length ip)) cs)
    else more ip ellipsis (c ∷ cs)

-- Behind a group
after_group : Bytes → Option ℕ → Bytes → Turn
unfolding after_colon
after_group ip ellipsis [] = last ip ellipsis []
after_group ip ellipsis (c ∷ cs) = if c == b':' then after_colon ip ellipsis cs else bad

abbrev starts_with : ℕ → Bytes → Bool
starts_with c [] = false
starts_with c (b ∷ bs) = b == c

-- An IPv4 address at the end.
trailing_ipv4 : Bytes → Option ℕ → Bytes → Turn
unfolding ipv4_fields
trailing_ipv4 ip ellipsis s =
    if (length ip == 12) || (is_some ellipsis && ltb (length ip) 12)
    then elim (ipv4_fields 0 0 0 s) [ none ↦ bad | some fields ↦ last (ip ++ fields) ellipsis [] ]
    else bad

read_group : Bytes → Option ℕ → Bytes → Turn
unfolding hex_group hex_digit after_group trailing_ipv4
read_group ip ellipsis s =
    let (off, acc, rest) = hex_group 0 0 s in
    if off == 0 || ltb 4 off
    then bad
    else if starts_with b'.' rest
    then trailing_ipv4 ip ellipsis s
    else after_group (ip ++ (acc / 256 ∷ acc % 256 ∷ [])) ellipsis rest

-- The end of parseIPv6
expand : Bytes → Option ℕ → Bytes → Option Bytes
expand ip ellipsis s = if ltb 0 (length s) then none else elim ellipsis [
  | none ↦ if length ip == 16 then some ip else none
  | some e ↦
      if ltb (length ip) 16 then some (take e ip ++ (zeros (16 - length ip) ++ drop e ip)) else none
]

-- The loop, for as many groups as still fit.
ipv6_groups : ℕ → Bytes → Option ℕ → Bytes → Option Bytes
unfolding read_group expand
ipv6_groups zero ip ellipsis s = expand ip ellipsis s
ipv6_groups (suc n) ip ellipsis s = elim (read_group ip ellipsis s) [
  | bad ↦ none
  | last ip' ellipsis' rest ↦ expand ip' ellipsis' rest
  | more ip' ellipsis' rest ↦ ipv6_groups n ip' ellipsis' rest
]

parse_ipv6 : Bytes → Option Bytes
unfolding ipv6_groups
parse_ipv6 s =
    if take 2 s == b':' ∷ b':' ∷ []
    then (if drop 2 s == [] then some (zeros 16) else ipv6_groups 8 [] (some 0) (drop 2 s))
    else ipv6_groups 8 [] none s

parse_ipv4 : Bytes → Option Bytes
unfolding ipv4_fields
parse_ipv4 s = elim (ipv4_fields 0 0 0 s) [ none ↦ none | some fields ↦ some (mapped ++ fields) ]

-- By the first of the marks; an address with a zone is none for ParseIP.
parse_by_mark : Bytes → Bytes → Option Bytes
unfolding parse_ipv4 parse_ipv6
parse_by_mark s [] = none
parse_by_mark s (c ∷ cs) =
    if c == b'.' then parse_ipv4 s else if c == b':' then parse_ipv6 s else parse_by_mark s cs

has_zone : Bytes → Bool
has_zone [] = false
has_zone (c ∷ cs) = c == b'%' || has_zone cs

-- net.ParseIP
unfoldable pub parse_ip : Bytes → Option Bytes
unfolding has_zone parse_by_mark
parse_ip s = if has_zone s then none else parse_by_mark s s

-- IP.IsUnspecified
unfoldable pub is_unspecified : Bytes → Bool
is_unspecified ip = ip == zeros 16 || ip == mapped ++ zeros 4
