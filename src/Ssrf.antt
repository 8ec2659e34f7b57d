-- ===== src/Ssrf.antt =====
-- packages/shared/src/ssrf.ts: the addresses that a server-side request may not go to. A text is
-- the list of its characters; its letters are ASCII here.
pub mod Ranges
pub mod Trim
pub mod Dotted
pub mod Hextets
pub mod Groups
pub mod Addresses
mod Tests
use legends_chat.Common.{
  ℕ, zero, suc, ◌+◌, ◌*◌, ◌-◌, Bool, true, false, not, ◌&&◌, ◌||◌, Option, none, some, List, [],
  ◌∷◌, map, length, leb, ltb, some_of, every_of, ◌==◌, nat_eq, list_eq, if◌then◌else◌,
}
use legends_chat.Image.Bytes.{codes}
use legends_chat.Access.Permissions.{strip}

abbrev pub Text : Type 0
Text = List ℕ

abbrev pub between : ℕ → ℕ → ℕ → Bool
between lo hi n = leb lo n && leb n hi

-- What `trim` takes off: white space and line ends, of all of Unicode.
abbrev pub is_space : ℕ → Bool
is_space c =
    between 9 13 c
    || c == 32
    || c == 0xa0
    || c == 0x1680
    || between 0x2000 0x200a c
    || c == 0x2028
    || c == 0x2029
    || c == 0x202f
    || c == 0x205f
    || c == 0x3000
    || c == 0xfeff

unfoldable pub trim_start : Text → Text
trim_start [] = []
trim_start (c ∷ cs) = let rest = trim_start cs in if is_space c then rest else c ∷ cs

abbrev pub is_nil : Text → Bool
is_nil [] = true
is_nil (_ ∷ _) = false

unfoldable pub trim_end : Text → Text
trim_end [] = []
trim_end (c ∷ cs) = let rest = trim_end cs in if is_nil rest && is_space c then [] else c ∷ rest

abbrev pub lower : ℕ → ℕ
lower c = if between b'A' b'Z' c then c + 32 else c

-- `ip.trim().toLowerCase()`
unfoldable pub cleaned : Text → Text
cleaned ip = map lower (trim_end (trim_start ip))

-- `split(separator)` for a separator of one character: the first part, and the others.
unfoldable pub split_at : ℕ → Text → Text × List Text
split_at sep [] = ([], [])
split_at sep (c ∷ cs) =
    let (part, parts) = split_at sep cs in
    if c == sep then ([], part ∷ parts) else (c ∷ part, parts)

abbrev pub split : ℕ → Text → List Text
split sep cs = (split_at sep cs).0 ∷ (split_at sep cs).1

abbrev pub is_digit : ℕ → Bool
is_digit c = between b'0' b'9' c

-- `\d{1,3}`, and four of them with dots between: a digit is no dot, so the match is by the parts.
abbrev pub is_octet : Text → Bool
is_octet cs = between 1 3 (length cs) && every_of is_digit cs

unfoldable pub is_dotted : Text → Bool
is_dotted cs = length (split b'.' cs) == 4 && every_of is_octet (split b'.' cs)

abbrev pub dotted_or_none : Text → Option Text
dotted_or_none cs = if is_dotted cs then some cs else none

abbrev pub embedded : Option Text → Option Text
embedded none = none
embedded (some rest) = dotted_or_none rest

abbrev or_plain : Option Text → Text → Option Text
or_plain (some v4) addr = some v4
or_plain none addr = dotted_or_none addr

-- `v4`: the address that an IPv4-mapped IPv6 address embeds, or the dotted address itself.
unfoldable pub v4_of : Text → Option Text
v4_of addr = or_plain (embedded (strip (codes "::ffff:") addr)) addr

-- `parseInt(n, 10)` of a text of digits.
unfoldable pub decimal : ℕ → Text → ℕ
decimal value [] = value
decimal value (c ∷ cs) = decimal (value * 10 + (c - b'0')) cs

-- The ranges, by the first two octets.
unfoldable pub is_special : ℕ → ℕ → Bool
is_special a b =
    if a == 0
    then true
    else if a == 10
    then true
    else if a == 127
    then true
    else if a == 169 && b == 254
    then true
    else if a == 172 && between 16 31 b
    then true
    else if a == 192 && b == 168
    then true
    else if a == 100 && between 64 127 b
    then true
    else if a == 192 && b == 0
    then true
    else if a == 198 && (b == 18 || b == 19)
    then true
    else leb 224 a

unfoldable pub is_blocked_v4 : List ℕ → Bool
is_blocked_v4 (a ∷ b ∷ c ∷ d ∷ []) =
    if some_of (λ n. ltb 255 n) (a ∷ b ∷ c ∷ d ∷ []) then true else is_special a b
is_blocked_v4 _ = true

abbrev pub hex_digit : ℕ → Option ℕ
hex_digit c =
    if between b'0' b'9' c
    then some (c - b'0')
    else if between b'a' b'f' c
    then some (c - b'a' + 10)
    else none

-- The digits that `parseInt(text, 16)` reads, after those read so far.
unfoldable pub hex_digits : Option ℕ → Text → Option ℕ
hex_digits read [] = read
hex_digits read (c ∷ cs) = elim (hex_digit c) [
  | none ↦ read
  | some d ↦ hex_digits (some (shifted read + d)) cs
]
  where
    shifted : Option ℕ → ℕ
    shifted none = 0
    shifted (some value) = value * 16

-- `0x` is skipped; a sign as well. `none` is NaN, or below zero: no range below has such a number.
abbrev or_whole : Option Text → Text → Text
or_whole (some rest) cs = rest
or_whole none cs = cs

unfoldable pub unprefixed : Text → Text
unprefixed cs = or_whole (strip (codes "0x") cs) cs

unfoldable pub parse_hex : Text → Option ℕ
parse_hex [] = none
parse_hex (c ∷ cs) =
    if c == b'-' then none else hex_digits none (unprefixed (if c == b'+' then cs else c ∷ cs))

unfoldable pub is_blocked_hextet : Option ℕ → Bool
is_blocked_hextet none = true
is_blocked_hextet (some h) =
    if leb 0xfc00 h && leb h 0xfdff
    then true
    else if leb 0xfe80 h && leb h 0xfebf
    then true
    else if leb 0xff00 h
    then true
    else if leb 0x2000 h && leb h 0x3fff
    then false
    else true

unfoldable pub is_blocked_v6 : Text → Bool
is_blocked_v6 addr =
    if addr == codes "::1" || addr == codes "::"
    then true
    else is_blocked_hextet (parse_hex (split_at b':' addr).0)

abbrev pub blocked_as : Option Text → Text → Bool
blocked_as (some v4) addr = is_blocked_v4 (map (decimal 0) (split b'.' v4))
blocked_as none addr = is_blocked_v6 addr

unfoldable pub is_blocked_ip : Text → Bool
is_blocked_ip ip = blocked_as (v4_of (cleaned ip)) (cleaned ip)
