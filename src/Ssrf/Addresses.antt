-- ===== src/Ssrf/Addresses.antt =====
-- packages/shared/src/ssrf.ts: which texts of addresses the guard lets through.
use legends_chat.Common.{
  ◌≡◌, refl, ap, ◌∙◌, Bool, true, false, not, ◌||◌, [], ◌∷◌, ◌++◌, All, map, ltb, some_of, every_of,
  if◌then◌else◌,
}
use mathlib.Core.List.{append_assoc}
use legends_chat.Image.Bytes.{codes}
use legends_chat.Access.Permissions.{strip}
use legends_chat.Ssrf.{
  Text, is_space, lower, cleaned, v4_of, is_dotted, split_at, is_blocked_v6, blocked_as,
  is_blocked_ip,
}
use legends_chat.Ssrf.Ranges.{number, inside, special_blocks}
use legends_chat.Ssrf.Trim.{trimmed}
use legends_chat.Ssrf.Dotted.{
  Octet, IsDecimal, value, dotted, Wrapping, prefix, is_blocked_ip-dotted,
}
use legends_chat.Ssrf.Hextets.{Group, IsHex, hexes, written, is_global}
use legends_chat.Ssrf.Groups.{is_blocked_ip-group}

-- The forms of an address: four octets, bare or behind `::ffff:`; a group of hexadecimal digits, a
-- colon and what follows; `::1`; and `::`.
pub data Address : Type 0 where
  v4 : Wrapping → Octet → Octet → Octet → Octet → Address
  v6 : Group → Text → Address
  loopback unspecified : Address

abbrev pub printed : Address → Text
printed (v4 w a b c d) = prefix w ++ dotted a b c d
printed (v6 g rest) = map written (hexes g) ++ b':' ∷ rest
printed loopback = codes "::1"
printed unspecified = codes "::"

-- Each digit is one.
abbrev pub IsWritten : Address → Type 0
IsWritten (v4 w a b c d) = IsDecimal a × IsDecimal b × IsDecimal c × IsDecimal d
IsWritten (v6 g rest) = All IsHex (hexes g)
IsWritten loopback = Unit
IsWritten unspecified = Unit

-- An octet over 255, or a 32-bit number in a block that the code lists; outside 2000::/3.
abbrev pub is_forbidden : Address → Bool
is_forbidden (v4 w a b c d) =
    some_of (λ n. ltb 255 n) (value a ∷ value b ∷ value c ∷ value d ∷ [])
    || some_of (inside (number (value a) (value b) (value c) (value d))) special_blocks
is_forbidden (v6 g rest) = not (is_global g)
is_forbidden loopback = true
is_forbidden unspecified = true

own-is_blocked :
    (pre post : Text) (colons : Bool)
    → every_of is_space pre ≡ true
    → every_of is_space post ≡ true
    → is_blocked_ip (pre ++ ((if colons then codes "::" else codes "::1") ++ post)) ≡ true
unfolding is_blocked_ip cleaned v4_of strip is_dotted split_at is_blocked_v6
own-is_blocked pre post true white white' =
    ap (λ ip. blocked_as (v4_of (map lower ip)) (map lower ip))
      (trimmed pre post (codes "::") white white' refl)
own-is_blocked pre post false white white' =
    ap (λ ip. blocked_as (v4_of (map lower ip)) (map lower ip))
      (trimmed pre post (codes "::1") white white' refl)

-- For a text of one of these forms, with any white space around it. Four octets of one to three digits,
-- bare or behind `::ffff:` in small or large letters, are blocked exactly if an octet is over 255 or the
-- 32-bit number is in one of the blocks that the code lists. What begins with a group of one to four
-- hexadecimal digits and a colon is blocked exactly if the group does not have four digits of which the
-- first is 2 or 3, whatever follows. `::1` and `::` are blocked.
pub is_blocked_ip-printed :
    (pre post : Text) (x : Address)
    → every_of is_space pre ≡ true
    → every_of is_space post ≡ true
    → IsWritten x
    → is_blocked_ip (pre ++ (printed x ++ post)) ≡ is_forbidden x
is_blocked_ip-printed pre post (v4 w a b c d) white white' (ia, ib, ic, id) =
    is_blocked_ip-dotted a b c d ia ib ic id pre post w white white'
is_blocked_ip-printed pre post (v6 g rest) white white' fit =
    ap (λ xs. is_blocked_ip (pre ++ xs)) (append_assoc (map written (hexes g)) (b':' ∷ rest) post)
    ∙ is_blocked_ip-group pre (rest ++ post) g white fit
is_blocked_ip-printed pre post loopback white white' fit =
    own-is_blocked pre post false white white'
is_blocked_ip-printed pre post unspecified white white' fit =
    own-is_blocked pre post true white white'
