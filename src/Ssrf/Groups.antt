-- ===== src/Ssrf/Groups.antt =====
-- packages/shared/src/ssrf.ts: the guard on an IPv6 address, by its first group.
use legends_chat.Common.{
  ◌≡◌, refl, ap, ◌∙◌, Bool, true, false, not, ◌&&◌, none, List, [], ◌∷◌, ◌++◌, map, All, every_of,
  nat_eq, list_eq, arith,
}
use legends_chat.Access.Permissions.{strip}
use legends_chat.Ssrf.{
  Text, is_space, trim_end, lower, cleaned, split_at, is_digit, is_dotted, v4_of, parse_hex,
  is_blocked_hextet, is_blocked_v6, blocked_as, is_blocked_ip,
}
use legends_chat.Ssrf.Trim.{and_false, trim_start-space, trim_start-solid, trim_end-keeps}
use legends_chat.Ssrf.Hextets.{
  Hex, one, two, three, four, Group, IsHex, hexes, written, small, is_global, lowered,
  solid_written, solid_each, map-lower, is_apart, no_colon, colon_no, parse_hex-lowered,
  is_blocked_hextet-global,
}

-- The part before the first colon is the group, and the part before the first dot is longer.
split_at-colon :
    (hs : List Hex) (rest : Text)
    → All IsHex hs
    → (split_at b':' (map (λ h. small h.digit) hs ++ b':' ∷ rest)).0 ≡ map (λ h. small h.digit) hs
unfolding split_at
split_at-colon [] rest fit = refl
split_at-colon (h ∷ hs) rest (fits, fit) =
    rw (no_colon h.digit fits) (ap (λ xs. small h.digit ∷ xs) (split_at-colon hs rest fit))

no_octet :
    (hs : List Hex) (rest : Text)
    → All IsHex hs
    → every_of is_digit (split_at b'.' (map (λ h. small h.digit) hs ++ b':' ∷ rest)).0 ≡ false
unfolding split_at
no_octet [] rest fit = refl
no_octet (h ∷ hs) rest (fits, fit) =
    rw (is_apart h.digit fits b'.' (omega arith), no_octet hs rest fit)
      (and_false (is_digit (small h.digit)))

-- The text that is left: white space in front is gone, and all is lower case.
abbrev left : Hex → List Hex → Text → Text
left h hs rest = map (λ h. small h.digit) (h ∷ hs) ++ b':' ∷ map lower (trim_end rest)

cleaned-left :
    (pre rest : Text) (h : Hex) (hs : List Hex)
    → every_of is_space pre ≡ true
    → All IsHex (h ∷ hs)
    → cleaned (pre ++ (map written (h ∷ hs) ++ b':' ∷ rest)) ≡ left h hs rest
unfolding cleaned
cleaned-left pre rest h hs white fit =
    ap (λ xs. map lower (trim_end xs))
      (trim_start-space pre (map written (h ∷ hs) ++ b':' ∷ rest) white
        ∙ trim_start-solid (written h) (map written hs ++ b':' ∷ rest) (solid_written h fit.0))
    ∙ ap (map lower)
        (trim_end-keeps (map written (h ∷ hs)) rest b':' refl (solid_each (h ∷ hs) fit))
    ∙ map-lower (h ∷ hs) (b':' ∷ trim_end rest) fit

fails :
    (parts len digit others : Bool) → digit ≡ false → (parts && ((len && digit) && others)) ≡ false
fails parts len digit others h = ground arith

is_dotted-left :
    (rest : Text) (h : Hex) (hs : List Hex)
    → All IsHex (h ∷ hs)
    → is_dotted (left h hs rest) ≡ false
unfolding is_dotted
is_dotted-left rest h hs fit = fails _ _ _ _ (no_octet (h ∷ hs) (map lower (trim_end rest)) fit)

v4_of-left :
    (rest : Text) (h : Hex) (hs : List Hex) → All IsHex (h ∷ hs) → v4_of (left h hs rest) ≡ none
unfolding v4_of strip
v4_of-left rest h hs (fits, fit) =
    rw (colon_no h.digit fits, is_dotted-left rest h hs (fits, fit)) refl

is_blocked_v6-left :
    (rest : Text) (h : Hex) (hs : List Hex)
    → All IsHex (h ∷ hs)
    → is_blocked_v6 (left h hs rest)
      ≡ is_blocked_hextet (parse_hex (map (λ h. small h.digit) (h ∷ hs)))
unfolding is_blocked_v6
is_blocked_v6-left rest h hs (fits, fit) = rw (no_colon h.digit fits) (
    ap (λ part. is_blocked_hextet (parse_hex part))
      (split_at-colon (h ∷ hs) (map lower (trim_end rest)) (fits, fit)))

is_blocked_ip-left :
    (pre rest : Text) (h : Hex) (hs : List Hex)
    → every_of is_space pre ≡ true
    → All IsHex (h ∷ hs)
    → is_blocked_ip (pre ++ (map written (h ∷ hs) ++ b':' ∷ rest))
      ≡ is_blocked_hextet (parse_hex (map (λ h. small h.digit) (h ∷ hs)))
unfolding is_blocked_ip
is_blocked_ip-left pre rest h hs white fit =
    ap (λ addr. blocked_as (v4_of addr) addr) (cleaned-left pre rest h hs white fit)
    ∙ ap (λ o. blocked_as o (left h hs rest)) (v4_of-left rest h hs fit)
    ∙ is_blocked_v6-left rest h hs fit

-- An address that begins with a group of hexadecimal digits and a colon, after white space, is let
-- through exactly if the group has four digits of which the first is 2 or 3, whatever follows.
pub is_blocked_ip-group :
    (pre rest : Text) (g : Group)
    → every_of is_space pre ≡ true
    → All IsHex (hexes g)
    → is_blocked_ip (pre ++ (map written (hexes g) ++ b':' ∷ rest)) ≡ not (is_global g)
is_blocked_ip-group pre rest g white fit =
    by_group g fit ∙ ap is_blocked_hextet (parse_hex-lowered g fit) ∙ is_blocked_hextet-global g fit
  where
    by_group :
        (g : Group)
        → All IsHex (hexes g)
        → is_blocked_ip (pre ++ (map written (hexes g) ++ b':' ∷ rest))
          ≡ is_blocked_hextet (parse_hex (lowered g))
    by_group (one a) fit = is_blocked_ip-left pre rest a [] white fit
    by_group (two a b) fit = is_blocked_ip-left pre rest a (b ∷ []) white fit
    by_group (three a b c) fit = is_blocked_ip-left pre rest a (b ∷ c ∷ []) white fit
    by_group (four a b c d) fit = is_blocked_ip-left pre rest a (b ∷ c ∷ d ∷ []) white fit
