-- ===== src/Ssrf/Hextets.antt =====
-- packages/shared/src/ssrf.ts: the number of a group of hexadecimal digits.
use legends_chat.Common.{
  ℕ, ◌+◌, ◌-◌, ◌*◌, ◌≤◌, ◌≡◌, refl, ap, ◌∙◌, Bool, true, false, not, ◌&&◌, ◌||◌, Option, none, some,
  List, [], ◌∷◌, ◌++◌, map, All, leb, every_of, ◌==◌, nat_eq, list_eq, if◌then◌else◌, arith,
}
use legends_chat.Image.Bytes.{codes}
use legends_chat.Access.Permissions.{strip}
use legends_chat.Ssrf.{Text, lower, hex_digit, hex_digits, unprefixed, parse_hex, is_blocked_hextet}
use legends_chat.Ssrf.Trim.{is_solid}

-- A hexadecimal digit, small or large, and a group of one to four.
pub record Hex : Type 0 where
  pub large : Bool
  pub digit : ℕ

abbrev pub IsHex : Hex → Type 0
IsHex h = h.digit ≤ 15

abbrev pub small : ℕ → ℕ
small n = if leb n 9 then n + b'0' else (n - 10) + b'a'

abbrev pub written : Hex → ℕ
written h = if h.large && leb 10 h.digit then (h.digit - 10) + b'A' else small h.digit

pub data Group : Type 0 where
  one : Hex → Group
  two : Hex → Hex → Group
  three : Hex → Hex → Hex → Group
  four : Hex → Hex → Hex → Hex → Group

abbrev pub hexes : Group → List Hex
hexes (one a) = a ∷ []
hexes (two a b) = a ∷ b ∷ []
hexes (three a b c) = a ∷ b ∷ c ∷ []
hexes (four a b c d) = a ∷ b ∷ c ∷ d ∷ []

-- 2000::/3: four digits, of which the first is 2 or 3.
abbrev pub is_global : Group → Bool
is_global (four a b c d) = a.digit == 2 || a.digit == 3
is_global _ = false

lower-written : (h : Hex) → IsHex h → lower (written h) ≡ small h.digit
lower-written h fits = ground arith

pub solid_written : (h : Hex) → IsHex h → is_solid (written h) ≡ true
solid_written h fits = ground arith

module _ (n : ℕ) (fits : n ≤ 15) where
  hex_digit-small : hex_digit (small n) ≡ some n
  hex_digit-small = ground arith

  pub is_apart : (c : ℕ) → c ≤ 47 → (small n == c) ≡ false
  is_apart c h = ground arith

  pub no_colon : (small n == b':') ≡ false
  no_colon = ground arith

  pub colon_no : (b':' == small n) ≡ false
  colon_no = ground arith

  no_x : (b'x' == small n) ≡ false
  no_x = ground arith

-- The text as it is once it is lower case.
abbrev pub lowered : Group → Text
lowered g = map (λ h. small h.digit) (hexes g)

abbrev pub AreHex : Group → Type 0
AreHex g = All IsHex (hexes g)

pub map-lower :
    (hs : List Hex) (rest : Text)
    → All IsHex hs
    → map lower (map written hs ++ rest) ≡ map (λ h. small h.digit) hs ++ map lower rest
map-lower [] rest fit = refl
map-lower (h ∷ hs) rest (fits, fit) =
    rw (lower-written h fits) (ap (λ xs. small h.digit ∷ xs) (map-lower hs rest fit))

pub solid_each : (hs : List Hex) → All IsHex hs → every_of is_solid (map written hs) ≡ true
solid_each [] fit = refl
solid_each (h ∷ hs) (fits, fit) = rw (solid_written h fits) (solid_each hs fit)

hex_digits-map :
    (read : ℕ) (h : Hex) (cs : Text)
    → IsHex h
    → hex_digits (some read) (small h.digit ∷ cs) ≡ hex_digits (some (read * 16 + h.digit)) cs
unfolding hex_digits
hex_digits-map read h cs fits = rw (hex_digits, hex_digit-small h.digit fits) refl

hex_digits-first :
    (h : Hex) (cs : Text)
    → IsHex h
    → hex_digits none (small h.digit ∷ cs) ≡ hex_digits (some h.digit) cs
unfolding hex_digits
hex_digits-first h cs fits =
    rw (hex_digits, hex_digit-small h.digit fits) (ap (λ n. hex_digits (some n) cs) (omega arith))

either : (b : Bool) (o : Option Text) → (if b then o else o) ≡ o
either true o = refl
either false o = refl

strip-small :
    (hs : List Hex) → All IsHex hs → strip (codes "0x") (map (λ h. small h.digit) hs) ≡ none
unfolding strip
strip-small [] fit = refl
strip-small (h ∷ []) fit = either (b'0' == small h.digit) none
strip-small (h ∷ k ∷ hs) (_, (fits, _)) =
    rw (no_x k.digit fits) (either (b'0' == small h.digit) none)

unprefixed-small :
    (hs : List Hex)
    → All IsHex hs
    → unprefixed (map (λ h. small h.digit) hs) ≡ map (λ h. small h.digit) hs
unfolding unprefixed
unprefixed-small hs fit = rw (strip-small hs fit) refl

abbrev hextet : Group → ℕ
hextet (one a) = a.digit
hextet (two a b) = a.digit * 16 + b.digit
hextet (three a b c) = (a.digit * 16 + b.digit) * 16 + c.digit
hextet (four a b c d) = ((a.digit * 16 + b.digit) * 16 + c.digit) * 16 + d.digit

hex_digits-end : (n : ℕ) → hex_digits (some n) [] ≡ some n
unfolding hex_digits
hex_digits-end n = refl

hex_digits-lowered : (g : Group) → AreHex g → hex_digits none (lowered g) ≡ some (hextet g)
hex_digits-lowered (one a) (fa, _) = hex_digits-first a [] fa ∙ hex_digits-end _
hex_digits-lowered (two a b) (fa, (fb, _)) =
    hex_digits-first a _ fa ∙ hex_digits-map a.digit b [] fb ∙ hex_digits-end _
hex_digits-lowered (three a b c) (fa, (fb, (fc, _))) =
    hex_digits-first a _ fa
    ∙ hex_digits-map a.digit b _ fb
    ∙ hex_digits-map _ c [] fc
    ∙ hex_digits-end _
hex_digits-lowered (four a b c d) (fa, (fb, (fc, (fd, _)))) =
    hex_digits-first a _ fa
    ∙ hex_digits-map a.digit b _ fb
    ∙ hex_digits-map _ c _ fc
    ∙ hex_digits-map _ d [] fd
    ∙ hex_digits-end _

parse_hex-small :
    (h : Hex) (hs : List Hex)
    → All IsHex (h ∷ hs)
    → parse_hex (map (λ h. small h.digit) (h ∷ hs))
      ≡ hex_digits none (map (λ h. small h.digit) (h ∷ hs))
unfolding parse_hex
parse_hex-small h hs (fits, fit) =
    rw (is_apart h.digit fits b'-' (omega arith), is_apart h.digit fits b'+' (omega arith))
      (ap (hex_digits none) (unprefixed-small (h ∷ hs) (fits, fit)))

pub parse_hex-lowered : (g : Group) → AreHex g → parse_hex (lowered g) ≡ some (hextet g)
parse_hex-lowered (one a) fit = parse_hex-small a [] fit ∙ hex_digits-lowered (one a) fit
parse_hex-lowered (two a b) fit = parse_hex-small a (b ∷ []) fit ∙ hex_digits-lowered (two a b) fit
parse_hex-lowered (three a b c) fit =
    parse_hex-small a (b ∷ c ∷ []) fit ∙ hex_digits-lowered (three a b c) fit
parse_hex-lowered (four a b c d) fit =
    parse_hex-small a (b ∷ c ∷ d ∷ []) fit ∙ hex_digits-lowered (four a b c d) fit

pub is_blocked_hextet-global :
    (g : Group) → AreHex g → is_blocked_hextet (some (hextet g)) ≡ not (is_global g)
unfolding is_blocked_hextet
is_blocked_hextet-global (one a) (fa, _) = ground arith
is_blocked_hextet-global (two a b) (fa, (fb, _)) = ground arith
is_blocked_hextet-global (three a b c) (fa, (fb, (fc, _))) = ground arith
is_blocked_hextet-global (four a b c d) (fa, (fb, (fc, (fd, _)))) = ground arith
