-- ===== src/Ssrf/Dotted.antt =====
-- packages/shared/src/ssrf.ts: the guard on the text of an IPv4 address, bare or mapped into IPv6.
use legends_chat.Common.{
  ℕ, ◌+◌, ◌*◌, ◌≤◌, ◌≡◌, refl, ap, ◌∙◌, Bool, true, false, ◌&&◌, ◌||◌, none, some, [], ◌∷◌, ◌++◌,
  map, length, ltb, some_of, every_of, ◌==◌, nat_eq, arith, and-cases,
}
use legends_chat.Image.Bytes.{codes}
use legends_chat.Access.Permissions.{strip}
use legends_chat.Ssrf.{
  Text, is_space, lower, cleaned, split_at, split, is_digit, is_octet, is_dotted, v4_of, decimal,
  is_blocked_v4, blocked_as, is_blocked_ip,
}
use legends_chat.Ssrf.Ranges.{number, inside, special_blocks, is_blocked_v4-inside}
use legends_chat.Ssrf.Trim.{is_solid, every_of-append, every_of_weaker, trimmed}

-- A number of one to three decimal digits, a zero in front allowed.
pub data Octet : Type 0 where
  one : ℕ → Octet
  two : ℕ → ℕ → Octet
  three : ℕ → ℕ → ℕ → Octet

abbrev pub value : Octet → ℕ
value (one d) = d
value (two d e) = d * 10 + e
value (three d e f) = d * 100 + e * 10 + f

abbrev pub digits : Octet → Text
digits (one d) = (d + b'0') ∷ []
digits (two d e) = (d + b'0') ∷ (e + b'0') ∷ []
digits (three d e f) = (d + b'0') ∷ (e + b'0') ∷ (f + b'0') ∷ []

abbrev pub IsDecimal : Octet → Type 0
IsDecimal (one d) = d ≤ 9
IsDecimal (two d e) = (d ≤ 9) × (e ≤ 9)
IsDecimal (three d e f) = (d ≤ 9) × (e ≤ 9) × (f ≤ 9)

abbrev pub dotted : Octet → Octet → Octet → Octet → Text
dotted a b c d = digits a ++ b'.' ∷ (digits b ++ b'.' ∷ (digits c ++ b'.' ∷ digits d))

-- What may stand before it: nothing, or `::ffff:` with each letter small or large.
pub data Wrapping : Type 0 where
  bare : Wrapping
  mapped : Bool → Bool → Bool → Bool → Wrapping

abbrev pub f_of : Bool → ℕ
f_of true = b'F'
f_of false = b'f'

abbrev pub prefix : Wrapping → Text
prefix bare = []
prefix (mapped p q r s) = b':' ∷ b':' ∷ f_of p ∷ f_of q ∷ f_of r ∷ f_of s ∷ b':' ∷ []

-- Characters that neither `trim` nor `toLowerCase` changes once `::ffff:` is gone.
abbrev is_dot_or_digit : ℕ → Bool
is_dot_or_digit c = is_digit c || c == b'.'

map-lower : (xs : Text) → every_of is_dot_or_digit xs ≡ true → map lower xs ≡ xs
map-lower [] plain = refl
map-lower (x ∷ xs) plain =
    let (here, later) = and-cases (is_dot_or_digit x) (every_of is_dot_or_digit xs) plain in
    rw (kept x here) (ap (λ ys. x ∷ ys) (map-lower xs later))
  where
    kept : (c : ℕ) → is_dot_or_digit c ≡ true → lower c ≡ c
    kept c h = ground arith

split_at-part :
    (part rest : Text)
    → every_of is_digit part ≡ true
    → split_at b'.' (part ++ b'.' ∷ rest) ≡ (part, split b'.' rest)
unfolding split_at
split_at-part [] rest digit = refl
split_at-part (c ∷ part) rest digit =
    let (here, later) = and-cases (is_digit c) (every_of is_digit part) digit in
    rw (split_at-part part rest later, no_dot c here) refl
  where
    no_dot : (c : ℕ) → is_digit c ≡ true → (c == b'.') ≡ false
    no_dot c h = ground arith

split_at-last : (part : Text) → every_of is_digit part ≡ true → split_at b'.' part ≡ (part, [])
unfolding split_at
split_at-last [] digit = refl
split_at-last (c ∷ part) digit =
    let (here, later) = and-cases (is_digit c) (every_of is_digit part) digit in
    rw (split_at-last part later, no_dot c here) refl
  where
    no_dot : (c : ℕ) → is_digit c ≡ true → (c == b'.') ≡ false
    no_dot c h = ground arith

-- An octet as it is written.
digit : (d : ℕ) → d ≤ 9 → is_digit (d + b'0') ≡ true
digit d h = ground arith

digits-are : (o : Octet) → IsDecimal o → every_of is_digit (digits o) ≡ true
digits-are (one d) h = rw (digit d h) refl
digits-are (two d e) (hd, he) = rw (digit d hd, digit e he) refl
digits-are (three d e f) (hd, he, hf) = rw (digit d hd, digit e he, digit f hf) refl

is_octet-digits : (o : Octet) → IsDecimal o → is_octet (digits o) ≡ true
is_octet-digits (one d) h = rw (digit d h) refl
is_octet-digits (two d e) (hd, he) = rw (digit d hd, digit e he) refl
is_octet-digits (three d e f) (hd, he, hf) = rw (digit d hd, digit e he, digit f hf) refl

decimal-digits : (o : Octet) → decimal 0 (digits o) ≡ value o
unfolding decimal
decimal-digits (one d) = omega arith
decimal-digits (two d e) = omega arith
decimal-digits (three d e f) = omega arith

module _ (a b c d : Octet) (a_is : IsDecimal a) (b_is : IsDecimal b) (c_is : IsDecimal c)
    (d_is : IsDecimal d) where
  split-dotted : split b'.' (dotted a b c d) ≡ digits a ∷ digits b ∷ digits c ∷ digits d ∷ []
  split-dotted =
      rw
        (
          split_at-part (digits a) (digits b ++ b'.' ∷ (digits c ++ b'.' ∷ digits d))
              (digits-are a a_is),
          split_at-part (digits b) (digits c ++ b'.' ∷ digits d) (digits-are b b_is),
          split_at-part (digits c) (digits d) (digits-are c c_is),
          split_at-last (digits d) (digits-are d d_is),
        )
        refl

  is_dotted-dotted : is_dotted (dotted a b c d) ≡ true
  unfolding is_dotted
  is_dotted-dotted =
      ap (λ parts. length parts == 4 && every_of is_octet parts) split-dotted
      ∙ rw
          (
            is_octet-digits a a_is,
            is_octet-digits b b_is,
            is_octet-digits c c_is,
            is_octet-digits d d_is,
          )
          refl

  dotted-plain : every_of is_dot_or_digit (dotted a b c d) ≡ true
  dotted-plain =
      joined a _ a_is (joined b _ b_is (joined c _ c_is (plain (digits d) (digits-are d d_is))))
    where
      plain : (xs : Text) → every_of is_digit xs ≡ true → every_of is_dot_or_digit xs ≡ true
      plain xs h = every_of_weaker is_digit is_dot_or_digit xs (λ x e. rw e refl) h

      joined :
          (o : Octet) (rest : Text)
          → IsDecimal o
          → every_of is_dot_or_digit rest ≡ true
          → every_of is_dot_or_digit (digits o ++ b'.' ∷ rest) ≡ true
      joined o rest o_is h =
          every_of-append is_dot_or_digit (digits o) (b'.' ∷ rest)
            (plain (digits o) (digits-are o o_is)) h

  solid_dotted : every_of is_solid (dotted a b c d) ≡ true
  solid_dotted =
      every_of_weaker is_dot_or_digit is_solid (dotted a b c d) (λ x h. ground arith) dotted-plain

  first_digit : (x : ℕ) (xs : Text) → is_digit x ≡ true → strip (codes "::ffff:") (x ∷ xs) ≡ none
  unfolding strip
  first_digit x xs h = rw (no_colon x h) refl
    where
      no_colon : (x : ℕ) → is_digit x ≡ true → (b':' == x) ≡ false
      no_colon x h = ground arith

  strip-bare :
      (o : Octet) (rest : Text) → IsDecimal o → strip (codes "::ffff:") (digits o ++ rest) ≡ none
  strip-bare (one x) rest h = first_digit _ _ (digit x h)
  strip-bare (two x y) rest (h, _) = first_digit _ _ (digit x h)
  strip-bare (three x y z) rest (h, _, _) = first_digit _ _ (digit x h)

  lower_f : (p : Bool) → lower (f_of p) ≡ b'f'
  lower_f true = refl
  lower_f false = refl

  -- The address that is found behind the prefix is the dotted text, whatever its letters.
  v4_of-dotted :
      (w : Wrapping) → v4_of (map lower (prefix w ++ dotted a b c d)) ≡ some (dotted a b c d)
  unfolding v4_of strip
  v4_of-dotted bare =
      rw
        (
          map-lower (dotted a b c d) dotted-plain,
          strip-bare a (b'.' ∷ (digits b ++ b'.' ∷ (digits c ++ b'.' ∷ digits d))) a_is,
          is_dotted-dotted,
        )
        refl
  v4_of-dotted (mapped p q r s) =
      rw
        (
          lower_f p,
          lower_f q,
          lower_f r,
          lower_f s,
          map-lower (dotted a b c d) dotted-plain,
          is_dotted-dotted,
        )
        refl

  is_blocked_v4-dotted : is_blocked_v4 (map (decimal 0) (split b'.' (dotted a b c d))) ≡ (
      some_of (λ n. ltb 255 n) (value a ∷ value b ∷ value c ∷ value d ∷ [])
      || some_of (inside (number (value a) (value b) (value c) (value d))) special_blocks)
  is_blocked_v4-dotted =
      ap (λ parts. is_blocked_v4 (map (decimal 0) parts)) split-dotted
      ∙ rw (decimal-digits a, decimal-digits b, decimal-digits c, decimal-digits d)
          (is_blocked_v4-inside (value a) (value b) (value c) (value d))

  solid_prefix : (w : Wrapping) → every_of is_solid (prefix w) ≡ true
  solid_prefix bare = refl
  solid_prefix (mapped p q r s) = rw (solid_f p, solid_f q, solid_f r, solid_f s) refl
    where
      solid_f : (p : Bool) → is_solid (f_of p) ≡ true
      solid_f true = refl
      solid_f false = refl

  -- The text of four octets, bare or mapped, with white space around it, is blocked exactly if an
  -- octet is over 255 or the 32-bit number is in one of the blocks that the code lists.
  pub is_blocked_ip-dotted :
      (pre post : Text) (w : Wrapping)
      → every_of is_space pre ≡ true
      → every_of is_space post ≡ true
      → is_blocked_ip (pre ++ ((prefix w ++ dotted a b c d) ++ post)) ≡ (
          some_of (λ n. ltb 255 n) (value a ∷ value b ∷ value c ∷ value d ∷ [])
          || some_of (inside (number (value a) (value b) (value c) (value d))) special_blocks)
  unfolding is_blocked_ip cleaned
  is_blocked_ip-dotted pre post w white white' =
      ap (λ ip. blocked_as (v4_of (map lower ip)) (map lower ip))
        (trimmed pre post (prefix w ++ dotted a b c d) white white'
          (every_of-append is_solid (prefix w) (dotted a b c d) (solid_prefix w) solid_dotted))
      ∙ ap (λ o. blocked_as o (map lower (prefix w ++ dotted a b c d))) (v4_of-dotted w)
      ∙ is_blocked_v4-dotted
