-- ===== src/Ssrf/Ranges.antt =====
-- packages/shared/src/ssrf.ts: the blocks of IPv4 addresses that the code lists, by their numbers.
use legends_chat.Common.{
  ℕ, ◌+◌, ◌*◌, ◌≤◌, ◌≡◌, refl, sym, ap, ◌∙◌, Bool, true, false, ◌&&◌, ◌||◌, List, [], ◌∷◌, some_of,
  leb, ltb, ◌==◌, nat_eq, list_eq, if◌then◌else◌, arith, Bool-cases, inl, inr,
}
use legends_chat.Ssrf.{between, is_special, is_blocked_v4}

-- The number of an address, and the one just behind a block.
abbrev pub number : ℕ → ℕ → ℕ → ℕ → ℕ
number a b c d = ((a * 256 + b) * 256 + c) * 256 + d

-- A block: its first address, and the first behind it.
abbrev pub Block : Type 0
Block = ℕ × ℕ

abbrev pub inside : ℕ → Block → Bool
inside n (first, behind) = leb first n && ltb n behind

-- 0/8, 10/8, 127/8, 169.254/16, 172.16/12, 192.168/16, 100.64/10, 192.0/16, 198.18/15, and
-- 224/4 with 240/4.
abbrev pub special_blocks : List Block
special_blocks =
    (number 0 0 0 0, number 1 0 0 0)
    ∷ (number 10 0 0 0, number 11 0 0 0)
    ∷ (number 127 0 0 0, number 128 0 0 0)
    ∷ (number 169 254 0 0, number 169 255 0 0)
    ∷ (number 172 16 0 0, number 172 32 0 0)
    ∷ (number 192 168 0 0, number 192 169 0 0)
    ∷ (number 100 64 0 0, number 100 128 0 0)
    ∷ (number 192 0 0 0, number 192 1 0 0)
    ∷ (number 198 18 0 0, number 198 20 0 0)
    ∷ (number 224 0 0 0, number 256 0 0 0)
    ∷ []

between_same : (k b : ℕ) → between k k b ≡ (b == k)
between_same k b = ground arith

between_two : (k b : ℕ) → between k (k + 1) b ≡ (b == k || b == k + 1)
between_two k b = ground arith

or_false : (t : Bool) → (t || false) ≡ t
or_false true = refl
or_false false = refl

or_else :
    {t block rest rest' : Bool}
    → block ≡ t
    → rest ≡ rest'
    → (if t then true else rest) ≡ (block || rest')
or_else {t = true} {rest' = r} same later = ap (λ x. x || r) (sym same)
or_else {t = false} {rest' = r} same later = later ∙ ap (λ x. x || r) (sym same)

module _ (a b c d : ℕ) (a_fits : a ≤ 255) (b_fits : b ≤ 255) (c_fits : c ≤ 255)
    (d_fits : d ≤ 255) where
  -- A block of whole first octets, and of whole second octets.
  first-inside : (k : ℕ) → inside (number a b c d) (number k 0 0 0, number (k + 1) 0 0 0) ≡ (a == k)
  first-inside k = ground arith

  second-inside :
      (k lo hi : ℕ)
      → hi ≤ 255
      → inside (number a b c d) (number k lo 0 0, number k (hi + 1) 0 0)
        ≡ (a == k && between lo hi b)
  second-inside k lo hi h = ground arith

  multicast-inside : inside (number a b c d) (number 224 0 0 0, number 256 0 0 0) ≡ leb 224 a
  multicast-inside = ground arith

  -- The number of an address is in one of the blocks exactly if its first two octets are listed.
  pub is_special-inside : is_special a b ≡ some_of (inside (number a b c d)) special_blocks
  unfolding is_special
  is_special-inside = or_else (first-inside 0) (
      or_else (first-inside 10) (
        or_else (first-inside 127) (
          or_else
            (second-inside 169 254 254 (omega arith) ∙ ap (λ t. a == 169 && t) (between_same 254 b))
            (or_else (second-inside 172 16 31 (omega arith)) (
              or_else
                (second-inside 192 168 168 (omega arith)
                  ∙ ap (λ t. a == 192 && t) (between_same 168 b))
                (or_else (second-inside 100 64 127 (omega arith)) (
                  or_else
                    (second-inside 192 0 0 (omega arith)
                      ∙ ap (λ t. a == 192 && t) (between_same 0 b))
                    (or_else
                      (second-inside 198 18 19 (omega arith)
                        ∙ ap (λ t. a == 198 && t) (between_two 18 b))
                      (sym (ap (λ t. t || false) multicast-inside ∙ or_false (leb 224 a)))))))))))

octets_fit :
    (a b c d : ℕ)
    → some_of (λ n. ltb 255 n) (a ∷ b ∷ c ∷ d ∷ []) ≡ false
    → (a ≤ 255) × (b ≤ 255) × (c ≤ 255) × (d ≤ 255)
octets_fit a b c d h = (ground arith, ground arith, ground arith, ground arith)

-- Four octets are blocked if one is over 255, or if their number is in one of the blocks.
pub is_blocked_v4-inside :
    (a b c d : ℕ)
    → is_blocked_v4 (a ∷ b ∷ c ∷ d ∷ []) ≡ (
        some_of (λ n. ltb 255 n) (a ∷ b ∷ c ∷ d ∷ [])
        || some_of (inside (number a b c d)) special_blocks)
unfolding is_blocked_v4
is_blocked_v4-inside a b c d = elim (Bool-cases (some_of (λ n. ltb 255 n) (a ∷ b ∷ c ∷ d ∷ []))) [
  | inl over ↦ rw over refl
  | inr fits ↦
      let (fa, fb, fc, fd) = octets_fit a b c d fits in
      rw fits (is_special-inside a b c d fa fb fc fd)
]
