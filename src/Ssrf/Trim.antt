-- ===== src/Ssrf/Trim.antt =====
-- packages/shared/src/ssrf.ts: what `trim` does to white space around a text without any.
use legends_chat.Common.{
  ℕ, ◌≡◌, refl, ap, ◌∙◌, Bool, true, false, not, ◌&&◌, [], ◌∷◌, ◌++◌, every_of, arith, and-cases,
  apart,
}
use legends_chat.Ssrf.{Text, is_space, trim_start, is_nil, trim_end}

abbrev pub is_solid : ℕ → Bool
is_solid c = not (is_space c)

pub every_of-append :
    (p : ℕ → Bool) (xs ys : Text)
    → every_of p xs ≡ true
    → every_of p ys ≡ true
    → every_of p (xs ++ ys) ≡ true
every_of-append p [] ys hx hy = hy
every_of-append p (x ∷ xs) ys hx hy =
    let (here, later) = and-cases (p x) (every_of p xs) hx in
    rw here (every_of-append p xs ys later hy)

pub every_of_weaker :
    (p q : ℕ → Bool) (xs : Text)
    → ((c : ℕ) → p c ≡ true → q c ≡ true)
    → every_of p xs ≡ true
    → every_of q xs ≡ true
every_of_weaker p q [] weaker h = refl
every_of_weaker p q (x ∷ xs) weaker h =
    let (here, later) = and-cases (p x) (every_of p xs) h in
    rw (weaker x here) (every_of_weaker p q xs weaker later)

pub black : (b : Bool) → not b ≡ true → b ≡ false
black true h = absurd (apart h refl)
black false h = refl

trim_end-space : (post : Text) → every_of is_space post ≡ true → trim_end post ≡ []
unfolding trim_end
trim_end-space [] white = refl
trim_end-space (c ∷ post) white =
    let (here, later) = and-cases (is_space c) (every_of is_space post) white in
    rw (trim_end-space post later, here) refl

trim_end-solid :
    (xs post : Text)
    → every_of is_solid xs ≡ true
    → every_of is_space post ≡ true
    → trim_end (xs ++ post) ≡ xs
unfolding trim_end
trim_end-solid [] post solid white = trim_end-space post white
trim_end-solid (x ∷ xs) post solid white =
    let (here, later) = and-cases (is_solid x) (every_of is_solid xs) solid in
    rw (trim_end-solid xs post later white, black (is_space x) here) (ground arith)

pub trim_start-space :
    (pre xs : Text) → every_of is_space pre ≡ true → trim_start (pre ++ xs) ≡ trim_start xs
unfolding trim_start
trim_start-space [] xs white = refl
trim_start-space (c ∷ pre) xs white =
    let (here, later) = and-cases (is_space c) (every_of is_space pre) white in
    rw here (trim_start-space pre xs later)

pub trim_start-solid : (x : ℕ) (xs : Text) → is_solid x ≡ true → trim_start (x ∷ xs) ≡ x ∷ xs
unfolding trim_start
trim_start-solid x xs solid = rw (black (is_space x) solid) refl

white_start : (post : Text) → every_of is_space post ≡ true → trim_start post ≡ []
unfolding trim_start
white_start [] white = refl
white_start (c ∷ post) white =
    let (here, later) = and-cases (is_space c) (every_of is_space post) white in
    rw here (white_start post later)

-- White space around a text without any is trimmed.
pub trimmed :
    (pre post xs : Text)
    → every_of is_space pre ≡ true
    → every_of is_space post ≡ true
    → every_of is_solid xs ≡ true
    → trim_end (trim_start (pre ++ (xs ++ post))) ≡ xs
unfolding trim_end
trimmed pre post [] white white' solid =
    rw (trim_start-space pre post white, white_start post white') refl
trimmed pre post (x ∷ xs) white white' solid =
    let (here, later) = and-cases (is_solid x) (every_of is_solid xs) solid in
    ap trim_end
      (trim_start-space pre (x ∷ (xs ++ post)) white ∙ trim_start-solid x (xs ++ post) here)
    ∙ trim_end-solid (x ∷ xs) post solid white'

pub and_false : (b : Bool) → (b && false) ≡ false
and_false true = refl
and_false false = refl

-- And of a text with a character that is no white space, the start is kept.
pub trim_end-keeps :
    (xs rest : Text) (x : ℕ)
    → is_solid x ≡ true
    → every_of is_solid xs ≡ true
    → trim_end (xs ++ x ∷ rest) ≡ xs ++ x ∷ trim_end rest
unfolding trim_end
trim_end-keeps [] rest x here solid =
    rw (black (is_space x) here, and_false (is_nil (trim_end rest))) refl
trim_end-keeps (y ∷ xs) rest x here solid =
    let (first, later) = and-cases (is_solid y) (every_of is_solid xs) solid in
    rw
      (
        trim_end-keeps xs rest x here later,
        black (is_space y) first,
        and_false (is_nil (xs ++ x ∷ trim_end rest)),
      )
      refl
