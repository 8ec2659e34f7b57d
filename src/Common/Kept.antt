-- ===== src/Common/Kept.antt =====
-- What `keep` leaves.
use mathlib.Core.Path.{◌≡◌, refl, ap}
use mathlib.Core.Logic.{inl, inr}
use mathlib.Core.Bool.{Bool, true, false, not}
use mathlib.Core.List.{List, [], ◌∷◌, ◌++◌, map}
use legends_chat.Common.Tests.{Bool-cases}
use legends_chat.Common.Lists.{All}
use legends_chat.Common.Equality.{keep, some_of, or_true}

module _ {A : Type 0} where
  pub keep-append : (p : A → Bool) (xs ys : List A) → keep p (xs ++ ys) ≡ keep p xs ++ keep p ys
  keep-append p [] ys = refl
  keep-append p (x ∷ xs) ys = elim (Bool-cases (p x)) [
    | inl in_it ↦ rw in_it (ap (λ zs. x ∷ zs) (keep-append p xs ys))
    | inr out ↦ rw out (keep-append p xs ys)
  ]

  pub some_of-append :
      (p : A → Bool) (xs ys : List A) → some_of p ys ≡ true → some_of p (xs ++ ys) ≡ true
  some_of-append p [] ys h = h
  some_of-append p (x ∷ xs) ys h = rw (some_of-append p xs ys h) (or_true (p x))

  -- A test that the rows have passed already, and one that they cannot pass.
  pub keep-keep :
      (p q : A → Bool) (xs : List A)
      → ((a : A) → p a ≡ true → q a ≡ true)
      → keep p (keep q xs) ≡ keep p xs
  keep-keep p q [] h = refl
  keep-keep p q (x ∷ xs) h = elim (Bool-cases (q x)) [
    | inl in_it ↦ elim (Bool-cases (p x)) [
      | inl both ↦ rw (in_it, both) (ap (λ zs. x ∷ zs) (keep-keep p q xs h))
      | inr not_it ↦ rw (in_it, not_it) (keep-keep p q xs h)
    ]
    | inr out ↦ elim (Bool-cases (p x)) [
      | inl both ↦ cc (h x both, out)
      | inr not_it ↦ rw (out, not_it) (keep-keep p q xs h)
    ]
  ]

  pub keep-none : (p : A → Bool) (xs : List A) → All (λ a. p a ≡ false) xs → keep p xs ≡ []
  keep-none p [] h = refl
  keep-none p (x ∷ xs) h = rw h.0 (keep-none p xs h.1)

  pub keep_whole : (p : A → Bool) (xs : List A) → All (λ a. p a ≡ true) xs → keep p xs ≡ xs
  keep_whole p [] h = refl
  keep_whole p (x ∷ xs) h = rw h.0 (ap (λ zs. x ∷ zs) (keep_whole p xs h.1))

  -- What one test drops, the other does not leave.
  pub keep-dropped : (p : A → Bool) (xs : List A) → keep p (keep (λ a. not (p a)) xs) ≡ []
  keep-dropped p [] = refl
  keep-dropped p (x ∷ xs) = elim (Bool-cases (p x)) [
    | inl in_it ↦ rw in_it (keep-dropped p xs)
    | inr out ↦ rw (out, out) (keep-dropped p xs)
  ]

module _ {A B : Type 0} (g : A → B) where
  pub All-map : (P : B → Type 0) → ((a : A) → P (g a)) → (xs : List A) → All P (map g xs)
  All-map P h [] = tt
  All-map P h (x ∷ xs) = (h x, All-map P h xs)
