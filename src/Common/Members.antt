-- ===== src/Common/Members.antt =====
-- What is among the rows that `map`, `keep` and `++` give.
use mathlib.Core.Path.{◌≡◌, refl, sym, ap, ◌∙◌}
use mathlib.Core.Logic.{◌⊎◌, inl, inr}
use mathlib.Core.Bool.{Bool, true}
use mathlib.Core.List.{List, [], ◌∷◌, ◌++◌, map}
use legends_chat.Common.Tests.{Bool-cases}
use legends_chat.Common.Equality.{Any, Among, keep}

module _ {A : Type 0} where
  pub Among-append : (a : A) (xs ys : List A) → Among a (xs ++ ys) → Among a xs ⊎ Among a ys
  Among-append a [] ys m = inr m
  Among-append a (x ∷ xs) ys (inl here) = inl (inl here)
  Among-append a (x ∷ xs) ys (inr later) = elim (Among-append a xs ys later) [
    | inl m ↦ inl (inr m)
    | inr m ↦ inr m
  ]

  pub Any-append : (P : A → Type 0) (xs ys : List A) → Any P xs ⊎ Any P ys → Any P (xs ++ ys)
  Any-append P [] ys (inl away) = absurd away
  Any-append P [] ys (inr m) = m
  Any-append P (x ∷ xs) ys (inl (inl here)) = inl here
  Any-append P (x ∷ xs) ys (inl (inr later)) = inr (Any-append P xs ys (inl later))
  Any-append P (x ∷ xs) ys (inr m) = inr (Any-append P xs ys (inr m))

  pub Among-keep :
      (p : A → Bool) (a : A) (xs : List A) → Among a (keep p xs) → Among a xs × (p a ≡ true)
  Among-keep p a [] m = absurd m
  Among-keep p a (x ∷ xs) m = elim (Bool-cases (p x)) [
    | inl in_it ↦ elim (rw in_it at m) [
      | inl here ↦ (inl here, ap p (sym here) ∙ in_it)
      | inr later ↦ let both = Among-keep p a xs later in (inr both.0, both.1)
    ]
    | inr out ↦ let both = Among-keep p a xs (rw out at m) in (inr both.0, both.1)
  ]

module _ {A B : Type 0} (g : A → B) where
  pub Among-map : (b : B) (xs : List A) → Among b (map g xs) → (a : A) × Among a xs × (g a ≡ b)
  Among-map b [] m = absurd m
  Among-map b (x ∷ xs) (inl here) = (x, inl refl, here)
  Among-map b (x ∷ xs) (inr later) =
      let found = Among-map b xs later in (found.0, inr found.1, found.2)

  pub Any-map :
      (P : A → Type 0) (Q : B → Type 0)
      → ((a : A) → P a → Q (g a))
      → (xs : List A) → Any P xs
      → Any Q (map g xs)
  Any-map P Q h [] m = m
  Any-map P Q h (x ∷ xs) (inl here) = inl (h x here)
  Any-map P Q h (x ∷ xs) (inr later) = inr (Any-map P Q h xs later)
