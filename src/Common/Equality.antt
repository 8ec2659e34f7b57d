-- ===== src/Common/Equality.antt =====
-- Equality tests as an interface, and JavaScript's Set and Array membership over it. A Set is the
-- list of its members in insertion order.
use Prim.Native.Nat.{ℕ}
use Prim.Native.String.{String}
use mathlib.Core.Path.{◌≡◌, refl}
use mathlib.Core.Logic.{◌↔◌, ◌⊎◌, inl, inr}
use mathlib.Core.Bool.{Bool, true, false, not, ◌&&◌, ◌||◌}
use mathlib.Core.List.{List, [], ◌∷◌, ◌++◌}
use native.Mathlib.Omega.{arith}
use text.Mathlib.Text.{◌==◌ as str_eq}
use text.Mathlib.TextEquality.{eq_iff}
use legends_chat.Common.Tests.{nat_beq, nat_beq_iff, Bool-cases, if◌then◌else◌}

pub record Comparable {ℓ} (A : Type ℓ) : Type ℓ where
  pub same : A → A → Bool
  pub same_iff : (a b : A) → (same a b ≡ true) ↔ (a ≡ b)

pub or_true : (b : Bool) → (b || true) ≡ true
or_true true = refl
or_true false = refl

infix 50 ◌==◌
abbrev pub ◌==◌ {ℓ} : {A : Type ℓ} ⦃e : Comparable A⦄ → A → A → Bool
◌==◌ ⦃e⦄ = e.same

module _ {ℓ} {A : Type ℓ} where
  -- `some`, `every` and `filter` of an array.
  abbrev pub some_of : (A → Bool) → List A → Bool
  some_of p [] = false
  some_of p (x ∷ xs) = p x || some_of p xs

  abbrev pub every_of : (A → Bool) → List A → Bool
  every_of p [] = true
  every_of p (x ∷ xs) = p x && every_of p xs

  abbrev pub keep : (A → Bool) → List A → List A
  keep p [] = []
  keep p (x ∷ xs) = if p x then x ∷ keep p xs else keep p xs

instance abbrev pub nat_eq : Comparable ℕ
nat_eq = record { same = nat_beq; same_iff = nat_beq_iff }

module _ {ℓ} {A : Type ℓ} ⦃e : Comparable A⦄ where
  -- `xs.includes(a)`, and `set.has(a)`.
  abbrev pub includes : A → List A → Bool
  includes a xs = some_of (λ x. x == a) xs

  -- `set.add(a)`
  abbrev pub set_add : A → List A → List A
  set_add a s = if includes a s then s else s ++ a ∷ []

  -- `set.delete(a)`, and `xs.filter((x) => x !== a)`
  abbrev pub without : A → List A → List A
  without a s = keep (λ x. not (x == a)) s

  -- `for (const x of xs) s.add(x)`
  unfoldable pub add_all : List A → List A → List A
  add_all s [] = s
  add_all s (x ∷ xs) = add_all (set_add x s) xs

  -- `new Set(xs)`
  unfoldable pub to_set : List A → List A
  unfolding add_all
  to_set xs = add_all [] xs

  pub beq_refl : (a : A) → (a == a) ≡ true
  beq_refl a = (e.same_iff a a).1 refl

  pub includes-append :
      (a : A) (xs ys : List A) → includes a (xs ++ ys) ≡ (includes a xs || includes a ys)
  includes-append a [] ys = refl
  includes-append a (x ∷ xs) ys = ground (arith, includes-append a xs ys)

  includes_of_eq : (a b : A) (s : List A) → a ≡ b → includes a s ≡ includes b s
  includes_of_eq a b s h = rw h

  pub includes-set_add :
      (a b : A) (s : List A) → includes a (set_add b s) ≡ (includes a s || (b == a))
  includes-set_add a b s = elim (Bool-cases (includes b s)) [
    | inl old ↦ elim (Bool-cases (b == a)) [
      | inl same ↦ ground (arith, includes_of_eq b a s ((e.same_iff b a).0 same))
      | inr other ↦ ground arith
    ]
    | inr new ↦ rw new (ground (arith, includes-append a s (b ∷ [])))
  ]

  pub includes-without :
      (a b : A) (s : List A) → includes a (without b s) ≡ (includes a s && not (a == b))
  includes-without a b [] = refl
  includes-without a b (x ∷ s) =
      ground (arith, includes-without a b s, e.same_iff x a, e.same_iff x b, e.same_iff a b)

  pub includes-add_all :
      (a : A) (s xs : List A) → includes a (add_all s xs) ≡ (includes a s || includes a xs)
  unfolding add_all
  includes-add_all a s [] = ground arith
  includes-add_all a s (x ∷ xs) =
      ground (arith, includes-add_all a (set_add x s) xs, includes-set_add a x s)

  pub includes-to_set : (a : A) (xs : List A) → includes a (to_set xs) ≡ includes a xs
  unfolding to_set
  includes-to_set a xs = includes-add_all a [] xs

instance abbrev pub string_eq : Comparable String
string_eq = record { same = str_eq; same_iff = eq_iff }

-- Equality of lists of numbers: of byte strings, and of texts decoded from bytes.
abbrev pub list_beq : List ℕ → List ℕ → Bool
list_beq [] [] = true
list_beq (x ∷ xs) (y ∷ ys) = nat_beq x y && list_beq xs ys
list_beq _ _ = false

pub list_beq_iff : (xs ys : List ℕ) → (list_beq xs ys ≡ true) ↔ (xs ≡ ys)
list_beq_iff [] [] = ground arith
list_beq_iff [] (y ∷ ys) = ground arith
list_beq_iff (x ∷ xs) [] = ground arith
list_beq_iff (x ∷ xs) (y ∷ ys) = ground (arith, list_beq_iff xs ys)

instance abbrev pub list_eq : Comparable (List ℕ)
list_eq = record { same = list_beq; same_iff = list_beq_iff }

-- Membership as a proposition on its own, by recursion.
module _ {ℓ} {A : Type ℓ} where
  abbrev pub Any : (A → Type 0) → List A → Type 0
  Any P [] = ⊥
  Any P (x ∷ xs) = P x ⊎ Any P xs

  pub some_of_iff :
      (p : A → Bool) (P : A → Type 0)
      → ((x : A) → (p x ≡ true) ↔ P x)
      → (xs : List A) → (some_of p xs ≡ true) ↔ Any P xs
  some_of_iff p P h [] = (λ e. cc, λ e. absurd e)
  some_of_iff p P h (x ∷ xs) = (
    λ e. elim (Bool-cases (p x)) [
      | inl here ↦ inl ((h x).0 here)
      | inr away ↦ inr ((some_of_iff p P h xs).0 (rw away at e))
    ],
    λ e. elim e [
      | inl here ↦ rw ((h x).1 here)
      | inr later ↦ rw ((some_of_iff p P h xs).1 later) (or_true (p x))
    ],
  )

abbrev pub Among : {A : Type 0} → A → List A → Type 0
Among a xs = Any (λ x. x ≡ a) xs

pub includes_iff :
    {A : Type 0} ⦃e : Comparable A⦄ (a : A) (xs : List A) → (includes a xs ≡ true) ↔ Among a xs
includes_iff ⦃e⦄ a xs = some_of_iff (λ x. x == a) (λ x. x ≡ a) (λ x. e.same_iff x a) xs
