-- ===== src/Image/Scan.antt =====
-- What a scan reports, and the loop that the four container walkers share.
use legends_chat.Common.{
  ℕ, zero, suc, String, ◌≡◌, ◌≢◌, Bool, true, false, not, Option, none, some, List, [], ◌∷◌,
  includes, set_add, some_of, length, ltb, Option-cases, inl, inr, subst, string_eq,
}
use Prim.Native.String

pub record MetadataScan : Type 0 where
  pub found : Bool
  pub kinds : List String
  pub blocking : Bool
  pub malformed : Bool

abbrev pub max_segments : ℕ
max_segments = 1000

abbrev pub non_blocking_kinds : List String
non_blocking_kinds = "icc" ∷ []

unfoldable pub malformed : String → MetadataScan
malformed reason = record {
  found = true;
  kinds = String.◌++◌ "malformed:" reason ∷ [];
  blocking = true;
  malformed = true;
}

unfoldable pub result : List String → MetadataScan
result kinds = record {
  found = ltb 0 (length kinds);
  kinds = kinds;
  blocking = some_of (λ k. not (includes k non_blocking_kinds)) kinds;
  malformed = false;
}

abbrev pub add_kind : Option String → List String → List String
add_kind none kinds = kinds
add_kind (some k) kinds = set_add k kinds

-- What one round of a walker's loop does: `return malformed(reason)`, `break`, or go on.
pub data Step (S : Type 0) : Type 0 where
  reject : String → Step S
  leave advance : S → Step S

-- How the loop ended: by a return, by its `break`, or by its condition.
pub data Exit (S : Type 0) : Type 0 where
  rejected : String → Exit S
  broke ended : S → Exit S

module _ {S : Type 0} where
  -- `while (segs < MAX_SEGMENTS) { … }`, over the rounds left. `none` is an exception.
  unfoldable pub walk : ℕ → (S → Option (Step S)) → S → Option (Exit S)
  walk zero step s = some (ended s)
  walk (suc rounds) step s = elim (step s) [
    | none ↦ none
    | some (reject reason) ↦ some (rejected reason)
    | some (leave s') ↦ some (broke s')
    | some (advance s') ↦ walk rounds step s'
  ]

  module _ (n : ℕ) (step : S → Option (Step S)) (s : S) where
    pub walk_throws : step s ≡ none → walk (suc n) step s ≡ none
    unfolding walk
    walk_throws e = rw (e, walk)

    pub walk_rejected :
        {reason : String}
        → step s ≡ some (reject reason)
        → walk (suc n) step s ≡ some (rejected reason)
    unfolding walk
    walk_rejected e = rw (e, walk)

    pub walk_broke : {s' : S} → step s ≡ some (leave s') → walk (suc n) step s ≡ some (broke s')
    unfolding walk
    walk_broke e = rw (e, walk)

    pub walk_on : {s' : S} → step s ≡ some (advance s') → walk (suc n) step s ≡ walk n step s'
    unfolding walk
    walk_on e = rw (e, walk)

  -- A loop whose rounds never throw does not throw.
  pub walk_total :
      (n : ℕ) (step : S → Option (Step S)) (s : S)
      → ((s' : S) → step s' ≢ none)
      → walk n step s ≢ none
  unfolding walk
  walk_total zero step s safe = cc
  walk_total (suc n) step s safe = elim (Option-cases (step s)) [
    | inl thrown ↦ absurd (safe s thrown)
    | inr (reject reason, e) ↦ rw (walk_rejected n step s e) (cc)
    | inr (leave s', e) ↦ rw (walk_broke n step s e) (cc)
    | inr (advance s', e) ↦ rw (walk_on n step s e) (walk_total n step s' safe)
  ]

  -- What a loop establishes, from what its rounds do.
  pub walk_rule :
      (Good : S → Exit S → Type 0) (step : S → Option (Step S))
      → ((s : S) → Good s (ended s))
      → ((s : S) (reason : String) → step s ≡ some (reject reason) → Good s (rejected reason))
      → ((s s' : S) → step s ≡ some (leave s') → Good s (broke s'))
      → ((s s' : S) (x : Exit S) → step s ≡ some (advance s') → Good s' x → Good s x)
      → (n : ℕ) (s : S) (x : Exit S) → walk n step s ≡ some x
      → Good s x
  unfolding walk
  walk_rule Good step stops rejects leaves goes zero s x e =
      subst (Good s) (let same : ended s ≡ x = cc in same) (stops s)
  walk_rule Good step stops rejects leaves goes (suc n) s x e = elim (Option-cases (step s)) [
    | inl thrown ↦ cc (walk_throws n step s thrown)
    | inr (reject reason, h) ↦
        subst (Good s) (let same : rejected reason ≡ x = cc (walk_rejected n step s h) in same)
          (rejects s reason h)
    | inr (leave s', h) ↦
        subst (Good s) (let same : broke s' ≡ x = cc (walk_broke n step s h) in same)
          (leaves s s' h)
    | inr (advance s', h) ↦
        goes s s' x h
          (walk_rule Good step stops rejects leaves goes n s' x (rw (walk_on n step s h) at e))
  ]
