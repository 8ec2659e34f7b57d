-- ===== src/Access/Recipients/Verified.antt =====
-- Nobody outside the roster gets a key without being named as an administrator.
use legends_chat.Common.{
  String, ◌≡◌, ◌↔◌, ◌⊎◌, refl, ap, ◌∙◌, inl, inr, Bool, true, false, not, ◌&&◌, ◌||◌, Option, none,
  some, List, [], ◌∷◌, ◌++◌, arith, includes, includes_iff, to_set, keep, Among, All,
  includes-set_add, includes-append, includes-to_set, length, ltb, ◌==◌, string_eq, eq_iff,
  Bool-cases,
}
use legends_chat.Access.Recipients.{
  Arguments, truthy, and_self, allowed_ids, insert_sorted, sort, kept_ids, refused_ids, shared_ids,
  verify_recipient_set,
}

includes-keep :
    (p : String → Bool) (a : String) (xs : List String)
    → includes a (keep p xs) ≡ (includes a xs && p a)
includes-keep p a [] = refl
includes-keep p a (x ∷ xs) = elim (Bool-cases (x == a)) [
  | inl same ↦ rw ((eq_iff x a).0 same) (ground (arith, eq_iff a a, includes-keep p a xs))
  | inr other ↦ rw other (ground (arith, other, includes-keep p a xs))
]

module _ (before : String → String → Bool) where
  includes-insert_sorted :
      (a b : String) (xs : List String)
      → includes a (insert_sorted before b xs) ≡ ((b == a) || includes a xs)
  unfolding insert_sorted
  includes-insert_sorted a b [] = refl
  includes-insert_sorted a b (x ∷ xs) = ground (arith, includes-insert_sorted a b xs)

  includes-sort : (a : String) (xs : List String) → includes a (sort before xs) ≡ includes a xs
  unfolding sort
  includes-sort a [] = refl
  includes-sort a (x ∷ xs) =
      includes-insert_sorted a x (sort before xs) ∙ ap (λ b. (x == a) || b) (includes-sort a xs)

-- The local user, if it is known.
abbrev pub is_self : Option String → String → Bool
is_self none a = false
is_self (some id) a = id == a

includes-and_self :
    (o : Option String) (a : String) (xs : List String)
    → includes a (and_self o xs) ≡ (includes a xs || is_self o a)
includes-and_self none a xs = ground arith
includes-and_self (some id) a xs = includes-set_add a id xs

-- Whether the clients that check it may give the key to this id.
abbrev pub is_allowed : Arguments → String → Bool
is_allowed args a =
    includes a args.roster_user_ids
    || includes a args.admin_user_ids
    || is_self (truthy args.self_user_id) a

includes-allowed_ids :
    (args : Arguments) (a : String) → includes a (allowed_ids args) ≡ is_allowed args a
unfolding allowed_ids
includes-allowed_ids args a =
    includes-and_self (truthy args.self_user_id) a
      (to_set (args.roster_user_ids ++ args.admin_user_ids))
    ∙ ground (
      arith,
      includes-to_set a (args.roster_user_ids ++ args.admin_user_ids),
      includes-append a args.roster_user_ids args.admin_user_ids,
    )

includes-shared_ids :
    (args : Arguments) (a : String)
    → includes a (shared_ids args) ≡ (
        (includes a args.server_user_ids && is_allowed args a)
        || is_self (truthy args.self_user_id) a)
unfolding shared_ids kept_ids
includes-shared_ids args a =
    includes-and_self (truthy args.self_user_id) a
      (keep (λ id. includes id (allowed_ids args)) (to_set args.server_user_ids))
    ∙ ground (
      arith,
      includes-keep (λ id. includes id (allowed_ids args)) a (to_set args.server_user_ids),
      includes-to_set a args.server_user_ids,
      includes-allowed_ids args a,
    )

-- An id is a recipient exactly if it is the local user, or the server names it and it is in the
-- roster or among the administrators.
pub recipients_iff :
    (before : String → String → Bool) (args : Arguments) (a : String)
    → Among a (verify_recipient_set before args).recipients ↔ (
        (is_self (truthy args.self_user_id) a ≡ true)
        ⊎ (Among a args.server_user_ids
            × (Among a args.roster_user_ids ⊎ Among a args.admin_user_ids)))
unfolding verify_recipient_set
recipients_iff before args a = ground (
  arith,
  includes-sort before a (shared_ids args),
  includes-shared_ids args a,
  includes_iff a (sort before (shared_ids args)),
  includes_iff a args.server_user_ids,
  includes_iff a args.roster_user_ids,
  includes_iff a args.admin_user_ids,
)

-- Every recipient is in the roster, or the local user, or named by the disclosure.
pub recipients_disclosed :
    (before : String → String → Bool) (args : Arguments) (a : String)
    → Among a (verify_recipient_set before args).recipients
    → Among a args.roster_user_ids
      ⊎ (is_self (truthy args.self_user_id) a ≡ true)
      ⊎ Among a (verify_recipient_set before args).disclosed_admin_ids
unfolding verify_recipient_set
recipients_disclosed before args a h =
    let shared = shared_ids args in
    let admins = to_set args.admin_user_ids in
    ground (
      arith,
      includes-sort before a shared,
      includes-shared_ids args a,
      includes_iff a (sort before shared),
      includes_iff a args.roster_user_ids,
      includes-sort before a (keep (λ id. includes id (to_set shared)) admins),
      includes-keep (λ id. includes id (to_set shared)) a admins,
      includes-to_set a shared,
      includes-to_set a args.admin_user_ids,
      includes_iff a (sort before (keep (λ id. includes id (to_set shared)) admins)),
    )

includes-refused_ids :
    (args : Arguments) (a : String)
    → includes a (refused_ids args) ≡ (includes a args.server_user_ids && not (is_allowed args a))
unfolding refused_ids
includes-refused_ids args a =
    includes-keep (λ id. not (includes id (allowed_ids args))) a (to_set args.server_user_ids)
    ∙ ground (arith, includes-to_set a args.server_user_ids, includes-allowed_ids args a)

All-of_members :
    (p : String → Bool) (xs : List String)
    → ((a : String) → includes a xs ≡ true → p a ≡ true)
    → All (λ a. p a ≡ true) xs
All-of_members p [] h = tt
All-of_members p (x ∷ xs) h =
    (h x (rw ((eq_iff x x).1 refl)), All-of_members p xs (λ a there. h a (ground (arith, there))))

member_of_All :
    (p : String → Bool) (a : String) (xs : List String)
    → All (λ x. p x ≡ true) xs
    → includes a xs ≡ true
    → p a ≡ true
member_of_All p a [] h e = cc
member_of_All p a (x ∷ xs) (here, later) e = elim (Bool-cases (x == a)) [
  | inl same ↦ rw (← (eq_iff x a).0 same) here
  | inr other ↦ member_of_All p a xs later (rw other at e)
]

none_refused :
    (refused : List String) (a : String)
    → not (ltb 0 (length refused)) ≡ true
    → includes a refused ≡ false
none_refused [] a e = refl
none_refused (x ∷ refused) a e = absurd (ground arith)

all_kept :
    (refused : List String)
    → ((a : String) → includes a refused ≡ true → ⊥)
    → not (ltb 0 (length refused)) ≡ true
all_kept [] h = refl
all_kept (x ∷ refused) h = absurd (h x (rw ((eq_iff x x).1 refl)))

-- The set is accepted exactly if every id that the server names is in the roster, an
-- administrator or the local user.
pub ok_iff :
    (before : String → String → Bool) (args : Arguments)
    → ((verify_recipient_set before args).ok ≡ true)
      ↔ All (λ a. is_allowed args a ≡ true) args.server_user_ids
unfolding verify_recipient_set
ok_iff before args = (
  λ e.
      All-of_members (is_allowed args) args.server_user_ids (λ a there.
        ground (arith, none_refused (refused_ids args) a e, includes-refused_ids args a)),
  λ h. all_kept (refused_ids args) (λ a there. ground (
    arith,
    member_of_All (is_allowed args) a args.server_user_ids h,
    includes-refused_ids args a,
  )),
)
