-- ===== src/Access/Recipients.antt =====
-- `verifyRecipientSet` (packages/shared/src/e2ee-recipients.ts). Ids are texts; `before` is the
-- order by which `Array.prototype.sort` puts them.
pub mod Verified
use legends_chat.Common.{
  String, Bool, true, false, not, ◌||◌, Option, none, some, List, [], ◌∷◌, ◌++◌, includes, set_add,
  add_all, to_set, keep, length, ltb, ◌==◌, string_eq, if◌then◌else◌,
}

pub record RecipientVerification : Type 0 where
  pub recipients : List String
  pub rejected : List String
  pub disclosed_admin_ids : List String
  pub ok : Bool

pub record Arguments : Type 0 where
  pub server_user_ids : List String
  pub roster_user_ids : List String
  pub admin_user_ids : List String
  pub self_user_id : Option String

-- `if (args.selfUserId)`: a missing id and the empty text are both falsy.
abbrev pub truthy : Option String → Option String
truthy none = none
truthy (some id) = if id == "" then none else some id

abbrev pub and_self : Option String → List String → List String
and_self none ids = ids
and_self (some id) ids = set_add id ids

unfoldable pub allowed_ids : Arguments → List String
allowed_ids args =
    and_self (truthy args.self_user_id) (to_set (args.roster_user_ids ++ args.admin_user_ids))

module _ (before : String → String → Bool) where
  unfoldable pub insert_sorted : String → List String → List String
  insert_sorted a [] = a ∷ []
  insert_sorted a (x ∷ xs) = if before a x then a ∷ x ∷ xs else x ∷ insert_sorted a xs

  unfoldable pub sort : List String → List String
  sort [] = []
  sort (x ∷ xs) = insert_sorted x (sort xs)

-- The ids that the server names, each once, split by `allowed.has`.
unfoldable pub kept_ids : Arguments → List String
kept_ids args = keep (λ id. includes id (allowed_ids args)) (to_set args.server_user_ids)

unfoldable pub refused_ids : Arguments → List String
refused_ids args = keep (λ id. not (includes id (allowed_ids args))) (to_set args.server_user_ids)

-- `if (selfUserId && !recipients.includes(selfUserId)) recipients.push(selfUserId)`
unfoldable pub shared_ids : Arguments → List String
shared_ids args = and_self (truthy args.self_user_id) (kept_ids args)

unfoldable pub verify_recipient_set : (String → String → Bool) → Arguments → RecipientVerification
verify_recipient_set before args = record {
  recipients = sort before (shared_ids args);
  rejected = sort before (refused_ids args);
  disclosed_admin_ids =
      sort before
        (keep (λ id. includes id (to_set (shared_ids args))) (to_set args.admin_user_ids));
  ok = not (ltb 0 (length (refused_ids args)));
}
