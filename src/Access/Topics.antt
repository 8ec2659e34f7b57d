-- ===== src/Access/Topics.antt =====
-- `canPrincipal` and `canViewTopic` (packages/shared/src/permissions.ts).
pub mod Rules
use legends_chat.Common.{
  String, Bool, true, false, not, ◌&&◌, Option, none, some, List, [], ◌∷◌, includes, some_of, keep,
  ◌==◌, string_eq, if◌then◌else◌,
}
use legends_chat.Access.Permissions.{GrantEffect, allow, deny}

pub data GrantAction : Type 0 where
  view read post reply : GrantAction

abbrev pub action_name : GrantAction → String
action_name view = "view"
action_name read = "read"
action_name post = "post"
action_name reply = "reply"

-- A grant as it is stored: its action is any text.
pub record TopicGrant : Type 0 where
  pub action : String
  pub effect : GrantEffect

abbrev pub is_deny : TopicGrant → Bool
is_deny g = elim g.effect [ allow ↦ false | deny ↦ true ]

abbrev pub is_allow : TopicGrant → Bool
is_allow g = elim g.effect [ allow ↦ true | deny ↦ false ]

abbrev pub is_empty : List String → Bool
is_empty [] = true
is_empty (_ ∷ _) = false

abbrev pub for_action : GrantAction → List TopicGrant → List TopicGrant
for_action action grants = keep (λ g. g.action == action_name action) grants

unfoldable pub can_principal : List TopicGrant → List String → String → GrantAction → Bool
can_principal grants action_roles principal_role action =
    if principal_role == "admin"
    then true
    else if some_of is_deny (for_action action grants)
    then false
    else if some_of is_allow (for_action action grants)
    then true
    else if is_empty action_roles
    then true
    else includes principal_role action_roles

-- `roles ?? []`
abbrev pub roles_or_none : Option (List String) → List String
roles_or_none none = []
roles_or_none (some roles) = roles

unfoldable pub can_view_topic : String → Option (List String) → Option (List String) → Bool
can_view_topic principal_role view_roles read_roles =
    if principal_role == "admin"
    then true
    else if not (is_empty (roles_or_none view_roles))
        && not (includes principal_role (roles_or_none view_roles))
    then false
    else if not (is_empty (roles_or_none read_roles))
        && not (includes principal_role (roles_or_none read_roles))
    then false
    else true
