-- ===== src/Access/Topics/Rules.antt =====
-- The rules that the comments of `canPrincipal` and `canViewTopic` number, as propositions.
use legends_chat.Common.{
  String, ◌≡◌, ◌↔◌, ◌⊎◌, refl, inl, inr, Bool, true, false, not, ◌&&◌, Option, List, [], ◌∷◌, arith,
  includes, includes_iff, some_of, Any, Among, ◌==◌, string_eq, eq_iff, if◌then◌else◌, Bool-cases,
}
use legends_chat.Access.Permissions.{GrantEffect, allow, deny}
use legends_chat.Access.Topics.{
  GrantAction, action_name, TopicGrant, is_deny, is_allow, is_empty, for_action, can_principal,
  roles_or_none, can_view_topic,
}

-- A grant with this effect for this action.
abbrev pub HasGrant : GrantEffect → GrantAction → List TopicGrant → Type 0
HasGrant effect action grants =
    Any (λ g. (g.action ≡ action_name action) × (g.effect ≡ effect)) grants

has_deny_iff :
    (action : GrantAction) (grants : List TopicGrant)
    → (some_of is_deny (for_action action grants) ≡ true) ↔ HasGrant deny action grants
has_deny_iff action [] = (λ e. cc, λ e. absurd e)
has_deny_iff action (g ∷ grants) =
    ground (arith, eq_iff g.action (action_name action), has_deny_iff action grants)

has_allow_iff :
    (action : GrantAction) (grants : List TopicGrant)
    → (some_of is_allow (for_action action grants) ≡ true) ↔ HasGrant allow action grants
has_allow_iff action [] = (λ e. cc, λ e. absurd e)
has_allow_iff action (g ∷ grants) =
    ground (arith, eq_iff g.action (action_name action), has_allow_iff action grants)

-- The roles of a list that restricts: an empty list restricts nothing.
abbrev pub Admits : List String → String → Type 0
Admits roles role = (roles ≡ []) ⊎ Among role roles

Admits-role :
    (roles : List String) (role : String)
    → (if is_empty roles then true else includes role roles) ≡ true
    → Admits roles role
Admits-role [] role h = inl refl
Admits-role (r ∷ roles) role h = inr ((includes_iff role (r ∷ roles)).0 h)

role_admitted :
    (roles : List String) (role : String)
    → Admits roles role
    → (if is_empty roles then true else includes role roles) ≡ true
role_admitted [] role h = refl
role_admitted (r ∷ roles) role (inl none) = cc
role_admitted (r ∷ roles) role (inr there) = (includes_iff role (r ∷ roles)).1 there

-- An action in a topic is allowed exactly to administrators, and to those whom no deny grant
-- names and whom an allow grant or the topic's roles admit.
pub can_principal_iff :
    (grants : List TopicGrant) (roles : List String) (role : String) (action : GrantAction)
    → (can_principal grants roles role action ≡ true) ↔ (
        (role ≡ "admin")
        ⊎ (¬ HasGrant deny action grants × (HasGrant allow action grants ⊎ Admits roles role)))
unfolding can_principal
can_principal_iff grants roles role action = (
  λ e. elim (Bool-cases (role == "admin")) [
    | inl admin ↦ inl ((eq_iff role "admin").0 admin)
    | inr other ↦ elim (Bool-cases (some_of is_deny (for_action action grants))) [
      | inl denied ↦ cc (rw (other, denied) at e)
      | inr open_to ↦ inr (
        λ d. cc ((has_deny_iff action grants).1 d),
        elim (Bool-cases (some_of is_allow (for_action action grants))) [
          | inl allowed ↦ inl ((has_allow_iff action grants).0 allowed)
          | inr unnamed ↦ inr (Admits-role roles role (rw (other, open_to, unnamed) at e))
        ],
      )
    ]
  ],
  λ h. elim h [
    | inl admin ↦ rw ((eq_iff role "admin").1 admin)
    | inr (undenied, admitted) ↦ elim (Bool-cases (role == "admin")) [
      | inl admin ↦ rw admin
      | inr other ↦ elim (Bool-cases (some_of is_deny (for_action action grants))) [
        | inl denied ↦ absurd (undenied ((has_deny_iff action grants).0 denied))
        | inr open_to ↦
            rw (other, open_to)
              (elim (Bool-cases (some_of is_allow (for_action action grants))) [
                | inl allowed ↦ rw allowed
                | inr unnamed ↦ rw unnamed (elim admitted [
                  | inl allowed ↦ cc ((has_allow_iff action grants).1 allowed)
                  | inr role_fits ↦ role_admitted roles role role_fits
                ])
              ])
      ]
    ]
  ],
)

-- The test by which `canViewTopic` shuts a role out.
abbrev shut : List String → String → Bool
shut roles role = not (is_empty roles) && not (includes role roles)

Admits-open : (roles : List String) (role : String) → shut roles role ≡ false → Admits roles role
Admits-open [] role h = inl refl
Admits-open (r ∷ roles) role h = inr ((includes_iff role (r ∷ roles)).0 (ground arith))

open-Admits : (roles : List String) (role : String) → Admits roles role → shut roles role ≡ false
open-Admits [] role h = refl
open-Admits (r ∷ roles) role (inl none) = cc
open-Admits (r ∷ roles) role (inr there) = rw ((includes_iff role (r ∷ roles)).1 there)

-- A topic is visible exactly to administrators, and to roles that both of its lists admit.
pub can_view_topic_iff :
    (role : String) (view_roles read_roles : Option (List String))
    → (can_view_topic role view_roles read_roles ≡ true) ↔ (
        (role ≡ "admin")
        ⊎ (Admits (roles_or_none view_roles) role × Admits (roles_or_none read_roles) role))
unfolding can_view_topic
can_view_topic_iff role view_roles read_roles = (
  λ e. elim (Bool-cases (role == "admin")) [
    | inl admin ↦ inl ((eq_iff role "admin").0 admin)
    | inr other ↦ elim (Bool-cases (shut (roles_or_none view_roles) role)) [
      | inl unseen ↦ cc (rw (other, unseen) at e)
      | inr seen ↦ elim (Bool-cases (shut (roles_or_none read_roles) role)) [
        | inl unread ↦ cc (rw (other, seen, unread) at e)
        | inr readable ↦ inr (Admits-open _ role seen, Admits-open _ role readable)
      ]
    ]
  ],
  λ h. elim h [
    | inl admin ↦ rw ((eq_iff role "admin").1 admin)
    | inr (viewer, reader) ↦ elim (Bool-cases (role == "admin")) [
      | inl admin ↦ rw admin
      | inr other ↦ rw (other, open-Admits _ role viewer, open-Admits _ role reader)
    ]
  ],
)
