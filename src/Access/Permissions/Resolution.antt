-- ===== src/Access/Permissions/Resolution.antt =====
-- The permissions that overrides leave: the last override that names a permission decides.
use legends_chat.Common.{
  String, ◌≡◌, refl, ◌∙◌, Bool, true, false, Option, none, some, List, [], ◌∷◌, arith, includes,
  to_set, includes-set_add, includes-without, includes-to_set, string_eq, ◌==◌, eq_iff,
  if◌then◌else◌,
}
use legends_chat.Access.Permissions.{
  GrantEffect, allow, deny, PermissionOverride, override_with, override_all, resolve_permissions,
}

-- The effect of the last override that names the permission.
abbrev pub verdict : String → List PermissionOverride → Option GrantEffect
verdict p [] = none
verdict p (o ∷ overrides) = elim (verdict p overrides) [
  | some e ↦ some e
  | none ↦ if o.permission == p then some o.effect else none
]

abbrev pub decided : Option GrantEffect → Bool → Bool
decided none granted = granted
decided (some allow) granted = true
decided (some deny) granted = false

override_all-verdict :
    (p : String) (set : List String) (overrides : List PermissionOverride)
    → includes p (override_all set overrides) ≡ decided (verdict p overrides) (includes p set)
unfolding override_all
override_all-verdict p set [] = refl
override_all-verdict p set (o ∷ overrides) =
    override_all-verdict p (override_with set o) overrides
    ∙ ground (
      arith,
      eq_iff o.permission p,
      eq_iff p o.permission,
      includes-set_add p o.permission set,
      includes-without p o.permission set,
    )

-- A permission is granted exactly if the last override that names it allows it, or if no override
-- names it and the role has it.
pub resolve_permissions-verdict :
    (p : String) (role_perms : List String) (overrides : List PermissionOverride)
    → includes p (resolve_permissions role_perms overrides)
      ≡ decided (verdict p overrides) (includes p role_perms)
unfolding resolve_permissions
resolve_permissions-verdict p role_perms overrides =
    override_all-verdict p (to_set role_perms) overrides
    ∙ ground (arith, includes-to_set p role_perms)
