-- ===== src/Access/Tests.antt =====
-- packages/shared/src/permissions.ts and e2ee-recipients.ts: the functions run on small inputs, and
-- the theorems applied to them.
use legends_chat.Common.{
  String, ◌≡◌, ◌↔◌, ◌⊎◌, refl, inl, inr, Bool, true, false, none, some, List, [], ◌∷◌, includes,
  Among, All, string_eq, to_set, add_all,
}
use legends_chat.Image.Bytes.{codes}
use legends_chat.Access.Permissions.{
  allow, deny, PermissionOverride, override_all, resolve_permissions, permission_values, slug_rest,
  strip, topic_perm_re, is_valid_permission,
}
use legends_chat.Access.Permissions.Resolution.{resolve_permissions-verdict}
use legends_chat.Access.Permissions.Names.{IsTopicPermission, is_valid_permission_iff}
use legends_chat.Access.Topics.{TopicGrant, view, post, can_principal, can_view_topic}
use legends_chat.Access.Topics.Rules.{HasGrant, Admits, can_principal_iff, can_view_topic_iff}
use legends_chat.Access.Recipients.{
  Arguments, truthy, allowed_ids, insert_sorted, sort, kept_ids, refused_ids, shared_ids,
  verify_recipient_set,
}
use legends_chat.Access.Recipients.Verified.{
  is_self, is_allowed, recipients_iff, recipients_disclosed, ok_iff,
}

abbrev overrides : List PermissionOverride
overrides =
    record { permission = "invites.create"; effect = deny }
    ∷ record { permission = "bots.manage"; effect = deny }
    ∷ record { permission = "bots.manage"; effect = allow }
    ∷ []

abbrev role_permissions : List String
role_permissions = "invites.create" ∷ "messages.flag" ∷ []

resolve_test : resolve_permissions role_permissions overrides ≡ "messages.flag" ∷ "bots.manage" ∷ []
unfolding resolve_permissions override_all to_set add_all
resolve_test = refl

resolve_permissions-verdict_example :
    includes "bots.manage" (resolve_permissions role_permissions overrides) ≡ true
resolve_permissions-verdict_example =
    resolve_permissions-verdict "bots.manage" role_permissions overrides

names_test :
    (is_valid_permission "topics.create" ≡ true)
    × (is_valid_permission "topic.general-chat.post" ≡ true)
    × (is_valid_permission "topic.general.erase" ≡ false)
    × (is_valid_permission "topic._x.view" ≡ false)
unfolding is_valid_permission topic_perm_re strip slug_rest
names_test = (refl, refl, refl, refl)

is_valid_permission_iff_example : (is_valid_permission "topic.general-chat.post" ≡ true) ↔ (
    Among "topic.general-chat.post" permission_values
    ⊎ IsTopicPermission (codes "topic.general-chat.post"))
is_valid_permission_iff_example = is_valid_permission_iff "topic.general-chat.post"

abbrev member : String
member = "member"

abbrev vip : String
vip = "vip"

abbrev grants : List TopicGrant
grants =
    record { action = "post"; effect = allow }
    ∷ record { action = "post"; effect = deny }
    ∷ record { action = "view"; effect = allow }
    ∷ []

grants_test :
    (can_principal grants [] "member" post ≡ false)
    × (can_principal grants ("vip" ∷ []) "member" view ≡ true)
    × (can_principal grants [] "admin" post ≡ true)
    × (can_principal [] ("vip" ∷ []) "member" view ≡ false)
unfolding can_principal
grants_test = (refl, refl, refl, refl)

can_principal_iff_example : (can_principal grants ("vip" ∷ []) "member" post ≡ true) ↔ (
    (member ≡ "admin")
    ⊎ (¬ HasGrant deny post grants × (HasGrant allow post grants ⊎ Admits ("vip" ∷ []) "member")))
can_principal_iff_example = can_principal_iff grants ("vip" ∷ []) "member" post

view_test :
    (can_view_topic "member" none none ≡ true)
    × (can_view_topic "member" (some ("vip" ∷ [])) none ≡ false)
    × (can_view_topic "vip" (some ("vip" ∷ [])) (some ("member" ∷ [])) ≡ false)
unfolding can_view_topic
view_test = (refl, refl, refl)

can_view_topic_iff_example :
    (can_view_topic "vip" (some ("vip" ∷ [])) none ≡ true)
    ↔ ((vip ≡ "admin") ⊎ (Admits ("vip" ∷ []) "vip" × Admits [] "vip"))
can_view_topic_iff_example = can_view_topic_iff "vip" (some ("vip" ∷ [])) none

-- The server adds a ghost; the roster names two users, the disclosure an administrator.
abbrev room : Arguments
room = record {
  server_user_ids = "ann" ∷ "ghost" ∷ "root" ∷ [];
  roster_user_ids = "ann" ∷ "bob" ∷ [];
  admin_user_ids = "root" ∷ [];
  self_user_id = some "bob";
}

-- An order for the tests: everything stays where it is.
abbrev unsorted : String → String → Bool
unsorted a b = true

recipients_test : verify_recipient_set unsorted room ≡ record {
  recipients = "ann" ∷ "root" ∷ "bob" ∷ [];
  rejected = "ghost" ∷ [];
  disclosed_admin_ids = "root" ∷ [];
  ok = false;
}
unfolding verify_recipient_set shared_ids kept_ids refused_ids allowed_ids sort insert_sorted to_set
    add_all
recipients_test = refl

root_is_recipient : Among "root" (verify_recipient_set unsorted room).recipients
unfolding verify_recipient_set shared_ids kept_ids refused_ids allowed_ids sort insert_sorted to_set
    add_all
root_is_recipient = inr (inl refl)

recipients_iff_example : Among "root" (verify_recipient_set unsorted room).recipients ↔ (
    (is_self (truthy (some "bob")) "root" ≡ true)
    ⊎ (Among "root" room.server_user_ids
        × (Among "root" room.roster_user_ids ⊎ Among "root" room.admin_user_ids)))
recipients_iff_example = recipients_iff unsorted room "root"

recipients_disclosed_example :
    Among "root" room.roster_user_ids
    ⊎ (is_self (truthy (some "bob")) "root" ≡ true)
    ⊎ Among "root" (verify_recipient_set unsorted room).disclosed_admin_ids
recipients_disclosed_example = recipients_disclosed unsorted room "root" root_is_recipient

ok_iff_example :
    ((verify_recipient_set unsorted room).ok ≡ true)
    ↔ All (λ a. is_allowed room a ≡ true) room.server_user_ids
ok_iff_example = ok_iff unsorted room
