-- ===== src/Access/Permissions.antt =====
-- Permissions and their overrides (packages/shared/src/permissions.ts).
pub mod Resolution
pub mod Names
use legends_chat.Common.{
  ℕ, zero, suc, ◌+◌, String, Bool, true, false, ◌&&◌, ◌||◌, Option, none, some, List, [], ◌∷◌, ◌++◌,
  length, includes, set_add, without, leb, ◌==◌, nat_eq, list_eq, string_eq, if◌then◌else◌, to_set,
}
use legends_chat.Image.Bytes.{codes}

pub data GrantEffect : Type 0 where
  allow deny : GrantEffect

pub record PermissionOverride : Type 0 where
  pub permission : String
  pub effect : GrantEffect

-- A round of the loop over the overrides.
abbrev pub override_with : List String → PermissionOverride → List String
override_with set o = elim o.effect [
  | allow ↦ set_add o.permission set
  | deny ↦ without o.permission set
]

unfoldable pub override_all : List String → List PermissionOverride → List String
override_all set [] = set
override_all set (o ∷ overrides) = override_all (override_with set o) overrides

unfoldable pub resolve_permissions : List String → List PermissionOverride → List String
resolve_permissions role_perms overrides = override_all (to_set role_perms) overrides

abbrev pub permission_values : List String
permission_values =
    "topics.create" ∷ "topics.manage" ∷ "messages.delete.own" ∷ "messages.delete.any"
    ∷ "messages.edit.own" ∷ "messages.edit.any" ∷ "messages.flag" ∷ "invites.create"
    ∷ "invites.create.elevated" ∷ "bots.manage" ∷ "moderation.queue.review" ∷ "users.ban.direct"
    ∷ "users.ban.lift" ∷ "users.mute.direct" ∷ "users.mute.lift" ∷ "admin.config"
    ∷ "content.attachment" ∷ "content.gif.upload" ∷ "content.upload.original" ∷ []

abbrev pub default_user_permissions : List String
default_user_permissions =
    "messages.delete.own" ∷ "messages.edit.own" ∷ "messages.flag" ∷ "invites.create"
    ∷ "content.attachment" ∷ []

abbrev pub default_moderator_permissions : List String
default_moderator_permissions =
    "messages.delete.own" ∷ "messages.delete.any" ∷ "messages.edit.own" ∷ "messages.edit.any"
    ∷ "messages.flag" ∷ "invites.create" ∷ "moderation.queue.review" ∷ "users.ban.direct"
    ∷ "users.mute.direct" ∷ "users.mute.lift" ∷ "topics.create" ∷ "content.attachment"
    ∷ "content.gif.upload" ∷ []

-- `can(user, permission)`; `none` is a missing user.
unfoldable pub can : Option (List String) → String → Bool
can none permission = false
can (some permissions) permission = includes permission permissions

-- The character classes of TOPIC_PERM_RE.
abbrev pub is_slug_head : ℕ → Bool
is_slug_head c = leb b'a' c && leb c b'z' || leb b'0' c && leb c b'9'

abbrev pub is_slug_char : ℕ → Bool
is_slug_char c = is_slug_head c || c == b'_' || c == b'-'

abbrev pub topic_actions : List (List ℕ)
topic_actions = codes "view" ∷ codes "read" ∷ codes "post" ∷ codes "reply" ∷ []

-- The rest of the expression behind the slug's first character: up to `room` characters of the
-- slug, a dot, and an action. No slug character is a dot, so the match needs no backtracking.
unfoldable pub slug_rest : ℕ → List ℕ → Bool
slug_rest room [] = false
slug_rest zero (c ∷ cs) = c == b'.' && includes cs topic_actions
slug_rest (suc room) (c ∷ cs) =
    let more = slug_rest room cs in
    if is_slug_char c then more else c == b'.' && includes cs topic_actions

-- What follows `prefix` in a text that begins with it.
unfoldable pub strip : List ℕ → List ℕ → Option (List ℕ)
strip [] cs = some cs
strip (p ∷ ps) [] = none
strip (p ∷ ps) (c ∷ cs) = let rest = strip ps cs in if p == c then rest else none

abbrev pub slug_at : Option (List ℕ) → Bool
slug_at none = false
slug_at (some []) = false
slug_at (some (c ∷ cs)) = is_slug_head c && slug_rest 63 cs

-- `TOPIC_PERM_RE.test(perm)`
unfoldable pub topic_perm_re : List ℕ → Bool
topic_perm_re cs = slug_at (strip (codes "topic.") cs)

unfoldable pub is_valid_permission : String → Bool
is_valid_permission perm =
    if includes perm permission_values then true else topic_perm_re (codes perm)
