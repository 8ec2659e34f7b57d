-- ===== src/Chat/Gates.antt =====
-- apps/ws/src/messages.ts: who may see a topic, who is muted, and the lookups that the handlers make.
use legends_chat.Common.{
  ℕ, String, Bool, true, false, not, ◌&&◌, Option, none, some, List, [], ◌∷◌, map, keep, some_of,
  includes, ltb, ◌==◌, nat_eq, string_eq, if◌then◌else◌,
}
use legends_chat.Access.Topics.{can_view_topic, is_empty, roles_or_none}
use legends_chat.Chat.Tables.{
  RowId, Message, Poll, UserMute, Topic, Button, Database, first, is_null, is_live, AutoDeleteMode,
}
use legends_chat.Chat.World.{World}

unfoldable pub get_topic_by_id : Database → RowId → Option Topic
get_topic_by_id db topic_id = first (keep (λ t. t.id == topic_id) db.topics)

abbrev pub sees : String → Topic → Bool
sees role t = can_view_topic role t.view_roles t.read_roles

-- The password proof: administrators need none, and a topic without a password asks for none.
abbrev pub has_proof : Option ℕ → ℕ → Bool
has_proof none version = false
has_proof (some v) version = v == version

abbrev pub passes : World → RowId → String → Topic → Bool
passes w user_id role t =
    if not (is_null t.password_hash) && not (role == "admin")
    then has_proof (w.proof user_id t.id) t.password_version
    else true

abbrev pub admits : World → RowId → String → Option Topic → Bool
admits w user_id role none = false
admits w user_id role (some t) = if not (sees role t) then false else passes w user_id role t

unfoldable pub user_can_access_topic : World → Database → RowId → String → RowId → Bool
user_can_access_topic w db user_id role topic_id =
    admits w user_id role (get_topic_by_id db topic_id)

abbrev pub visible_to : Option Topic → String → Bool
visible_to none role = false
visible_to (some t) role = sees role t

unfoldable pub user_can_view_topic : Database → String → RowId → Bool
user_can_view_topic db role topic_id = visible_to (get_topic_by_id db topic_id) role

abbrev pub is_unrestricted : Topic → Bool
is_unrestricted t = is_empty (roles_or_none t.view_roles) && is_empty (roles_or_none t.read_roles)

-- `allowed`: the ids of the users asked for who see the topic.
abbrev pub seers : Database → Topic → List RowId → List RowId
seers db t user_ids = map (λ u. u.id) (keep (λ u. includes u.id user_ids && sees u.role t) db.users)

abbrev pub narrowed : Database → Option Topic → List RowId → List RowId
narrowed db none user_ids = []
narrowed db (some t) user_ids =
    if is_unrestricted t then user_ids else keep (λ id. includes id (seers db t user_ids)) user_ids

unfoldable pub filter_users_who_can_view_topic : Database → RowId → List RowId → List RowId
filter_users_who_can_view_topic db topic_id [] = []
filter_users_who_can_view_topic db topic_id (u ∷ us) =
    narrowed db (get_topic_by_id db topic_id) (u ∷ us)

unfoldable pub is_active_mute : ℕ → RowId → UserMute → Bool
is_active_mute now user_id m =
    m.user_id == user_id && is_null m.lifted_at && is_live now m.expires_at

-- `ORDER BY created_at DESC LIMIT 1`
abbrev pub newer : UserMute → Option UserMute → Option UserMute
newer m none = some m
newer m (some n) = if ltb m.created_at n.created_at then some n else some m

unfoldable pub newest : List UserMute → Option UserMute
newest [] = none
newest (m ∷ mutes) = newer m (newest mutes)

unfoldable pub is_user_muted : ℕ → Database → RowId → Option UserMute
is_user_muted now db user_id = newest (keep (is_active_mute now user_id) db.user_mutes)

abbrev pub topic_of : Option Message → Option RowId
topic_of none = none
topic_of (some m) = some m.topic_id

unfoldable pub get_message_topic_id : Database → RowId → Option RowId
get_message_topic_id db message_id = topic_of (first (keep (λ m. m.id == message_id) db.messages))

abbrev pub backing : Database → Option Poll → Option RowId
backing db none = none
backing db (some p) = get_message_topic_id db p.message_id

-- `polls INNER JOIN messages`
unfoldable pub get_poll_topic_id : Database → RowId → Option RowId
get_poll_topic_id db poll_id = backing db (first (keep (λ p. p.id == poll_id) db.polls))

unfoldable pub get_topic_member_user_ids : Database → RowId → List RowId
get_topic_member_user_ids db topic_id =
    map (λ m. m.user_id) (keep (λ m. m.topic_id == topic_id) db.topic_members)

unfoldable pub get_message_owner : Database → RowId → Option Message
get_message_owner db message_id =
    first (keep (λ m. m.id == message_id && is_null m.deleted_at) db.messages)

abbrev pub is_callback : String → Button → Bool
is_callback wanted b = elim b.callback_data [ none ↦ false | some d ↦ d == wanted ]

abbrev pub has_callback : Option (List (List Button)) → String → Bool
has_callback none wanted = false
has_callback (some keyboard) wanted = some_of (λ row. some_of (is_callback wanted) row) keyboard

abbrev pub keyboard_of : Option Message → Option (List (List Button))
keyboard_of none = none
keyboard_of (some m) = m.inline_keyboard

unfoldable pub message_keyboard_has_callback : Database → RowId → String → Bool
message_keyboard_has_callback db message_id wanted =
    has_callback (keyboard_of (get_message_owner db message_id)) wanted

abbrev pub auto_delete_of : Option Topic → Option (AutoDeleteMode × Option ℕ)
auto_delete_of none = none
auto_delete_of (some t) = some (t.auto_delete_mode, t.auto_delete_max_messages)

unfoldable pub get_topic_auto_delete : Database → RowId → Option (AutoDeleteMode × Option ℕ)
get_topic_auto_delete db topic_id = auto_delete_of (get_topic_by_id db topic_id)
