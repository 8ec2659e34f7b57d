-- ===== src/Chat/Posting.antt =====
-- apps/ws/src/index.ts: the handler of a message that is sent. What zod parses is the argument; a
-- payload that does not parse is answered with its error and does nothing else.
use legends_chat.Common.{
  ℕ, String, Bool, false, not, ◌&&◌, ◌||◌, Option, none, some, List, [], ◌∷◌, ◌++◌, map, keep, take,
  every_of, ltb, ◌==◌, nat_eq, string_eq, if◌then◌else◌,
}
use legends_chat.Image.Bytes.{codes}
use legends_chat.Ssrf.{between}
use legends_chat.Access.Permissions.{GrantEffect, allow, deny}
use legends_chat.Access.Topics.{post, reply, TopicGrant, can_principal, roles_or_none}
use legends_chat.Chat.Tables.{
  RowId, Json, Items, PrincipalGrant, Topic, AutoDeleteMode, by_count, Database, is_null, is_live,
}
use legends_chat.Chat.World.{
  World, Caller, InsertedMessage, PollData, Event, message_new, message_edit, message_delete,
  reaction_add, reaction_remove, poll_updated, hashtag_cloud, Emit, to_topic, sidebar, Task, notify,
  push, webhooks, callback, purge, Reply, ok, failed, ok_message, ok_votes, ok_reaction, Server,
}
use legends_chat.Chat.World as world
use legends_chat.Chat.Content.{has_items}
use legends_chat.Chat.Gates.{
  user_can_access_topic, is_user_muted, get_topic_by_id, get_topic_member_user_ids,
  filter_users_who_can_view_topic, get_topic_auto_delete,
}
use legends_chat.Chat.Messages.{NewMessage, is_blank, is_sealed, insert_message}

-- What `sendMessageSchema` and `messageEditSchema` parse.
pub record SendMessage : Type 0 where
  pub topic_id : RowId
  pub body : String
  pub ciphertext_json : Option Json
  pub reply_to_message_id : Option RowId
  pub attachments : Items
  pub hashtags : List String

pub record EditMessage : Type 0 where
  pub message_id : RowId
  pub topic_id : RowId
  pub body : Option String
  pub ciphertext_json : Option Json

-- Their refinements: an envelope, or text or attachments, and not both.
unfoldable pub is_coherent : SendMessage → Bool
is_coherent m =
    if is_sealed m.ciphertext_json
    then is_blank m.body && not (has_items m.attachments)
    else not (is_blank m.body) || has_items m.attachments

abbrev pub has_text : Option String → Bool
has_text none = false
has_text (some t) = not (is_blank t)

unfoldable pub is_coherent_edit : EditMessage → Bool
is_coherent_edit m = if is_sealed m.ciphertext_json then not (has_text m.body) else has_text m.body

abbrev pub answer : Reply → Server → Reply × Server
answer r s = (r, s)

abbrev pub emit : List Emit → Server → Server
emit events s = record s { emitted = s.emitted ++ events }

abbrev pub start : List Task → Server → Server
start more s = record s { tasks = s.tasks ++ more }

-- The user's grants in the topic that have not expired.
abbrev pub is_grant_of : ℕ → RowId → RowId → PrincipalGrant → Bool
is_grant_of now topic_id user_id g =
    g.topic_id == topic_id
    && g.principal_type == "user"
    && g.principal_id == user_id
    && is_live now g.expires_at

abbrev pub effect_of : String → GrantEffect
effect_of e = if e == "deny" then deny else allow

-- `canPrincipal` looks for these effects; a grant with another text has none.
abbrev pub is_effect : String → Bool
is_effect e = e == "deny" || e == "allow"

unfoldable pub grants_of : World → Database → RowId → RowId → List TopicGrant
grants_of w db topic_id user_id =
    map (λ g. record { action = g.action; effect = effect_of g.effect })
      (keep (λ g. is_grant_of w.now topic_id user_id g && is_effect g.effect)
        db.topic_principal_grants)

-- `topic?.isFeed`, `topic?.isE2ee ?? false`, `topic?.replyRoles ?? []` and their like.
abbrev pub is_feed : Option Topic → Bool
is_feed none = false
is_feed (some t) = t.is_feed

abbrev pub is_e2ee : Option Topic → Bool
is_e2ee none = false
is_e2ee (some t) = t.is_e2ee

abbrev pub reply_roles : Option Topic → List String
reply_roles none = []
reply_roles (some t) = roles_or_none t.reply_roles

abbrev pub post_roles : Option Topic → List String
post_roles none = []
post_roles (some t) = roles_or_none t.post_roles

-- Whether the caller may post in the topic, or reply in it if it is a feed.
unfoldable pub may_post : World → Caller → Database → Option Topic → RowId → Option RowId → Bool
may_post w caller db topic topic_id reply_to =
    let as_reply = not (is_null reply_to) && is_feed topic in
    can_principal (grants_of w db topic_id caller.sub)
      (if as_reply then reply_roles topic else post_roles topic) caller.role
      (if as_reply then reply else post)

-- `/^[#$][a-zA-Z]\w*$/`
abbrev pub is_letter : ℕ → Bool
is_letter c = between b'a' b'z' c || between b'A' b'Z' c

abbrev pub is_word : ℕ → Bool
is_word c = is_letter c || between b'0' b'9' c || c == b'_'

abbrev pub is_tag : List ℕ → Bool
is_tag (sign ∷ c ∷ cs) = (sign == b'#' || sign == b'$') && is_letter c && every_of is_word cs
is_tag _ = false

unfoldable pub valid_hashtags : List String → List String
valid_hashtags tags = take 20 (keep (λ t. is_tag (codes t)) tags)

unfoldable pub processed : World → Bool → String → String
processed w e2ee t = if e2ee then t else if is_blank t then t else w.process_links t

abbrev pub title_preview : World → Option Topic → String → String
title_preview w topic t =
    if is_e2ee topic then "(encrypted message)" else w.preview t (is_feed topic)

abbrev pub sidebars : Database → RowId → String → List Emit
sidebars db topic_id preview =
    map (λ id. sidebar id topic_id preview)
      (filter_users_who_can_view_topic db topic_id (get_topic_member_user_ids db topic_id))

abbrev pub tag_events : RowId → List String → List Emit
tag_events topic_id [] = []
tag_events topic_id (t ∷ tags) = to_topic topic_id (hashtag_cloud (t ∷ tags)) ∷ []

abbrev pub purges : RowId → Option (AutoDeleteMode × Option ℕ) → List Task
purges topic_id (some (by_count, some max)) = if ltb 0 max then purge topic_id max ∷ [] else []
purges topic_id _ = []

abbrev pub webhook_tasks : Option Topic → RowId → InsertedMessage → List Task
webhook_tasks topic topic_id msg = if is_e2ee topic then [] else webhooks topic_id msg ∷ []

-- The events and tasks of a message that is sent.
unfoldable pub fan_out :
    World → Option Topic → SendMessage → String → List String → InsertedMessage → Server → Server
fan_out w topic m t tags msg s =
    let preview = title_preview w topic t in
    start
      (notify m.topic_id preview
        ∷ (webhook_tasks topic m.topic_id msg
            ++ (push m.topic_id preview
                ∷ purges m.topic_id (get_topic_auto_delete s.db m.topic_id))))
      (emit
        (to_topic m.topic_id (message_new msg)
          ∷ (tag_events m.topic_id tags
              ++ sidebars s.db m.topic_id (if is_e2ee topic then "" else preview)))
        s)

abbrev pub new_message : Caller → Option Topic → SendMessage → String → List String → NewMessage
new_message caller topic m t tags = record {
  topic_id = m.topic_id;
  sender_user_id = some caller.sub;
  bot_id = none;
  body = t;
  attachments = m.attachments;
  reply_to_message_id = m.reply_to_message_id;
  search_text = if is_e2ee topic then none else some t;
  hashtags = tags;
  ciphertext_json = m.ciphertext_json;
}

-- The message is written and sent.
unfoldable pub deliver : World → Caller → Option Topic → SendMessage → Server → Reply × Server
deliver w caller topic m s =
    let t = processed w (is_e2ee topic) m.body in
    let tags = valid_hashtags m.hashtags in
    let (msg, db') = insert_message w (new_message caller topic m t tags) s.db in
    (ok_message msg, fan_out w topic m t tags msg (record s { db = db' }))

unfoldable pub send_unmuted : World → Caller → Option Topic → SendMessage → Server → Reply × Server
send_unmuted w caller topic m s =
    if not (may_post w caller s.db topic m.topic_id m.reply_to_message_id)
    then answer (failed "FORBIDDEN") s
    else if is_e2ee topic && not (is_sealed m.ciphertext_json)
    then answer (failed "E2EE topic; send ciphertext") s
    else if not (is_e2ee topic) && is_sealed m.ciphertext_json
    then answer (failed "topic is not E2EE; send plaintext") s
    else deliver w caller topic m s

-- MESSAGE_SEND
unfoldable pub on_message_send : World → Caller → SendMessage → Server → Reply × Server
on_message_send w caller m s =
    if w.limited
    then answer (failed "RATE_LIMITED") s
    else if not (is_coherent m)
    then answer world.threw s
    else if not (user_can_access_topic w s.db caller.sub caller.role m.topic_id)
    then answer (failed "FORBIDDEN") s
    else if not (is_null (is_user_muted w.now s.db caller.sub))
    then answer (failed "MUTED") s
    else send_unmuted w caller (get_topic_by_id s.db m.topic_id) m s
