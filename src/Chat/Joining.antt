-- ===== src/Chat/Joining.antt =====
-- apps/ws/src/index.ts and bootstrap.ts: the handler of a socket that joins a topic. The rooms of
-- sockets, who is online, and of the bootstrap what it copies from the topic and other tables, are
-- left out.
use legends_chat.Common.{
  ℕ, String, Bool, not, ◌&&◌, Option, none, some, List, [], ◌∷◌, ◌++◌, map, keep, includes, ◌==◌,
  nat_eq, string_eq, if◌then◌else◌,
}
use legends_chat.Access.Topics.{GrantAction, post, reply, can_principal, is_empty, roles_or_none}
use legends_chat.Chat.Tables.{RowId, Topic, Database, first, is_null}
use legends_chat.Chat.World.{
  World, Caller, InsertedMessage, Joined, Reply, failed, ok_joined, Server,
}
use legends_chat.Chat.World as world
use legends_chat.Chat.Gates.{get_topic_by_id, has_proof, is_user_muted}
use legends_chat.Chat.Messages.{
  recent_rows, show_reversed, list_reactions_for_topic, ensure_topic_membership,
}
use legends_chat.Chat.Polls.{attach_poll, my_votes_in}
use legends_chat.Chat.Posting.{answer, grants_of}

-- What the client names: a text of the form of an id, or a slug.
pub data SlugOrId : Type 0 where
  by_id : RowId → SlugOrId
  by_slug : String → SlugOrId

unfoldable pub find_topic : Database → SlugOrId → Option Topic
find_topic db (by_id id) = get_topic_by_id db id
find_topic db (by_slug slug) = first (keep (λ t. t.slug == slug) db.topics)

-- `roles.length > 0 && user.role !== "admin" && !roles.includes(user.role)`
abbrev pub bars : Option (List String) → String → Bool
bars roles role =
    not (is_empty (roles_or_none roles))
    && not (role == "admin")
    && not (includes role (roles_or_none roles))

-- The error of the gate of `buildTopicBootstrap`, if there is one.
unfoldable pub bootstrap_gate : World → Caller → Topic → Option String
bootstrap_gate w caller t =
    if bars t.view_roles caller.role
    then some "not_found"
    else if bars t.read_roles caller.role
    then some "not_found"
    else if not (is_null t.password_hash)
        && not (caller.role == "admin")
        && not (has_proof (w.proof caller.sub t.id) t.password_version)
    then some "forbidden"
    else none

-- `listRecentMessages`; `none` is the exception of a row that does not decrypt.
unfoldable pub list_recent_messages : World → Database → RowId → ℕ → Option (List InsertedMessage)
list_recent_messages w db topic_id limit =
    elim (show_reversed w db (recent_rows db topic_id limit) []) [
      | none ↦ none
      | some out ↦ some (map (attach_poll db) out)
    ]

-- The votes of the user in the polls of the messages, of those in which there are any.
abbrev pub votes_of_poll : Database → RowId → InsertedMessage → List (RowId × List RowId)
votes_of_poll db user_id m = elim m.poll [
  | none ↦ []
  | some p ↦ elim (my_votes_in db user_id p.id) [ [] ↦ [] | v ∷ votes ↦ (p.id, v ∷ votes) ∷ [] ]
]

unfoldable pub my_poll_votes : Database → RowId → List InsertedMessage → List (RowId × List RowId)
my_poll_votes db user_id [] = []
my_poll_votes db user_id (m ∷ messages) =
    votes_of_poll db user_id m ++ my_poll_votes db user_id messages

abbrev pub may_act : World → Database → Caller → Topic → Option (List String) → GrantAction → Bool
may_act w db caller t roles action =
    can_principal (grants_of w db t.id caller.sub) (roles_or_none roles) caller.role action

-- The rights and the mute were read before the membership was written, the messages after it.
abbrev pub join_answer :
    World → Caller → Topic → Database → Database → Option (List InsertedMessage) → Reply
join_answer w caller t before db none = world.threw
join_answer w caller t before db (some messages) = ok_joined (record {
  topic_id = t.id;
  can_post = may_act w before caller t t.post_roles post;
  can_reply =
      if t.is_feed
      then may_act w before caller t t.reply_roles reply
      else may_act w before caller t t.post_roles post;
  mute = is_user_muted w.now before caller.sub;
  messages = messages;
  reactions = list_reactions_for_topic db t.id 50;
  my_poll_votes = my_poll_votes db caller.sub messages;
})

abbrev pub join_topic : World → Caller → Topic → Server → Reply × Server
join_topic w caller t s =
    let db = ensure_topic_membership w caller.sub t.id s.db in
    answer (join_answer w caller t s.db db (list_recent_messages w db t.id 50))
      (record s { db = db })

abbrev pub admitted_to : World → Caller → Topic → Option String → Server → Reply × Server
admitted_to w caller t (some error) s = answer (failed error) s
admitted_to w caller t none s = join_topic w caller t s

abbrev pub join_found : World → Caller → Option Topic → Server → Reply × Server
join_found w caller none s = answer (failed "not_found") s
join_found w caller (some t) s = admitted_to w caller t (bootstrap_gate w caller t) s

-- TOPIC_JOIN
unfoldable pub on_topic_join : World → Caller → SlugOrId → Server → Reply × Server
on_topic_join w caller key s =
    if w.limited
    then answer (failed "RATE_LIMITED") s
    else join_found w caller (find_topic s.db key) s
