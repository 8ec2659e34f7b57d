-- ===== src/Chat/Messages.antt =====
-- apps/ws/src/messages.ts: messages, their edits, reactions, and the members of topics.
use legends_chat.Common.{
  ℕ, ◌+◌, String, Bool, true, false, ◌&&◌, Option, none, some, List, [], ◌∷◌, ◌++◌, map, keep, take,
  every_of, some_of, includes, leb, ◌==◌, nat_eq, string_eq, if◌then◌else◌,
}
use legends_chat.Image.Bytes.{codes}
use legends_chat.Ssrf.{is_space}
use legends_chat.Chat.Tables.{
  RowId, Bytes, Json, Items, Message, Reaction, TopicMember, User, Database, first, update_where,
  delete_where, is_null,
}
use legends_chat.Chat.Content.{Codec, Content, encode_content, decode_content, plain}
use legends_chat.Chat.World.{World, InsertedMessage}

-- `text.trim().length === 0`
abbrev pub is_blank : String → Bool
is_blank t = every_of is_space (codes t)

-- The argument of `insertMessage`. A missing list is the empty one.
pub record NewMessage : Type 0 where
  pub topic_id : RowId
  pub sender_user_id : Option RowId
  pub bot_id : Option RowId
  pub body : String
  pub attachments : Items
  pub reply_to_message_id : Option RowId
  pub search_text : Option String
  pub hashtags : List String
  pub ciphertext_json : Option Json

-- What a row stores: nothing but the envelope, or the encrypted content.
abbrev pub stored : World → RowId → Option Json → String → Items → Bytes × Bytes
stored w topic_id (some json) t a = ([], [])
stored w topic_id none t a =
    w.codec.encrypt w.seed w.current_key (encode_content w.codec t a) topic_id

unfoldable pub new_row : World → NewMessage → RowId → Message
new_row w args id = record {
  id = id;
  topic_id = args.topic_id;
  sender_user_id = args.sender_user_id;
  bot_id = args.bot_id;
  reply_to_message_id = args.reply_to_message_id;
  content_ciphertext = (stored w args.topic_id args.ciphertext_json args.body args.attachments).0;
  content_nonce = (stored w args.topic_id args.ciphertext_json args.body args.attachments).1;
  key_id = w.current_key;
  search_vector = none;
  inline_keyboard = none;
  created_at = w.now;
  edited_at = none;
  deleted_at = none;
  deleted_by_user_id = none;
  delete_reason = none;
  hashtags = args.hashtags;
  ciphertext_json = args.ciphertext_json;
}

-- The search text of a row that is indexed: none for an envelope, and none for a blank text.
abbrev pub indexed : NewMessage → Option String
indexed args = elim args.ciphertext_json [
  | some json ↦ none
  | none ↦ elim args.search_text [ none ↦ none | some t ↦ if is_blank t then none else some t ]
]

abbrev pub index_row : RowId → Option String → List Message → List Message
index_row id none rows = rows
index_row id (some t) rows =
    update_where (λ m. m.id == id) (λ m. record m { search_vector = some t }) rows

abbrev pub find_user : Database → Option RowId → Option User
find_user db none = none
find_user db (some id) = first (keep (λ u. u.id == id) db.users)

abbrev pub is_sealed : Option Json → Bool
is_sealed none = false
is_sealed (some json) = true

-- A row as it is shown, with its sender, its text and its attachments. What a sealed row shows is its
-- envelope only.
abbrev pub shown : Option User → Message → Content → InsertedMessage
shown sender m content = record {
  id = m.id;
  topic_id = m.topic_id;
  sender_user_id = m.sender_user_id;
  sender_display_name = elim sender [ none ↦ none | some u ↦ some u.display_name ];
  sender_avatar_url = elim sender [ none ↦ none | some u ↦ u.avatar_url ];
  sender_is_anon = elim sender [ none ↦ false | some u ↦ u.is_anon ];
  sender_role = elim sender [ none ↦ none | some u ↦ some u.role ];
  bot_id = m.bot_id;
  reply_to_message_id = m.reply_to_message_id;
  body = content.body;
  attachments = content.attachments;
  inline_keyboard = m.inline_keyboard;
  created_at = m.created_at;
  edited_at = m.edited_at;
  ciphertext_json = m.ciphertext_json;
  poll = none;
}

abbrev pub sent_content : Option Json → String → Items → Content
sent_content (some json) t a = plain ""
sent_content none t a = record { body = t; attachments = a }

abbrev pub insert_rows : World → NewMessage → Database → Database
insert_rows w args db = record db {
  messages = index_row db.next_id (indexed args) (db.messages ++ new_row w args db.next_id ∷ []);
  next_id = db.next_id + 1;
}

unfoldable pub insert_message : World → NewMessage → Database → InsertedMessage × Database
insert_message w args db = (
  shown (find_user db args.sender_user_id) (new_row w args db.next_id)
      (sent_content args.ciphertext_json args.body args.attachments),
  insert_rows w args db,
)

abbrev pub decode_raw : Codec → Option String → Option Content
decode_raw codec none = none
decode_raw codec (some raw) = some (decode_content codec raw)

-- The content of a row: `none` is the exception of a text that does not decrypt.
unfoldable pub read_content : World → Message → Option Content
read_content w m = elim m.ciphertext_json [
  | some json ↦ some (plain "")
  | none ↦
      decode_raw w.codec (w.codec.decrypt m.key_id m.content_ciphertext m.content_nonce m.topic_id)
]

-- A round of the loop of `listRecentMessages`.
unfoldable pub show_row : World → Database → Message → Option InsertedMessage
show_row w db m = elim (read_content w m) [
  | none ↦ none
  | some content ↦ some (shown (find_user db m.sender_user_id) m content)
]

-- `ORDER BY id DESC`
unfoldable pub put_newest : Message → List Message → List Message
put_newest m [] = m ∷ []
put_newest m (n ∷ rows) = if leb n.id m.id then m ∷ n ∷ rows else n ∷ put_newest m rows

unfoldable pub newest_first : List Message → List Message
newest_first [] = []
newest_first (m ∷ rows) = put_newest m (newest_first rows)

-- The rows that `listRecentMessages` reads: the newest, the latest first; it shows them reversed.
unfoldable pub recent_rows : Database → RowId → ℕ → List Message
recent_rows db topic_id limit =
    take limit
      (newest_first (keep (λ m. m.topic_id == topic_id && is_null m.deleted_at) db.messages))

-- The loop over the reversed rows.
unfoldable pub show_reversed :
    World → Database → List Message → List InsertedMessage → Option (List InsertedMessage)
show_reversed w db [] out = some out
show_reversed w db (m ∷ rows) out = elim (show_row w db m) [
  | none ↦ none
  | some s ↦ show_reversed w db rows (s ∷ out)
]

unfoldable pub list_reactions_for_topic : Database → RowId → ℕ → List Reaction
list_reactions_for_topic db topic_id limit =
    let ids = map (λ m. m.id) (recent_rows db topic_id limit) in
    keep (λ r. includes r.message_id ids) db.message_reactions

-- The three columns of the primary key of a reaction.
abbrev pub is_reaction : RowId → RowId → String → Reaction → Bool
is_reaction message_id user_id emoji r =
    r.message_id == message_id && r.user_id == user_id && r.emoji_key == emoji

-- Whether the reaction was added, and the database then.
unfoldable pub toggle_reaction : World → RowId → RowId → String → Database → Bool × Database
toggle_reaction w message_id user_id emoji db =
    if some_of (is_reaction message_id user_id emoji) db.message_reactions
    then (
      false,
      record db {
        message_reactions =
            delete_where (is_reaction message_id user_id emoji) db.message_reactions;
      },
    )
    else (
      true,
      record db {
        message_reactions =
            db.message_reactions
            ++ record {
              message_id = message_id;
              user_id = user_id;
              emoji_key = emoji;
              created_at = w.now;
            }
              ∷ [];
      },
    )

abbrev pub is_member : RowId → RowId → TopicMember → Bool
is_member user_id topic_id m = m.user_id == user_id && m.topic_id == topic_id

-- `ensureTopicMembership`: a first join is written, and logged for the peers' device lists. The signal
-- to rotate keys is left out.
unfoldable pub ensure_topic_membership : World → RowId → RowId → Database → Database
ensure_topic_membership w user_id topic_id db =
    if some_of (is_member user_id topic_id) db.topic_members then db else record db {
      topic_members =
          db.topic_members
          ++ record {
            topic_id = topic_id;
            user_id = user_id;
            joined_at = w.now;
            last_read_message_id = none;
          }
            ∷ [];
      user_device_change_log =
          db.user_device_change_log
          ++ record {
            id = db.next_id;
            user_id = user_id;
            reason = "topic_join";
            changed_at = w.now;
          }
            ∷ [];
      next_id = db.next_id + 1;
    }

unfoldable pub set_last_read_message : RowId → RowId → RowId → Database → Database
set_last_read_message user_id topic_id message_id db = record db {
  topic_members =
      update_where (is_member user_id topic_id)
        (λ m. record m { last_read_message_id = some message_id }) db.topic_members;
}
