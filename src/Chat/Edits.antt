-- ===== src/Chat/Edits.antt =====
-- apps/ws/src/messages.ts: edits and deletions of messages.
use legends_chat.Common.{
  ◌+◌, String, Bool, true, false, not, ◌&&◌, Option, none, some, [], ◌∷◌, ◌++◌, keep, ◌==◌, nat_eq,
  string_eq, if◌then◌else◌,
}
use legends_chat.Chat.Tables.{
  RowId, Json, nil, Message, MessageEdit, Database, first, update_where, is_null,
}
use legends_chat.Chat.Content.{Codec, Content, encode_content, decode_content, plain}
use legends_chat.Chat.World.{World, InsertedMessage}
use legends_chat.Chat.Messages.{find_user, is_sealed, shown}

-- The new payload of an edit: text for a plain row, an envelope for a sealed one.
pub data Payload : Type 0 where
  new_text : String → Payload
  new_ciphertext : Json → Payload

abbrev pub seals : Payload → Bool
seals (new_text t) = false
seals (new_ciphertext json) = true

abbrev pub edit_row : World → RowId → Payload → Message → Message
edit_row w topic_id (new_ciphertext json) m = record m {
  ciphertext_json = some json;
  edited_at = some w.now;
}
edit_row w topic_id (new_text t) m = record m {
  content_ciphertext =
      (w.codec.encrypt w.seed w.current_key (encode_content w.codec t nil) topic_id).0;
  content_nonce = (w.codec.encrypt w.seed w.current_key (encode_content w.codec t nil) topic_id).1;
  key_id = w.current_key;
  edited_at = some w.now;
}

abbrev pub archive : World → RowId → Message → RowId → MessageEdit
archive w editor m id = record {
  id = id;
  message_id = m.id;
  edited_by_user_id = some editor;
  previous_content = m.content_ciphertext;
  previous_nonce = m.content_nonce;
  key_id = m.key_id;
  edited_at = w.now;
}

abbrev pub edited_content : Codec → Payload → Content
edited_content codec (new_ciphertext json) = plain ""
edited_content codec (new_text t) = record {
  body = t;
  attachments = (decode_content codec (encode_content codec t nil)).attachments;
}

abbrev pub edited_json : Payload → Option Json
edited_json (new_text t) = none
edited_json (new_ciphertext json) = some json

-- What is broadcast: the row as edited. The keyboard is not part of it.
abbrev pub edited_message : World → Database → Payload → Message → InsertedMessage
edited_message w db payload m =
    shown (find_user db m.sender_user_id)
      (record m {
        edited_at = some w.now;
        ciphertext_json = edited_json payload;
        inline_keyboard = none;
      })
      (edited_content w.codec payload)

abbrev pub write_edit : World → RowId → Payload → RowId → Message → Database → Database
write_edit w topic_id payload editor current db = record db {
  message_edits = db.message_edits ++ archive w editor current db.next_id ∷ [];
  messages = update_where (λ m. m.id == current.id) (edit_row w topic_id payload) db.messages;
  next_id = db.next_id + 1;
}

abbrev pub is_same : Bool → Bool → Bool
is_same true b = b
is_same false b = not b

abbrev pub edit_current :
    World
    → RowId
    → Payload
    → RowId
    → Option Message
    → Database
    → Option (InsertedMessage × Database)
edit_current w topic_id payload editor none db = none
edit_current w topic_id payload editor (some current) db =
    if is_same (seals payload) (is_sealed current.ciphertext_json)
    then some (edited_message w db payload current, write_edit w topic_id payload editor current db)
    else none

-- `editMessage`; `none` is null, and leaves the database alone.
unfoldable pub edit_message :
    World → RowId → RowId → Payload → RowId → Database → Option (InsertedMessage × Database)
edit_message w message_id topic_id payload editor db =
    edit_current w topic_id payload editor
      (first (
        keep (λ m. m.id == message_id && m.topic_id == topic_id && is_null m.deleted_at)
          db.messages))
      db

unfoldable pub soft_delete_message : World → RowId → RowId → Database → Database
soft_delete_message w message_id topic_id db = record db {
  messages =
      update_where (λ m. m.id == message_id && m.topic_id == topic_id && is_null m.deleted_at)
        (λ m. record m { deleted_at = some w.now }) db.messages;
}
