-- ===== src/Chat/Requests.antt =====
-- apps/ws/src/index.ts: the handlers that edit and delete messages and press their buttons, and all
-- handlers by their event.
use legends_chat.Common.{
  String, Bool, false, not, ◌||◌, Option, none, some, List, [], ◌∷◌, includes, ◌==◌, nat_eq,
  string_eq, if◌then◌else◌,
}
use legends_chat.Chat.Tables.{RowId, Json, Message, Database}
use legends_chat.Chat.World.{
  World, Caller, InsertedMessage, message_edit, message_delete, to_topic, callback, Reply, ok,
  failed, Server,
}
use legends_chat.Chat.World as world
use legends_chat.Chat.Gates.{
  user_can_access_topic, get_topic_by_id, get_message_topic_id, get_message_owner,
  message_keyboard_has_callback,
}
use legends_chat.Chat.Edits.{new_text, new_ciphertext, edit_message, soft_delete_message}
use legends_chat.Chat.Polls.{NewPoll}
use legends_chat.Chat.Joining.{SlugOrId, on_topic_join}
use legends_chat.Chat.Socket.{
  on_topic_read, on_poll_create, on_poll_vote, on_poll_close, on_reaction_toggle,
}
use legends_chat.Chat.Posting.{
  SendMessage, EditMessage, is_coherent_edit, answer, emit, start, is_e2ee, processed,
  on_message_send,
}

abbrev pub is_own : Caller → Message → Bool
is_own caller m = elim m.sender_user_id [ none ↦ false | some id ↦ id == caller.sub ]

-- `isOwn ? !(canOwn || canAny) : !canAny`, the other way round.
unfoldable pub may_change : Caller → String → String → Message → Bool
may_change caller own any m =
    if is_own caller m
    then includes own caller.permissions || includes any caller.permissions
    else includes any caller.permissions

-- `!owner || owner.topicId !== topicId`
abbrev pub in_topic : RowId → Option Message → Option Message
in_topic topic_id none = none
in_topic topic_id (some m) = if m.topic_id == topic_id then some m else none

abbrev pub edited : Option (InsertedMessage × Database) → RowId → Server → Reply × Server
edited none topic_id s = answer (failed "message not found or deleted") s
edited (some (msg, db')) topic_id s =
    (ok, emit (to_topic topic_id (message_edit msg) ∷ []) (record s { db = db' }))

abbrev pub edit_sealed : World → Caller → EditMessage → Option Json → Server → Reply × Server
edit_sealed w caller m none s = answer (failed "E2EE topic requires ciphertextJson") s
edit_sealed w caller m (some json) s =
    edited (edit_message w m.message_id m.topic_id (new_ciphertext json) caller.sub s.db) m.topic_id
      s

abbrev pub edit_plain : World → Caller → EditMessage → Option String → Server → Reply × Server
edit_plain w caller m none s = answer (failed "plain topic requires text") s
edit_plain w caller m (some t) s =
    edited (edit_message w m.message_id m.topic_id (new_text (processed w false t)) caller.sub s.db)
      m.topic_id s

abbrev pub edit_owned : World → Caller → EditMessage → Option Message → Server → Reply × Server
edit_owned w caller m none s = answer (failed "not found") s
edit_owned w caller m (some owner) s =
    if not (may_change caller "messages.edit.own" "messages.edit.any" owner)
    then answer (failed "forbidden") s
    else if is_e2ee (get_topic_by_id s.db m.topic_id)
    then edit_sealed w caller m m.ciphertext_json s
    else edit_plain w caller m m.body s

-- MESSAGE_EDIT_REQ
unfoldable pub on_message_edit : World → Caller → EditMessage → Server → Reply × Server
on_message_edit w caller m s =
    if w.limited
    then answer (failed "RATE_LIMITED") s
    else if not (is_coherent_edit m)
    then answer world.threw s
    else if not (user_can_access_topic w s.db caller.sub caller.role m.topic_id)
    then answer (failed "FORBIDDEN") s
    else edit_owned w caller m (in_topic m.topic_id (get_message_owner s.db m.message_id)) s

abbrev pub delete_owned : World → Caller → RowId → RowId → Option Message → Server → Reply × Server
delete_owned w caller message_id topic_id none s = answer (failed "not found") s
delete_owned w caller message_id topic_id (some owner) s =
    if not (may_change caller "messages.delete.own" "messages.delete.any" owner)
    then answer (failed "forbidden") s
    else (
      ok,
      emit (to_topic topic_id (message_delete message_id) ∷ [])
          (record s { db = soft_delete_message w message_id topic_id s.db }),
    )

-- MESSAGE_DELETE_REQ
unfoldable pub on_message_delete : World → Caller → RowId → RowId → Server → Reply × Server
on_message_delete w caller message_id topic_id s =
    if w.limited
    then answer (failed "RATE_LIMITED") s
    else if not (user_can_access_topic w s.db caller.sub caller.role topic_id)
    then answer (failed "FORBIDDEN") s
    else delete_owned w caller message_id topic_id
        (in_topic topic_id (get_message_owner s.db message_id)) s

abbrev pub press_in :
    World → Caller → Option RowId → RowId → RowId → String → Server → Reply × Server
press_in w caller none bot_id message_id pressed s = answer (failed "message not found") s
press_in w caller (some topic_id) bot_id message_id pressed s =
    if not (user_can_access_topic w s.db caller.sub caller.role topic_id)
    then answer (failed "FORBIDDEN") s
    else if not (message_keyboard_has_callback s.db message_id pressed)
    then answer (failed "unknown callback") s
    else (ok, start (callback topic_id bot_id message_id pressed ∷ []) s)

-- BOT_KEYBOARD_CALLBACK, for a payload of three texts that are not empty and not too long.
unfoldable pub on_bot_keyboard_callback :
    World → Caller → RowId → RowId → String → Server → Reply × Server
on_bot_keyboard_callback w caller bot_id message_id pressed s =
    if w.limited
    then answer (failed "RATE_LIMITED") s
    else press_in w caller (get_message_topic_id s.db message_id) bot_id message_id pressed s

-- What a socket sends.
pub data Request : Type 0 where
  topic_join : SlugOrId → Request
  message_send : SendMessage → Request
  topic_read : RowId → RowId → Request
  poll_create : NewPoll → Request
  poll_vote : RowId → List RowId → Request
  poll_close : RowId → Request
  reaction_toggle : RowId → String → Request
  message_edit_req : EditMessage → Request
  message_delete_req : RowId → RowId → Request
  bot_keyboard_callback : RowId → RowId → String → Request

unfoldable pub handle : World → Caller → Request → Server → Reply × Server
handle w caller (topic_join key) s = on_topic_join w caller key s
handle w caller (message_send m) s = on_message_send w caller m s
handle w caller (topic_read topic_id message_id) s = on_topic_read w caller topic_id message_id s
handle w caller (poll_create args) s = on_poll_create w caller args s
handle w caller (poll_vote poll_id option_ids) s = on_poll_vote w caller poll_id option_ids s
handle w caller (poll_close poll_id) s = on_poll_close w caller poll_id s
handle w caller (reaction_toggle message_id emoji) s =
    on_reaction_toggle w caller message_id emoji s
handle w caller (message_edit_req m) s = on_message_edit w caller m s
handle w caller (message_delete_req message_id topic_id) s =
    on_message_delete w caller message_id topic_id s
handle w caller (bot_keyboard_callback bot_id message_id pressed) s =
    on_bot_keyboard_callback w caller bot_id message_id pressed s
