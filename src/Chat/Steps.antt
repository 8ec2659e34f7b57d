-- ===== src/Chat/Steps.antt =====
-- apps/ws/src/index.ts: the steps that a request may take, each with the conditions under which the
-- server may take it. The children show that the handlers take these steps only, and what the steps
-- keep.
pub mod Beside
pub mod Rows
pub mod Inserts
pub mod Looked
pub mod Guards
pub mod Joins
pub mod Editing
pub mod Handlers
pub mod Invariant
pub mod Secrecy
pub mod Origins
use legends_chat.Common.{
  ℕ, ◌≡◌, ◌⊎◌, String, Bool, true, false, ◌||◌, Option, none, some, List, [], ◌∷◌, ◌==◌, includes,
  nat_eq, string_eq,
}
use legends_chat.Chat.Tables.{Topic, RowId, Message, Database}
use legends_chat.Chat.World.{
  World, Caller, InsertedMessage, Event, to_topic, message_new, message_edit, message_delete,
  poll_updated, callback, Reply, Server,
}
use legends_chat.Chat.Gates.{
  admits, get_message_topic_id, get_poll_topic_id, get_topic_by_id, get_message_owner,
  is_user_muted, message_keyboard_has_callback,
}
use legends_chat.Chat.Messages.{
  ensure_topic_membership, is_sealed, set_last_read_message, toggle_reaction,
}
use legends_chat.Chat.Edits.{Payload, seals, edit_message, soft_delete_message}
use legends_chat.Chat.Polls.{NewPoll, create_poll_message, cast_poll_vote, close_poll_by_id}
use legends_chat.Chat.Socket.{poll_events, reaction_event, vote_answer, reaches}
use legends_chat.Chat.Posting.{SendMessage, is_coherent, is_e2ee, may_post, deliver, emit, start}
use legends_chat.Chat.Joining.{SlugOrId, find_topic}
use legends_chat.Chat.Requests.{may_change}

-- The rate limiter passed, and the caller may open the topic.
pub record Passed (w : World) (caller : Caller) (s : Server) (topic_id : Option RowId)
    : Type 0 where
  pub under : w.limited ≡ false
  pub open_to : reaches w caller s.db topic_id ≡ true

abbrev pub Unmuted : World → Caller → Server → Type 0
Unmuted w caller s = is_user_muted w.now s.db caller.sub ≡ none

-- The message that is there, in the topic, of somebody else or the caller's own, with the permission for it.
pub record MayChange (caller : Caller) (s : Server) (topic_id : RowId) (message_id : RowId)
    (own any : String) : Type 0 where
  pub owner : Message
  pub there : get_message_owner s.db message_id ≡ some owner
  pub within : owner.topic_id ≡ topic_id
  pub granted : may_change caller own any owner ≡ true

abbrev pub put_db : Database → Server → Server
put_db db s = record s { db = db }

pub data Step (w : World) (caller : Caller) (s : Server) : Server → Type 0 where
  stays : Step w caller s s
  joins :
      (key : SlugOrId) (t : Topic)
      → find_topic s.db key ≡ some t
      → w.limited ≡ false
      → admits w caller.sub caller.role (some t) ≡ true
      → Step w caller s (put_db (ensure_topic_membership w caller.sub t.id s.db) s)
  sends :
      (m : SendMessage)
      → Passed w caller s (some m.topic_id)
      → Unmuted w caller s
      → is_coherent m ≡ true
      → may_post w caller s.db (get_topic_by_id s.db m.topic_id) m.topic_id m.reply_to_message_id
        ≡ true
      → is_sealed m.ciphertext_json ≡ is_e2ee (get_topic_by_id s.db m.topic_id)
      → Step w caller s (deliver w caller (get_topic_by_id s.db m.topic_id) m s).1
  reads :
      (topic_id message_id : RowId)
      → Passed w caller s (some topic_id)
      → Step w caller s (put_db (set_last_read_message caller.sub topic_id message_id s.db) s)
  asks :
      (args : NewPoll)
      → Passed w caller s (some args.topic_id)
      → Unmuted w caller s
      → (caller.role == "user") ≡ false
      → args.created_by_user_id ≡ caller.sub
      → Step w caller s (
          emit
            (to_topic args.topic_id (message_new (create_poll_message w args s.db).0) ∷ [])
            (put_db (create_poll_message w args s.db).1 s))
  votes :
      (poll_id : RowId) (option_ids : List RowId)
      → Passed w caller s (get_poll_topic_id s.db poll_id)
      → Step w caller s (vote_answer (cast_poll_vote w poll_id caller.sub option_ids s.db) s).1
  closes :
      (poll_id : RowId)
      → Passed w caller s (get_poll_topic_id s.db poll_id)
      → (caller.role == "user") ≡ false
      → Step w caller s (
          emit
            (poll_events (close_poll_by_id poll_id s.db).0)
            (put_db (close_poll_by_id poll_id s.db).1 s))
  reacts :
      (topic_id message_id : RowId) (emoji : String)
      → get_message_topic_id s.db message_id ≡ some topic_id
      → Passed w caller s (some topic_id)
      → Unmuted w caller s
      → Step w caller s (
          emit
            (to_topic topic_id (
                reaction_event
                  (toggle_reaction w message_id caller.sub emoji s.db).0
                  message_id
                  caller.sub
                  emoji)
              ∷ [])
            (put_db (toggle_reaction w message_id caller.sub emoji s.db).1 s))
  edits :
      (message_id topic_id : RowId) (payload : Payload) (out : InsertedMessage × Database)
      → Passed w caller s (some topic_id)
      → MayChange caller s topic_id message_id "messages.edit.own" "messages.edit.any"
      → seals payload ≡ is_e2ee (get_topic_by_id s.db topic_id)
      → edit_message w message_id topic_id payload caller.sub s.db ≡ some out
      → Step w caller s (emit (to_topic topic_id (message_edit out.0) ∷ []) (put_db out.1 s))
  deletes :
      (message_id topic_id : RowId)
      → Passed w caller s (some topic_id)
      → MayChange caller s topic_id message_id "messages.delete.own" "messages.delete.any"
      → Step w caller s (
          emit
            (to_topic topic_id (message_delete message_id) ∷ [])
            (put_db (soft_delete_message w message_id topic_id s.db) s))
  presses :
      (topic_id bot_id message_id : RowId) (pressed : String)
      → get_message_topic_id s.db message_id ≡ some topic_id
      → Passed w caller s (some topic_id)
      → message_keyboard_has_callback s.db message_id pressed ≡ true
      → Step w caller s (start (callback topic_id bot_id message_id pressed ∷ []) s)
