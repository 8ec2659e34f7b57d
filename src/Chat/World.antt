-- ===== src/Chat/World.antt =====
-- apps/ws/src: what a handler of the socket server reads besides the database, who calls it, and
-- what it answers and emits.
use legends_chat.Common.{ℕ, String, Bool, Option, List}
use legends_chat.Chat.Tables.{UserMute, Reaction, RowId, Json, Items, Database, Button}
use legends_chat.Chat.Content.{Codec}

-- The clock; randomness; the id of the current data key; the rate limiter's answer; the password
-- version that a user has proved for a topic (in Redis); the link processor and
-- `stripMarkdownPreview`; JSON and the cipher.
pub record World : Type 0 where
  pub now : ℕ
  pub seed : ℕ
  pub current_key : RowId
  pub limited : Bool
  pub proof : RowId → RowId → Option ℕ
  pub process_links : String → String
  pub preview : String → Bool → String
  pub codec : Codec

-- The socket's user, with the role and permissions it has now.
pub record Caller : Type 0 where
  pub sub : RowId
  pub role : String
  pub permissions : List String

pub record ShownOption : Type 0 where
  pub id : RowId
  pub label : String
  pub position : ℕ
  pub vote_count : ℕ

pub record PollData : Type 0 where
  pub id : RowId
  pub question : String
  pub choices : List ShownOption
  pub is_anonymous : Bool
  pub allows_multiple : Bool
  pub is_closed : Bool
  pub total_votes : ℕ
  pub topic_id : Option RowId

pub record InsertedMessage : Type 0 where
  pub id : RowId
  pub topic_id : RowId
  pub sender_user_id : Option RowId
  pub sender_display_name : Option String
  pub sender_avatar_url : Option String
  pub sender_is_anon : Bool
  pub sender_role : Option String
  pub bot_id : Option RowId
  pub reply_to_message_id : Option RowId
  pub body : String
  pub attachments : Items
  pub inline_keyboard : Option (List (List Button))
  pub created_at : ℕ
  pub edited_at : Option ℕ
  pub ciphertext_json : Option Json
  pub poll : Option PollData

-- What goes to the room of a topic, or to a user: of a sidebar update its topic and its preview.
pub data Event : Type 0 where
  message_new message_edit : InsertedMessage → Event
  message_delete : RowId → Event
  reaction_add reaction_remove : RowId → RowId → String → Event
  poll_updated : RowId → List ShownOption → ℕ → Bool → Event
  hashtag_cloud : List String → Event

pub data Emit : Type 0 where
  to_topic : RowId → Event → Emit
  sidebar : RowId → RowId → String → Emit

-- What is started in other modules and not waited for: notifications and pushes with their preview,
-- webhooks with the message, a button's callback, the purge of a topic that keeps so many messages.
pub data Task : Type 0 where
  notify push : RowId → String → Task
  webhooks : RowId → InsertedMessage → Task
  callback : RowId → RowId → RowId → String → Task
  purge : RowId → ℕ → Task

-- What a user who joins a topic is answered, of what the bootstrap and the join say.
pub record Joined : Type 0 where
  pub topic_id : RowId
  pub can_post : Bool
  pub can_reply : Bool
  pub mute : Option UserMute
  pub messages : List InsertedMessage
  pub reactions : List Reaction
  pub my_poll_votes : List (RowId × List RowId)

-- The argument of the acknowledgement; why and how long a user is muted, and the id of a callback, are left out.
pub data Reply : Type 0 where
  ok_joined : Joined → Reply
  ok threw : Reply
  failed : String → Reply
  ok_message : InsertedMessage → Reply
  ok_votes : List RowId → Reply
  ok_reaction : Bool → Reply

pub record Server : Type 0 where
  pub db : Database
  pub emitted : List Emit
  pub tasks : List Task
