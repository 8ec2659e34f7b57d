-- ===== src/Chat/Tables.antt =====
-- packages/db/src/schema.ts: the tables that the socket server (apps/ws/src/messages.ts) reads and
-- writes, as lists of rows, and the queries over them. Ids and times are numbers; a fresh id is the
-- counter `next_id`, whether the database draws it from a sequence or at random.
use legends_chat.Common.{
  ℕ, String, Bool, ltb, true, false, not, Option, none, some, List, [], ◌∷◌, map, keep, nat_eq,
  if◌then◌else◌,
}

abbrev pub RowId : Type 0
RowId = ℕ

abbrev pub Bytes : Type 0
Bytes = List ℕ

-- What `JSON.parse` gives.
mutual
  pub data Json : Type 0 where
    null : Json
    boolean : Bool → Json
    number : ℕ → Json
    text : String → Json
    array : Items → Json
    object : Fields → Json

  pub data Items : Type 0 where
    nil : Items
    item : Json → Items → Items

  pub data Fields : Type 0 where
    done : Fields
    field : String → Json → Fields → Fields

pub record Button : Type 0 where
  pub label : String
  pub callback_data : Option String

pub record Message : Type 0 where
  pub id : RowId
  pub topic_id : RowId
  pub sender_user_id : Option RowId
  pub bot_id : Option RowId
  pub reply_to_message_id : Option RowId
  pub content_ciphertext : Bytes
  pub content_nonce : Bytes
  pub key_id : RowId
  pub search_vector : Option String
  pub inline_keyboard : Option (List (List Button))
  pub created_at : ℕ
  pub edited_at : Option ℕ
  pub deleted_at : Option ℕ
  pub deleted_by_user_id : Option RowId
  pub delete_reason : Option String
  pub hashtags : List String
  pub ciphertext_json : Option Json

pub record MessageEdit : Type 0 where
  pub id : RowId
  pub message_id : RowId
  pub edited_by_user_id : Option RowId
  pub previous_content : Bytes
  pub previous_nonce : Bytes
  pub key_id : RowId
  pub edited_at : ℕ

pub record Reaction : Type 0 where
  pub message_id : RowId
  pub user_id : RowId
  pub emoji_key : String
  pub created_at : ℕ

pub record Poll : Type 0 where
  pub id : RowId
  pub message_id : RowId
  pub question : String
  pub is_anonymous : Bool
  pub allows_multiple : Bool
  pub is_closed : Bool
  pub created_by_user_id : Option RowId
  pub created_at : ℕ

pub record PollOption : Type 0 where
  pub id : RowId
  pub poll_id : RowId
  pub label : String
  pub position : ℕ

pub record PollVote : Type 0 where
  pub poll_id : RowId
  pub option_id : RowId
  pub user_id : RowId
  pub voted_at : ℕ

pub record TopicMember : Type 0 where
  pub topic_id : RowId
  pub user_id : RowId
  pub joined_at : ℕ
  pub last_read_message_id : Option RowId

pub record UserMute : Type 0 where
  pub id : RowId
  pub user_id : RowId
  pub muted_by_user_id : Option RowId
  pub reason : String
  pub source_flag_id : Option RowId
  pub created_at : ℕ
  pub expires_at : Option ℕ
  pub lifted_by_user_id : Option RowId
  pub lifted_at : Option ℕ

pub record PrincipalGrant : Type 0 where
  pub topic_id : RowId
  pub principal_type : String
  pub principal_id : RowId
  pub action : String
  pub effect : String
  pub expires_at : Option ℕ
  pub granted_by : Option RowId
  pub granted_at : ℕ

pub record DeviceChange : Type 0 where
  pub id : RowId
  pub user_id : RowId
  pub reason : String
  pub changed_at : ℕ

pub data AutoDeleteMode : Type 0 where
  never by_age by_count : AutoDeleteMode

-- The columns of `topics` and of `users` that are read.
pub record Topic : Type 0 where
  pub id : RowId
  pub slug : String
  pub title : String
  pub is_e2ee : Bool
  pub is_feed : Bool
  pub view_roles : Option (List String)
  pub read_roles : Option (List String)
  pub post_roles : Option (List String)
  pub reply_roles : Option (List String)
  pub password_hash : Option String
  pub password_version : ℕ
  pub auto_delete_mode : AutoDeleteMode
  pub auto_delete_max_messages : Option ℕ

pub record User : Type 0 where
  pub id : RowId
  pub display_name : String
  pub avatar_url : Option String
  pub role : String
  pub is_anon : Bool
  pub role_expires_at : Option ℕ

pub record Database : Type 0 where
  pub users : List User
  pub topics : List Topic
  pub messages : List Message
  pub message_edits : List MessageEdit
  pub message_reactions : List Reaction
  pub polls : List Poll
  pub poll_options : List PollOption
  pub poll_votes : List PollVote
  pub topic_members : List TopicMember
  pub user_mutes : List UserMute
  pub topic_principal_grants : List PrincipalGrant
  pub user_device_change_log : List DeviceChange
  pub next_id : RowId

-- `.limit(1)`, `.update(...).set(...).where(...)` and `.delete(...).where(...)`.
module _ {ℓ} {A : Type ℓ} where
  abbrev pub first : List A → Option A
  first [] = none
  first (a ∷ rows) = some a

  abbrev pub update_where : (A → Bool) → (A → A) → List A → List A
  update_where p f rows = map (λ r. if p r then f r else r) rows

  abbrev pub delete_where : (A → Bool) → List A → List A
  delete_where p rows = keep (λ r. not (p r)) rows

-- `IS NULL`, and `column = ...` for a column that may be null.
abbrev pub is_null {ℓ} : {A : Type ℓ} → Option A → Bool
is_null none = true
is_null (some a) = false

-- `expires_at IS NULL OR expires_at > now`
abbrev pub is_live : ℕ → Option ℕ → Bool
is_live now none = true
is_live now (some t) = ltb now t
