-- ===== src/Moderation/Tests.antt =====
-- apps/web/lib/moderation.ts: a member of two topics is banned, and muted.
use legends_chat.Common.{◌≡◌, refl, Bool, true, false, none, some, [], ◌∷◌, keep, ◌==◌, nat_eq}
use legends_chat.Chat.Gates.{get_topic_by_id, get_topic_member_user_ids}
use legends_chat.Chat.Tables.{RowId, Topic, never, TopicMember, User, Database, nil}
use legends_chat.Chat.Content.{Codec}
use legends_chat.Chat.World.{World, Caller, Server}
use legends_chat.Chat.Requests.{Request, message_send, handle}
use legends_chat.Moderation.Flags.{mute_user}
use legends_chat.Moderation.Bans.{is_user_banned}
use legends_chat.Moderation.Bans.{ban_user}
use legends_chat.Moderation.Members.{
  log_admin_action, list_topic_crypto_members, revoke_e2ee_topic_membership, revoke_user_jtis,
  e2ee_topics_of,
}
use legends_chat.Moderation.Office.{Office, Sanction, State, Session}
use legends_chat.Moderation.Banning.{Remaining, ban_user-Remaining}
use legends_chat.Moderation.Silence.{mute_user-silences}

abbrev office : Office
office = record { now = 100; access_ttl = 900; sort = λ ids. ids }

abbrev topic : RowId → Bool → Topic
topic id e2ee = record {
  id = id;
  slug = "topic";
  title = "Topic";
  is_e2ee = e2ee;
  is_feed = false;
  view_roles = none;
  read_roles = none;
  post_roles = none;
  reply_roles = none;
  password_hash = none;
  password_version = 1;
  auto_delete_mode = never;
  auto_delete_max_messages = none;
}

abbrev member : RowId → RowId → TopicMember
member topic_id user_id = record {
  topic_id = topic_id;
  user_id = user_id;
  joined_at = 10;
  last_read_message_id = none;
}

-- User 9 is an administrator with keys.
abbrev boss : User
boss = record {
  id = 9;
  display_name = "Boss";
  avatar_url = none;
  role = "admin";
  is_anon = false;
  role_expires_at = none;
}

abbrev db : Database
db = record {
  users = boss ∷ [];
  topics = topic 1 false ∷ topic 2 true ∷ [];
  messages = [];
  message_edits = [];
  message_reactions = [];
  polls = [];
  poll_options = [];
  poll_votes = [];
  topic_members = member 1 7 ∷ member 2 7 ∷ member 2 8 ∷ [];
  user_mutes = [];
  topic_principal_grants = [];
  user_device_change_log = [];
  next_id = 30;
}

abbrev session : Session
session = record {
  id = 3;
  user_id = 7;
  refresh_token_hash = "hash";
  device_label = none;
  created_at = 10;
  last_used_at = none;
  revoked_at = none;
  access_jti = some "token";
  access_expires_at = some 5100;
}

abbrev state : State
state = record {
  base = db;
  user_bans = [];
  message_flags = [];
  sessions = session ∷ [];
  key_bundles = 9 ∷ [];
  audit_log = [];
  ban_cache = λ id. none;
  mute_cache = λ id. none;
  revoked_jtis = [];
  published = [];
}

abbrev sanction : RowId → Sanction
sanction user_id = record {
  user_id = user_id;
  by_user_id = 1;
  reason = "spam";
  expires_at = some 500;
  source_flag_id = none;
}

ban_user-Remaining_example :
    Remaining db 7 (ban_user office (sanction 7) state).base 2
    × ((is_user_banned office 7 (ban_user office (sanction 7) state)).0 ≡ true)
    × (keep (λ s. s.user_id == 7) (ban_user office (sanction 7) state).sessions ≡ [])
    × ((is_user_banned
          (record office { now = 400 })
          7
          (record (ban_user office (sanction 7) state) { ban_cache = λ id. none })).0
        ≡ true)
ban_user-Remaining_example =
    ban_user-Remaining office (sanction 7) state 2 400 (λ id. none) refl refl

-- A ban leaves an administrator among those to whom the keys of encrypted topics are given.
admin_test :
    list_topic_crypto_members office (ban_user office (sanction 9) state) 2
    ≡ some (7 ∷ 8 ∷ [], 9 ∷ [])
unfolding list_topic_crypto_members ban_user log_admin_action revoke_user_jtis
    revoke_e2ee_topic_membership e2ee_topics_of get_topic_by_id get_topic_member_user_ids
admin_test = refl

abbrev codec : Codec
codec = record {
  parse = λ t. none;
  stringify = λ j. "";
  encrypt = λ seed key t topic_id. ([], []);
  decrypt = λ key cipher nonce topic_id. none;
}

abbrev world : World
world = record {
  now = 200;
  seed = 5;
  current_key = 1;
  limited = false;
  proof = λ user_id topic_id. none;
  process_links = λ t. t;
  preview = λ t is_feed. t;
  codec = codec;
}

abbrev muted_server : Server
muted_server = record { db = (mute_user office (sanction 7) state).base; emitted = []; tasks = [] }

abbrev speaker : Caller
speaker = record { sub = 7; role = "user"; permissions = [] }

abbrev greeting : Request
greeting = message_send (record {
  topic_id = 1;
  body = "hello";
  ciphertext_json = none;
  reply_to_message_id = none;
  attachments = nil;
  hashtags = [];
})

mute_user-silences_example : (handle world speaker greeting muted_server).1 ≡ muted_server
mute_user-silences_example =
    mute_user-silences office (sanction 7) state world speaker muted_server refl refl refl greeting
      tt
