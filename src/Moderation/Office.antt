-- ===== src/Moderation/Office.antt =====
-- apps/web/lib/moderation.ts: the tables of bans, flags, sessions and the audit log
-- (packages/db/src/schema.ts), what Redis holds, and what is published.
use legends_chat.Common.{ℕ, String, Bool, Option, List, nat_eq, string_eq}
use legends_chat.Chat.Tables.{RowId, Database}

pub record UserBan : Type 0 where
  pub id : RowId
  pub user_id : RowId
  pub banned_by_user_id : Option RowId
  pub reason : String
  pub source_flag_id : Option RowId
  pub created_at : ℕ
  pub expires_at : Option ℕ
  pub lifted_by_user_id : Option RowId
  pub lifted_at : Option ℕ

pub data FlagStatus : Type 0 where
  pending dismissed actioned : FlagStatus

pub record MessageFlag : Type 0 where
  pub id : RowId
  pub message_id : RowId
  pub reporter_user_id : RowId
  pub reason : String
  pub status : FlagStatus
  pub reviewed_by_user_id : Option RowId
  pub reviewed_at : Option ℕ
  pub created_at : ℕ

pub record Session : Type 0 where
  pub id : RowId
  pub user_id : RowId
  pub refresh_token_hash : String
  pub device_label : Option String
  pub created_at : ℕ
  pub last_used_at : Option ℕ
  pub revoked_at : Option ℕ
  pub access_jti : Option String
  pub access_expires_at : Option ℕ

-- An entry of the audit log; its metadata, which repeat the arguments, are left out.
pub record AuditEntry : Type 0 where
  pub actor_user_id : Option RowId
  pub action : String
  pub target_type : String
  pub target_id : RowId

-- What is published: the members and the administrators of a topic after a change, a ban, a mute, and
-- the number of pending flags.
pub data Signal : Type 0 where
  topic_members_updated : RowId → RowId → List RowId → List RowId → Signal
  user_banned user_muted : RowId → Signal
  flag_count : ℕ → Signal

-- The clock, the life of an access token in seconds, and the order of `Array.prototype.sort`.
pub record Office : Type 0 where
  pub now : ℕ
  pub access_ttl : ℕ
  pub sort : List RowId → List RowId

pub record State : Type 0 where
  pub base : Database
  pub user_bans : List UserBan
  pub message_flags : List MessageFlag
  pub sessions : List Session
  pub key_bundles : List RowId
  pub audit_log : List AuditEntry
  pub ban_cache : RowId → Option Bool
  pub mute_cache : RowId → Option Bool
  pub revoked_jtis : List (String × ℕ)
  pub published : List Signal

-- The arguments of `banUser` and `muteUser`: whom, by whom, why, until when, and the flag.
pub record Sanction : Type 0 where
  pub user_id : RowId
  pub by_user_id : RowId
  pub reason : String
  pub expires_at : Option ℕ
  pub source_flag_id : Option RowId
