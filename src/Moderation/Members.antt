-- ===== src/Moderation/Members.antt =====
-- apps/web/lib/moderation.ts: the sessions and memberships that a ban ends, with what it calls of
-- auth-revoke.ts, topic-events.ts, audit-log.ts and packages/db/src/topic-crypto-members.ts.
use legends_chat.Common.{
  ℕ, ◌+◌, ◌-◌, ◌*◌, ◌/◌, max, String, Bool, not, ◌&&◌, Option, none, some, List, [], ◌∷◌, ◌++◌, map,
  keep, some_of, includes, ◌==◌, nat_eq, string_eq, if◌then◌else◌,
}
use legends_chat.Chat.Tables.{RowId, Topic, User, Database, delete_where, is_null, is_live}
use legends_chat.Chat.Gates.{get_topic_by_id, get_topic_member_user_ids}
use legends_chat.Moderation.Office.{Session, Signal, topic_members_updated, Office, State}

abbrev pub publish : Signal → State → State
publish signal st = record st { published = st.published ++ signal ∷ [] }

unfoldable pub log_admin_action : Option RowId → String → String → RowId → State → State
log_admin_action actor action target_type target_id st = record st {
  audit_log =
      st.audit_log
      ++ record {
        actor_user_id = actor;
        action = action;
        target_type = target_type;
        target_id = target_id;
      }
        ∷ [];
}

-- `set` and `del` of a key of a cache, before its expiry.
abbrev pub put : RowId → Option Bool → (RowId → Option Bool) → RowId → Option Bool
put key v cache k = if k == key then v else cache k

-- The life of the key of a revoked token, in seconds: at least 1; no time is left where it is over.
abbrev pub ttl_of : Office → Option ℕ → ℕ
ttl_of w none = max 1 ((w.access_ttl * 1000 + 999) / 1000)
ttl_of w (some expires) = max 1 ((expires - w.now + 999) / 1000)

abbrev pub revoked_key : Office → Session → List (String × ℕ)
revoked_key w s = elim s.access_jti [
  | none ↦ []
  | some jti ↦ (jti, ttl_of w s.access_expires_at) ∷ []
]

unfoldable pub revoke_jti_batch : Office → List Session → List (String × ℕ)
revoke_jti_batch w [] = []
revoke_jti_batch w (s ∷ sessions) = revoked_key w s ++ revoke_jti_batch w sessions

unfoldable pub revoke_user_jtis : Office → RowId → State → State
revoke_user_jtis w user_id st = record st {
  revoked_jtis =
      st.revoked_jtis
      ++ revoke_jti_batch w (keep (λ s. s.user_id == user_id && is_null s.revoked_at) st.sessions);
  sessions = delete_where (λ s. s.user_id == user_id) st.sessions;
}

abbrev pub is_key_admin : Office → State → User → Bool
is_key_admin w st u =
    u.role == "admin"
    && not u.is_anon
    && is_live w.now u.role_expires_at
    && includes u.id st.key_bundles

abbrev pub crypto_members : Office → State → RowId → Option Topic → Option (List RowId × List RowId)
crypto_members w st topic_id none = none
crypto_members w st topic_id (some t) = some (
  w.sort (get_topic_member_user_ids st.base topic_id),
  if t.is_e2ee then w.sort (map (λ u. u.id) (keep (is_key_admin w st) st.base.users)) else [],
)

-- The members of a topic, and its administrators with keys.
unfoldable pub list_topic_crypto_members : Office → State → RowId → Option (List RowId × List RowId)
list_topic_crypto_members w st topic_id =
    crypto_members w st topic_id (get_topic_by_id st.base topic_id)

-- For a user that leaves; a topic that is gone has nobody to tell.
unfoldable pub publish_topic_members_updated : Office → RowId → RowId → State → State
publish_topic_members_updated w user_id topic_id st =
    elim (list_topic_crypto_members w st topic_id) [
      | none ↦ st
      | some lists ↦ publish (topic_members_updated topic_id user_id lists.0 lists.1) st
    ]

unfoldable pub publish_each : Office → RowId → List RowId → State → State
publish_each w user_id [] st = st
publish_each w user_id (t ∷ topic_ids) st =
    publish_each w user_id topic_ids (publish_topic_members_updated w user_id t st)

-- `INNER JOIN topics ... is_e2ee`
abbrev pub is_e2ee_topic : Database → RowId → Bool
is_e2ee_topic db topic_id = some_of (λ t. t.id == topic_id && t.is_e2ee) db.topics

unfoldable pub e2ee_topics_of : Database → RowId → List RowId
e2ee_topics_of db user_id =
    map (λ m. m.topic_id)
      (keep (λ m. m.user_id == user_id && is_e2ee_topic db m.topic_id) db.topic_members)

abbrev pub leave_topics : Office → RowId → List RowId → Database → Database
leave_topics w user_id topic_ids db = record db {
  topic_members =
      delete_where (λ m. m.user_id == user_id && includes m.topic_id topic_ids) db.topic_members;
  user_device_change_log =
      db.user_device_change_log
      ++ record { id = db.next_id; user_id = user_id; reason = "topic_leave"; changed_at = w.now }
        ∷ [];
  next_id = db.next_id + 1;
}

abbrev pub revoke_topics : Office → RowId → List RowId → State → State
revoke_topics w user_id [] st = st
revoke_topics w user_id (t ∷ ts) st =
    publish_each w user_id (t ∷ ts) (record st { base = leave_topics w user_id (t ∷ ts) st.base })

unfoldable pub revoke_e2ee_topic_membership : Office → RowId → State → State
revoke_e2ee_topic_membership w user_id st =
    revoke_topics w user_id (e2ee_topics_of st.base user_id) st
