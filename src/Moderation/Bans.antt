-- ===== src/Moderation/Bans.antt =====
-- apps/web/lib/moderation.ts: bans and their lifting, and apps/web/lib/auth.ts: who is banned.
use legends_chat.Common.{
  ℕ, ◌+◌, Bool, true, ◌&&◌, Option, none, some, [], ◌∷◌, ◌++◌, map, keep, some_of, ◌==◌, nat_eq,
  string_eq, if◌then◌else◌,
}
use legends_chat.Chat.Tables.{RowId, first, is_null, is_live}
use legends_chat.Moderation.Office.{UserBan, user_banned, Office, State, Sanction}
use legends_chat.Moderation.Members.{
  publish, log_admin_action, put, revoke_user_jtis, revoke_e2ee_topic_membership,
}

abbrev pub insert_ban : Office → Sanction → State → State
insert_ban w args st = record st {
  user_bans =
      st.user_bans
      ++ record {
        id = st.base.next_id;
        user_id = args.user_id;
        banned_by_user_id = some args.by_user_id;
        reason = args.reason;
        source_flag_id = args.source_flag_id;
        created_at = w.now;
        expires_at = args.expires_at;
        lifted_by_user_id = none;
        lifted_at = none;
      }
        ∷ [];
  base = record st.base { next_id = st.base.next_id + 1 };
}

unfoldable pub ban_user : Office → Sanction → State → State
ban_user w args st =
    let revoked = revoke_user_jtis w args.user_id (insert_ban w args st) in
    let cached = record revoked { ban_cache = put args.user_id (some true) revoked.ban_cache } in
    log_admin_action (some args.by_user_id) "user.ban" "user" args.user_id
      (publish (user_banned args.user_id) (revoke_e2ee_topic_membership w args.user_id cached))

abbrev pub lifted : RowId → RowId → Option UserBan → State → State
lifted ban_id by_user_id none st = st
lifted ban_id by_user_id (some b) st =
    log_admin_action (some by_user_id) "user.ban.lift" "user" b.user_id
      (record st { ban_cache = put b.user_id none st.ban_cache })

unfoldable pub lift_ban : Office → RowId → RowId → State → State
lift_ban w ban_id by_user_id st =
    lifted ban_id by_user_id (first (keep (λ b. b.id == ban_id) st.user_bans)) (record st {
      user_bans =
          map
            (λ b.
              if b.id == ban_id
              then record b { lifted_at = some w.now; lifted_by_user_id = some by_user_id }
              else b)
            st.user_bans;
    })

abbrev pub is_active_ban : ℕ → RowId → UserBan → Bool
is_active_ban now user_id b =
    b.user_id == user_id && is_null b.lifted_at && is_live now b.expires_at

abbrev pub consult : Office → RowId → Option Bool → State → Bool × State
consult w user_id (some banned) st = (banned, st)
consult w user_id none st =
    let banned = some_of (is_active_ban w.now user_id) st.user_bans in
    (banned, record st { ban_cache = put user_id (some banned) st.ban_cache })

-- The cache first, and then the table, which the cache keeps for a minute.
unfoldable pub is_user_banned : Office → RowId → State → Bool × State
is_user_banned w user_id st = consult w user_id (st.ban_cache user_id) st
