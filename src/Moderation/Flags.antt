-- ===== src/Moderation/Flags.antt =====
-- apps/web/lib/moderation.ts and moderation-queue.ts: mutes, verdicts on flags, and deletions from the
-- queue.
use legends_chat.Common.{
  ◌+◌, String, Bool, true, false, ◌&&◌, Option, none, some, [], ◌∷◌, ◌++◌, keep, length, ◌==◌,
  nat_eq, string_eq,
}
use legends_chat.Chat.Tables.{RowId, UserMute, update_where}
use legends_chat.Moderation.Office.{
  FlagStatus, pending, user_muted, flag_count, Office, State, Sanction,
}
use legends_chat.Moderation.Members.{publish, log_admin_action, put}

abbrev pub mute_row : Office → Sanction → RowId → UserMute
mute_row w args id = record {
  id = id;
  user_id = args.user_id;
  muted_by_user_id = some args.by_user_id;
  reason = args.reason;
  source_flag_id = args.source_flag_id;
  created_at = w.now;
  expires_at = args.expires_at;
  lifted_by_user_id = none;
  lifted_at = none;
}

abbrev pub insert_mute : Office → Sanction → State → State
insert_mute w args st = record st {
  base = record st.base {
    user_mutes = st.base.user_mutes ++ mute_row w args st.base.next_id ∷ [];
    next_id = st.base.next_id + 1;
  };
}

unfoldable pub mute_user : Office → Sanction → State → State
mute_user w args st =
    let inserted = insert_mute w args st in
    let cached = record inserted {
      mute_cache = put args.user_id (some true) inserted.mute_cache;
    } in
    log_admin_action (some args.by_user_id) "user.mute" "user" args.user_id
      (publish (user_muted args.user_id) cached)

abbrev pub is_pending : FlagStatus → Bool
is_pending pending = true
is_pending _ = false

-- A flag that is still pending gets its verdict.
unfoldable pub resolve_flag : Office → RowId → RowId → FlagStatus → State → State
resolve_flag w flag_id reviewer status st = record st {
  message_flags =
      update_where (λ f. f.id == flag_id && is_pending f.status)
        (λ f. record f {
          status = status;
          reviewed_by_user_id = some reviewer;
          reviewed_at = some w.now;
        })
        st.message_flags;
}

unfoldable pub publish_pending_flag_count : State → State
publish_pending_flag_count st =
    publish (flag_count (length (keep (λ f. is_pending f.status) st.message_flags))) st

-- `softDeleteMessage` of the queue, by an actor and for a reason.
unfoldable pub delete_flagged_message :
    Office → RowId → Option RowId → Option String → State → State
delete_flagged_message w message_id actor reason st =
    log_admin_action actor "message.delete" "message" message_id (record st {
      base = record st.base {
        messages =
            update_where (λ m. m.id == message_id)
              (λ m. record m {
                deleted_at = some w.now;
                deleted_by_user_id = actor;
                delete_reason = reason;
              })
              st.base.messages;
      };
    })
