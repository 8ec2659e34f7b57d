-- ===== src/Moderation/Banning.antt =====
-- apps/web/lib/moderation.ts: what a ban leaves of the user's sessions and memberships.
use legends_chat.Common.{
  ℕ, ◌≡◌, refl, ap, ◌∙◌, Bool, true, false, not, ◌&&◌, Option, none, some, some_of, some_of-append,
  List, [], ◌∷◌, map, keep, ◌==◌, nat_eq, string_eq, Bool-cases, inl, inr, beq_refl, nat_beq_iff,
  keep-dropped,
}
use legends_chat.Chat.Tables.{RowId, TopicMember, Database, is_live}
use legends_chat.Chat.Gates.{get_topic_member_user_ids}
use legends_chat.Moderation.Bans.{is_active_ban, is_user_banned, consult}
use legends_chat.Moderation.Bans.{insert_ban, ban_user}
use legends_chat.Moderation.Members.{
  log_admin_action, revoke_user_jtis, is_e2ee_topic, e2ee_topics_of, revoke_e2ee_topic_membership,
  put,
}
use legends_chat.Moderation.Office.{Office, Sanction, State}
use legends_chat.Moderation.Leaving.{ends, revoke-rest, topic_members-revoke}

-- The users of a topic's rows.
users_in : RowId → List TopicMember → List RowId
users_in t rows = map (λ m. m.user_id) (keep (λ m. m.topic_id == t) rows)

left : Database → RowId → List TopicMember → List TopicMember
left db u rows = keep (λ m. not (ends db u m)) rows

users_in-left_e2ee :
    (db : Database) (u t : RowId) (rows : List TopicMember)
    → is_e2ee_topic db t ≡ true
    → users_in t (left db u rows) ≡ keep (λ id. not (id == u)) (users_in t rows)
unfolding users_in left ends
users_in-left_e2ee db u t [] e2ee = refl
users_in-left_e2ee db u t (r ∷ rows) e2ee = elim (Bool-cases (r.topic_id == t)) [
  | inr elsewhere ↦ elim (Bool-cases (r.user_id == u && is_e2ee_topic db r.topic_id)) [
    | inl gone ↦ rw (gone, elsewhere) (users_in-left_e2ee db u t rows e2ee)
    | inr stays ↦ rw (stays, elsewhere) (users_in-left_e2ee db u t rows e2ee)
  ]
  | inl here ↦
      let within : is_e2ee_topic db r.topic_id ≡ true =
        ap (is_e2ee_topic db) ((nat_beq_iff r.topic_id t).0 here) ∙ e2ee in
      elim (Bool-cases (r.user_id == u)) [
        | inl mine ↦ rw (mine, within, here, mine) (users_in-left_e2ee db u t rows e2ee)
        | inr other ↦
            rw (other, here, other)
              (ap (λ ids. r.user_id ∷ ids) (users_in-left_e2ee db u t rows e2ee))
      ]
]

users_in-left_plain :
    (db : Database) (u t : RowId) (rows : List TopicMember)
    → is_e2ee_topic db t ≡ false
    → users_in t (left db u rows) ≡ users_in t rows
unfolding users_in left ends
users_in-left_plain db u t [] plain = refl
users_in-left_plain db u t (r ∷ rows) plain = elim (Bool-cases (r.topic_id == t)) [
  | inr elsewhere ↦ elim (Bool-cases (r.user_id == u && is_e2ee_topic db r.topic_id)) [
    | inl gone ↦ rw (gone, elsewhere) (users_in-left_plain db u t rows plain)
    | inr stays ↦ rw (stays, elsewhere) (users_in-left_plain db u t rows plain)
  ]
  | inl here ↦
      let outside : is_e2ee_topic db r.topic_id ≡ false =
        ap (is_e2ee_topic db) ((nat_beq_iff r.topic_id t).0 here) ∙ plain in
      elim (Bool-cases (r.user_id == u)) [
        | inl mine ↦
            rw (mine, outside, here)
              (ap (λ ids. r.user_id ∷ ids) (users_in-left_plain db u t rows plain))
        | inr other ↦
            rw (other, here) (ap (λ ids. r.user_id ∷ ids) (users_in-left_plain db u t rows plain))
      ]
]

-- The members of a topic after a ban.
abbrev pub Remaining : Database → RowId → Database → RowId → Type 0
Remaining db user_id after topic_id =
    (is_e2ee_topic db topic_id ≡ true
      → get_topic_member_user_ids after topic_id
        ≡ keep (λ id. not (id == user_id)) (get_topic_member_user_ids db topic_id))
    × (is_e2ee_topic db topic_id ≡ false
        → get_topic_member_user_ids after topic_id ≡ get_topic_member_user_ids db topic_id)

-- The row of a ban counts as active as long as the ban lasts, also with nothing in the cache.
insert_ban-is_user_banned :
    (w : Office) (args : Sanction) (st after : State) (later : ℕ) (cache : RowId → Option Bool)
    → after.user_bans ≡ (insert_ban w args st).user_bans
    → is_live later args.expires_at ≡ true
    → cache args.user_id ≡ none
    → (is_user_banned
        (record w { now = later })
        args.user_id
        (record after { ban_cache = cache })).0
      ≡ true
unfolding is_user_banned
insert_ban-is_user_banned w args st after later cache kept lasts cold = rw cold (
    ap (some_of (is_active_ban later args.user_id)) kept
    ∙ some_of-append (is_active_ban later args.user_id) st.user_bans _
        (rw (beq_refl args.user_id, lasts) refl))

-- After a ban the user is banned, has no session, and is a member of no end-to-end encrypted topic;
-- the other members of these topics, and the members of all other topics, are as they were. At any
-- later time before the ban expires the user is still found banned when the cache has forgotten it.
pub ban_user-Remaining :
    (w : Office) (args : Sanction) (st : State) (topic_id : RowId) (later : ℕ)
    (cache : RowId → Option Bool)
    → is_live later args.expires_at ≡ true
    → cache args.user_id ≡ none
    → Remaining st.base args.user_id (ban_user w args st).base topic_id
      × ((is_user_banned w args.user_id (ban_user w args st)).0 ≡ true)
      × (keep (λ s. s.user_id == args.user_id) (ban_user w args st).sessions ≡ [])
      × ((is_user_banned
            (record w { now = later })
            args.user_id
            (record (ban_user w args st) { ban_cache = cache })).0
          ≡ true)
unfolding ban_user log_admin_action revoke_user_jtis get_topic_member_user_ids left users_in
    is_user_banned revoke_e2ee_topic_membership
ban_user-Remaining w args st topic_id later cache lasts cold =
    let u = args.user_id in
    let revoked = revoke_user_jtis w u (insert_ban w args st) in
    let cached = record revoked { ban_cache = put u (some true) revoked.ban_cache } in
    let hit : put u (some true) revoked.ban_cache u ≡ some true = rw (beq_refl u) refl in
    let rows = topic_members-revoke w u cached in
    let rest = revoke-rest w u (e2ee_topics_of cached.base u) cached in
    (
      (
        λ e2ee.
            ap (users_in topic_id) rows
            ∙ users_in-left_e2ee cached.base u topic_id st.base.topic_members e2ee,
        λ plain.
            ap (users_in topic_id) rows
            ∙ users_in-left_plain cached.base u topic_id st.base.topic_members plain,
      ),
      ap (λ o. (consult w u o (ban_user w args st)).0) (ap (λ c. c u) rest.0 ∙ hit),
      ap (keep (λ s. s.user_id == u)) rest.1 ∙ keep-dropped (λ s. s.user_id == u) st.sessions,
      insert_ban-is_user_banned w args st (ban_user w args st) later cache rest.2 lasts cold,
    )
