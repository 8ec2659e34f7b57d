-- ===== src/Moderation/Leaving.antt =====
-- apps/web/lib/moderation.ts: the memberships that a ban ends.
use legends_chat.Common.{
  ◌≡◌, refl, sym, ap, ◌∙◌, Bool, true, false, not, ◌&&◌, List, [], ◌∷◌, map, keep, includes, ◌==◌,
  nat_eq, string_eq, Bool-cases, Option-cases, inl, inr, Among, All, Among-map, Among-keep,
  includes_iff, and-cases, apart, keep_whole,
}
use legends_chat.Chat.Tables.{RowId, TopicMember, Database, delete_where}
use legends_chat.Moderation.Members.{
  publish_topic_members_updated, list_topic_crypto_members, publish_each, is_e2ee_topic,
  e2ee_topics_of, leave_topics, revoke_topics, revoke_e2ee_topic_membership,
}
use legends_chat.Moderation.Office.{Office, State}

-- A membership that the ban ends.
unfoldable pub ends : Database → RowId → TopicMember → Bool
ends db user_id m = m.user_id == user_id && is_e2ee_topic db m.topic_id

kept-Among :
    (p : TopicMember → Bool) (m : TopicMember) (rows : List TopicMember)
    → Among m rows
    → p m ≡ true
    → Among m.topic_id (map (λ r. r.topic_id) (keep p rows))
kept-Among p m [] away holds = absurd away
kept-Among p m (r ∷ rows) (inl e) holds = rw (ap p e ∙ holds) (inl (ap (λ r. r.topic_id) e))
kept-Among p m (r ∷ rows) (inr later) holds = elim (Bool-cases (p r)) [
  | inl in_it ↦ rw in_it (inr (kept-Among p m rows later holds))
  | inr out ↦ rw out (kept-Among p m rows later holds)
]

-- Of the user's rows, those in the topics found are those in encrypted topics.
includes-e2ee_topics_of :
    (db : Database) (user_id : RowId) (m : TopicMember)
    → Among m db.topic_members
    → (m.user_id == user_id) ≡ true
    → includes m.topic_id (e2ee_topics_of db user_id) ≡ is_e2ee_topic db m.topic_id
unfolding e2ee_topics_of
includes-e2ee_topics_of db user_id m among mine = elim (Bool-cases (is_e2ee_topic db m.topic_id)) [
  | inl e2ee ↦
      (includes_iff m.topic_id (e2ee_topics_of db user_id)).1 (
        kept-Among (λ r. r.user_id == user_id && is_e2ee_topic db r.topic_id) m db.topic_members
          among (rw (mine, e2ee) refl))
      ∙ sym e2ee
  | inr plain ↦ elim (Bool-cases (includes m.topic_id (e2ee_topics_of db user_id))) [
    | inr out ↦ out ∙ sym plain
    | inl found ↦
        let p : TopicMember → Bool = λ r. r.user_id == user_id && is_e2ee_topic db r.topic_id in
        let (a, in_a, same) =
          Among-map (λ r. r.topic_id) m.topic_id (keep p db.topic_members)
            ((includes_iff m.topic_id (e2ee_topics_of db user_id)).0 found) in
        let (there, holds) = Among-keep p a db.topic_members in_a in
        let (own, e2ee) = and-cases (a.user_id == user_id) (is_e2ee_topic db a.topic_id) holds in
        absurd (apart (ap (is_e2ee_topic db) (sym same) ∙ e2ee) plain)
  ]
]

keep-same :
    (p q : TopicMember → Bool) (rows : List TopicMember)
    → ((m : TopicMember) → Among m rows → p m ≡ q m)
    → keep p rows ≡ keep q rows
keep-same p q [] h = refl
keep-same p q (r ∷ rows) h = elim (Bool-cases (q r)) [
  | inl in_it ↦
      rw (h r (inl refl) ∙ in_it, in_it)
        (ap (λ rs. r ∷ rs) (keep-same p q rows (λ m at. h m (inr at))))
  | inr out ↦ rw (h r (inl refl) ∙ out, out) (keep-same p q rows (λ m at. h m (inr at)))
]

-- What publishing leaves alone.
Same : State → State → Type 0
Same st' st =
    (st'.base ≡ st.base)
    × (st'.ban_cache ≡ st.ban_cache)
    × (st'.sessions ≡ st.sessions)
    × (st'.user_bans ≡ st.user_bans)

publish_topic_members_updated-Same :
    (w : Office) (u t : RowId) (st : State) → Same (publish_topic_members_updated w u t st) st
unfolding publish_topic_members_updated Same
publish_topic_members_updated-Same w u t st =
    elim (Option-cases (list_topic_crypto_members w st t)) [
      | inl nobody ↦ rw (publish_topic_members_updated, nobody) (refl, refl, refl, refl)
      | inr (lists, e) ↦ rw (publish_topic_members_updated, e) (refl, refl, refl, refl)
    ]

publish_each-Same :
    (w : Office) (u : RowId) (ts : List RowId) (st : State) → Same (publish_each w u ts st) st
unfolding publish_each Same
publish_each-Same w u [] st = (refl, refl, refl, refl)
publish_each-Same w u (t ∷ ts) st =
    let later = publish_each-Same w u ts (publish_topic_members_updated w u t st) in
    let first = publish_topic_members_updated-Same w u t st in
    (later.0 ∙ first.0, later.1 ∙ first.1, later.2 ∙ first.2, later.3 ∙ first.3)

pub revoke-rest :
    (w : Office) (u : RowId) (ts : List RowId) (st : State)
    → ((revoke_topics w u ts st).ban_cache ≡ st.ban_cache)
      × ((revoke_topics w u ts st).sessions ≡ st.sessions)
      × ((revoke_topics w u ts st).user_bans ≡ st.user_bans)
unfolding Same
revoke-rest w u [] st = (refl, refl, refl)
revoke-rest w u (t ∷ ts) st =
    let same =
      publish_each-Same w u (t ∷ ts) (record st { base = leave_topics w u (t ∷ ts) st.base }) in
    (same.1, same.2, same.3)

never : (b : Bool) → not (b && false) ≡ true
never true = refl
never false = refl

kept_rows :
    (u : RowId) (rows : List TopicMember) → All (λ m. not (m.user_id == u && false) ≡ true) rows
kept_rows u [] = tt
kept_rows u (r ∷ rows) = (never (r.user_id == u), kept_rows u rows)

topic_members-revoke_topics :
    (w : Office) (u : RowId) (ts : List RowId) (st : State)
    → (revoke_topics w u ts st).base.topic_members
      ≡ delete_where (λ m. m.user_id == u && includes m.topic_id ts) st.base.topic_members
unfolding Same
topic_members-revoke_topics w u [] st = sym (
    keep_whole (λ m. not (m.user_id == u && false)) st.base.topic_members
      (kept_rows u st.base.topic_members))
topic_members-revoke_topics w u (t ∷ ts) st =
    ap (λ db. db.topic_members)
      (publish_each-Same w u (t ∷ ts) (record st { base = leave_topics w u (t ∷ ts) st.base })).0

pub topic_members-revoke :
    (w : Office) (u : RowId) (st : State)
    → (revoke_e2ee_topic_membership w u st).base.topic_members
      ≡ keep (λ m. not (ends st.base u m)) st.base.topic_members
unfolding revoke_e2ee_topic_membership ends
topic_members-revoke w u st =
    topic_members-revoke_topics w u (e2ee_topics_of st.base u) st
    ∙ keep-same _ _ st.base.topic_members (λ m at. elim (Bool-cases (m.user_id == u)) [
      | inl mine ↦ rw mine (ap not (includes-e2ee_topics_of st.base u m at mine))
      | inr other ↦ rw other refl
    ])
