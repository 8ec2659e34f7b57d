-- ===== src/Chat/Gated.antt =====
-- apps/ws/src/messages.ts: what `userCanAccessTopic` decides.
use legends_chat.Common.{
  ℕ, ◌≡◌, ◌⊎◌, refl, ap, String, true, false, Option, none, some, ◌==◌, nat_eq, string_eq,
  Bool-cases, Option-cases, inl, inr, apart, eq_iff, nat_beq_iff,
}
use legends_chat.Access.Topics.{roles_or_none}
use legends_chat.Access.Topics.Rules.{Admits, can_view_topic_iff}
use legends_chat.Chat.Tables.{RowId, Topic, Database}
use legends_chat.Chat.World.{World}
use legends_chat.Chat.Gates.{
  sees, has_proof, passes, admits, user_can_access_topic, get_topic_by_id,
}

-- A topic that a user may open: both role lists admit the role, and the password is proved, unless
-- there is none; an administrator may open every topic.
pub record MayOpen (w : World) (db : Database) (user_id : RowId) (role : String) (topic_id : RowId)
    : Type 0 where
  pub topic : Topic
  pub there : get_topic_by_id db topic_id ≡ some topic
  pub admitted :
      (role ≡ "admin")
      ⊎ ((Admits (roles_or_none topic.view_roles) role
            × Admits (roles_or_none topic.read_roles) role)
          × ((topic.password_hash ≡ none)
              ⊎ (w.proof user_id topic.id ≡ some topic.password_version)))

proved : (o : Option ℕ) (n : ℕ) → has_proof o n ≡ true → o ≡ some n
proved none n h = cc
proved (some v) n h = ap some ((nat_beq_iff v n).0 h)

passes_either :
    (w : World) (user_id : RowId) (role : String) (t : Topic)
    → (role == "admin") ≡ false
    → passes w user_id role t ≡ true
    → (t.password_hash ≡ none) ⊎ (w.proof user_id t.id ≡ some t.password_version)
passes_either w user_id role t other h = elim (Option-cases t.password_hash) [
  | inl unset ↦ inl unset
  | inr (hash, set) ↦ inr (proved (w.proof user_id t.id) t.password_version (rw (other, set) at h))
]

admits-MayOpen :
    (w : World) (db : Database) (user_id : RowId) (role : String) (topic_id : RowId) (t : Topic)
    → get_topic_by_id db topic_id ≡ some t
    → admits w user_id role (some t) ≡ true
    → MayOpen w db user_id role topic_id
admits-MayOpen w db user_id role topic_id t there h = elim (Bool-cases (sees role t)) [
  | inr hidden ↦ absurd (apart h (rw hidden refl))
  | inl seen ↦ elim ((can_view_topic_iff role t.view_roles t.read_roles).0 seen) [
    | inl admin ↦ record { topic = t; there = there; admitted = inl admin }
    | inr lists ↦ elim (Bool-cases (role == "admin")) [
      | inl admin ↦ record {
        topic = t;
        there = there;
        admitted = inl ((eq_iff role "admin").0 admin);
      }
      | inr other ↦ record {
        topic = t;
        there = there;
        admitted = inr (lists, passes_either w user_id role t other (rw seen at h));
      }
    ]
  ]
]

-- A user whom the gate of a topic admits may open it: the topic exists, and the user is an
-- administrator, or both role lists of the topic admit the user's role, and the topic has no
-- password or the user has proved its current one.
pub user_can_access_topic-MayOpen :
    (w : World) (db : Database) (user_id : RowId) (role : String) (topic_id : RowId)
    → user_can_access_topic w db user_id role topic_id ≡ true
    → MayOpen w db user_id role topic_id
unfolding user_can_access_topic
user_can_access_topic-MayOpen w db user_id role topic_id h =
    elim (Option-cases (get_topic_by_id db topic_id)) [
      | inl missing ↦ absurd (apart h (rw missing refl))
      | inr (t, there) ↦ admits-MayOpen w db user_id role topic_id t there (rw there at h)
    ]
