-- ===== src/Chat/Steps/Beside.antt =====
-- apps/ws/src/messages.ts: votes and reactions are written beside the messages, the topics and the polls.
use legends_chat.Common.{
  ◌≡◌, refl, String, not, ◌&&◌, Option, none, some, List, some_of, length, ltb, nat_eq, string_eq,
  guard,
}
use legends_chat.Chat.Tables.{RowId, Poll, Database}
use legends_chat.Chat.World.{World, Caller, Server}
use legends_chat.Common.{◌≤◌, arith}
use legends_chat.Chat.Messages.{ensure_topic_membership, is_member, toggle_reaction, is_reaction}
use legends_chat.Chat.Polls.{
  VoteResult, refused, voted, threw, insertable, clear_votes, add_votes, vote_in, find_poll,
  cast_poll_vote,
}
use legends_chat.Chat.Socket.{vote_answer}

-- The tables that are as they were.
pub record Beside (db db' : Database) : Type 0 where
  pub messages_eq : db'.messages ≡ db.messages
  pub topics_eq : db'.topics ≡ db.topics
  pub polls_eq : db'.polls ≡ db.polls
  pub next_eq : db'.next_id ≡ db.next_id

pub itself : (db : Database) → Beside db db
itself db = record { messages_eq = refl; topics_eq = refl; polls_eq = refl; next_eq = refl }

-- The tables beside a result.
abbrev Keeps : {A : Type 0} → Database → A × Database → Type 0
Keeps db out = Beside db out.1

-- A membership that is written, or was there.
pub record Grown (db db' : Database) : Type 0 where
  pub messages_eq : db'.messages ≡ db.messages
  pub topics_eq : db'.topics ≡ db.topics
  pub polls_eq : db'.polls ≡ db.polls
  pub next_le : db.next_id ≤ db'.next_id

pub ensure_topic_membership-Grown :
    (w : World) (u t : RowId) (db : Database) → Grown db (ensure_topic_membership w u t db)
unfolding ensure_topic_membership
ensure_topic_membership-Grown w u t db =
    guard (Grown db) (some_of (is_member u t) db.topic_members) _ _
      (λ _. record { messages_eq = refl; topics_eq = refl; polls_eq = refl; next_le = omega arith })
      (λ _. record { messages_eq = refl; topics_eq = refl; polls_eq = refl; next_le = omega arith })

pub toggle_reaction-Beside :
    (w : World) (i u : RowId) (emoji : String) (db : Database)
    → Beside db (toggle_reaction w i u emoji db).1
unfolding toggle_reaction
toggle_reaction-Beside w i u emoji db =
    guard (Keeps db) (some_of (is_reaction i u emoji) db.message_reactions) _ _
      (λ _. record { messages_eq = refl; topics_eq = refl; polls_eq = refl; next_eq = refl })
      (λ _. record { messages_eq = refl; topics_eq = refl; polls_eq = refl; next_eq = refl })

vote_in-Beside :
    (w : World) (o : Option Poll) (p u : RowId) (os : List RowId) (db : Database)
    → Beside db (vote_in w o p u os db).1
unfolding clear_votes add_votes
vote_in-Beside w none p u os db = itself db
vote_in-Beside w (some poll) p u os db =
    guard (Keeps db) poll.is_closed _ _ (λ _. itself db)
      (λ _.
        guard (Keeps db) (not poll.allows_multiple && ltb 1 (length os)) _ _ (λ _. itself db)
          (λ _.
            guard (Keeps db) (insertable (clear_votes p u db) os) _ _
              (λ _. record {
                messages_eq = refl;
                topics_eq = refl;
                polls_eq = refl;
                next_eq = refl;
              })
              (λ _. record {
                messages_eq = refl;
                topics_eq = refl;
                polls_eq = refl;
                next_eq = refl;
              })))

answered :
    (db : Database) (out : VoteResult × Database) (s : Server)
    → Beside db out.1
    → Beside db (vote_answer out s).1.db
answered db (refused e, db') s b = b
answered db (voted os now, db') s b = b
answered db (threw, db') s b = b

pub vote_answer-Beside :
    (w : World) (caller : Caller) (p : RowId) (os : List RowId) (s : Server)
    → Beside s.db (vote_answer (cast_poll_vote w p caller.sub os s.db) s).1.db
unfolding cast_poll_vote
vote_answer-Beside w caller p os s =
    answered s.db (cast_poll_vote w p caller.sub os s.db) s
      (vote_in-Beside w (find_poll s.db p) p caller.sub os s.db)
