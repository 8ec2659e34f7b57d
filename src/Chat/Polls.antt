-- ===== src/Chat/Polls.antt =====
-- apps/ws/src/messages.ts: polls and their votes.
pub mod Counting
pub mod Voting
use legends_chat.Common.{
  ℕ, zero, suc, ◌+◌, String, Bool, true, false, not, ◌&&◌, Option, none, some, List, [], ◌∷◌, ◌++◌,
  map, keep, length, includes, every_of, leb, ltb, ◌==◌, nat_eq, string_eq, if◌then◌else◌,
}
use Prim.Native.String
use legends_chat.Chat.Tables.{
  RowId, nil, Poll, PollOption, PollVote, Database, first, update_where, delete_where,
}
use legends_chat.Chat.World.{World, ShownOption, PollData, InsertedMessage}
use legends_chat.Chat.Gates.{get_message_topic_id}
use legends_chat.Chat.Messages.{NewMessage, insert_message}

-- `ORDER BY position`
unfoldable pub put_option : PollOption → List PollOption → List PollOption
put_option o [] = o ∷ []
put_option o (p ∷ os) = if leb o.position p.position then o ∷ p ∷ os else p ∷ put_option o os

unfoldable pub by_position : List PollOption → List PollOption
by_position [] = []
by_position (o ∷ os) = put_option o (by_position os)

-- `vcMap`: an option and its count, in the order of the first vote for it.
abbrev pub Counts : Type 0
Counts = List (RowId × ℕ)

-- `vcMap.set(id, (vcMap.get(id) ?? 0) + 1)`
unfoldable pub count_vote : RowId → Counts → Counts
count_vote id [] = (id, 1) ∷ []
count_vote id ((o, n) ∷ counts) =
    if o == id then (o, n + 1) ∷ counts else (o, n) ∷ count_vote id counts

unfoldable pub count_votes : List PollVote → Counts → Counts
count_votes [] counts = counts
count_votes (v ∷ votes) counts = count_votes votes (count_vote v.option_id counts)

-- `vcMap.get(id) ?? 0`
unfoldable pub votes_for : RowId → Counts → ℕ
votes_for id [] = 0
votes_for id ((o, n) ∷ counts) = if o == id then n else votes_for id counts

unfoldable pub sum_counts : Counts → ℕ
sum_counts [] = 0
sum_counts ((o, n) ∷ counts) = n + sum_counts counts

abbrev pub show_option : Counts → PollOption → ShownOption
show_option counts o = record {
  id = o.id;
  label = o.label;
  position = o.position;
  vote_count = votes_for o.id counts;
}

abbrev pub tally : Database → RowId → Counts
tally db poll_id = count_votes (keep (λ v. v.poll_id == poll_id) db.poll_votes) []

abbrev pub shown_poll : Database → Poll → Option RowId → PollData
shown_poll db p topic_id = record {
  id = p.id;
  question = p.question;
  choices =
      map (show_option (tally db p.id))
        (by_position (keep (λ o. o.poll_id == p.id) db.poll_options));
  is_anonymous = p.is_anonymous;
  allows_multiple = p.allows_multiple;
  is_closed = p.is_closed;
  total_votes = sum_counts (tally db p.id);
  topic_id = topic_id;
}

abbrev pub find_poll : Database → RowId → Option Poll
find_poll db poll_id = first (keep (λ p. p.id == poll_id) db.polls)

-- `polls LEFT JOIN messages`
unfoldable pub get_poll_data : Database → RowId → Option PollData
get_poll_data db poll_id = elim (find_poll db poll_id) [
  | none ↦ none
  | some p ↦ some (shown_poll db p (get_message_topic_id db p.message_id))
]

-- `pollByMsgId` of `listRecentMessages`, on a message.
unfoldable pub attach_poll : Database → InsertedMessage → InsertedMessage
attach_poll db m = elim (first (keep (λ p. p.message_id == m.id) db.polls)) [
  | none ↦ m
  | some p ↦ record m { poll = some (shown_poll db p none) }
]

abbrev pub option_rows : RowId → List String → ℕ → RowId → List PollOption
option_rows poll_id [] position id = []
option_rows poll_id (label ∷ labels) position id =
    record { id = id; poll_id = poll_id; label = label; position = position }
    ∷ option_rows poll_id labels (position + 1) (id + 1)

abbrev pub unvoted : PollOption → ShownOption
unvoted o = record { id = o.id; label = o.label; position = o.position; vote_count = 0 }

-- The argument of `createPollMessage`.
pub record NewPoll : Type 0 where
  pub topic_id : RowId
  pub created_by_user_id : RowId
  pub question : String
  pub choices : List String
  pub is_anonymous : Bool
  pub allows_multiple : Bool

-- The message that carries a poll: the question after a sign.
abbrev pub poll_message : NewPoll → NewMessage
poll_message args = record {
  topic_id = args.topic_id;
  sender_user_id = some args.created_by_user_id;
  bot_id = none;
  body = String.◌++◌ "📊 " args.question;
  attachments = nil;
  reply_to_message_id = none;
  search_text = none;
  hashtags = [];
  ciphertext_json = none;
}

-- The poll and its options, once its message is there.
abbrev pub insert_poll : World → NewPoll → InsertedMessage → Database → InsertedMessage × Database
insert_poll w args msg db =
    let options = option_rows db.next_id args.choices 0 (db.next_id + 1) in
    (
      record msg {
        poll = some (record {
          id = db.next_id;
          question = args.question;
          choices = map unvoted options;
          is_anonymous = args.is_anonymous;
          allows_multiple = args.allows_multiple;
          is_closed = false;
          total_votes = 0;
          topic_id = none;
        });
      },
      record db {
        polls =
            db.polls
            ++ record {
              id = db.next_id;
              message_id = msg.id;
              question = args.question;
              is_anonymous = args.is_anonymous;
              allows_multiple = args.allows_multiple;
              is_closed = false;
              created_by_user_id = some args.created_by_user_id;
              created_at = w.now;
            }
              ∷ [];
        poll_options = db.poll_options ++ options;
        next_id = db.next_id + 1 + length options;
      },
    )

unfoldable pub create_poll_message : World → NewPoll → Database → InsertedMessage × Database
create_poll_message w args db =
    let (msg, db') = insert_message w (poll_message args) db in insert_poll w args msg db'

-- The result of a vote: an error, the poll as it stands, or the exception of the INSERT.
pub data VoteResult : Type 0 where
  refused : String → VoteResult
  voted : List RowId → Option PollData → VoteResult
  threw : VoteResult

abbrev pub is_vote_of : RowId → RowId → PollVote → Bool
is_vote_of poll_id user_id v = v.poll_id == poll_id && v.user_id == user_id

abbrev pub new_votes : World → RowId → RowId → List RowId → List PollVote
new_votes w poll_id user_id option_ids =
    map (λ o. record { poll_id = poll_id; option_id = o; user_id = user_id; voted_at = w.now })
      option_ids

abbrev pub distinct : List RowId → Bool
distinct [] = true
distinct (o ∷ os) = not (includes o os) && distinct os

-- What the table asks of the new rows, the user's old ones being gone: the primary key, and that
-- the options exist (of whatever poll).
unfoldable pub insertable : Database → List RowId → Bool
insertable db option_ids =
    distinct option_ids && every_of (λ o. includes o (map (λ r. r.id) db.poll_options)) option_ids

unfoldable pub clear_votes : RowId → RowId → Database → Database
clear_votes poll_id user_id db = record db {
  poll_votes = delete_where (is_vote_of poll_id user_id) db.poll_votes;
}

unfoldable pub add_votes : World → RowId → RowId → List RowId → Database → Database
add_votes w poll_id user_id option_ids db = record db {
  poll_votes = db.poll_votes ++ new_votes w poll_id user_id option_ids;
}

-- DELETE, then INSERT; the two are no transaction.
abbrev pub replace_votes : World → RowId → RowId → List RowId → Database → VoteResult × Database
replace_votes w poll_id user_id option_ids db =
    if insertable db option_ids
    then (
      voted option_ids (get_poll_data (add_votes w poll_id user_id option_ids db) poll_id),
      add_votes w poll_id user_id option_ids db,
    )
    else (threw, db)

abbrev pub vote_in :
    World → Option Poll → RowId → RowId → List RowId → Database → VoteResult × Database
vote_in w none poll_id user_id option_ids db = (refused "Poll not found", db)
vote_in w (some p) poll_id user_id option_ids db =
    if p.is_closed
    then (refused "Poll is closed", db)
    else if not p.allows_multiple && ltb 1 (length option_ids)
    then (refused "Only one option allowed", db)
    else replace_votes w poll_id user_id option_ids (clear_votes poll_id user_id db)

unfoldable pub cast_poll_vote :
    World → RowId → RowId → List RowId → Database → VoteResult × Database
cast_poll_vote w poll_id user_id option_ids db =
    vote_in w (find_poll db poll_id) poll_id user_id option_ids db

-- `getMyPollVotes`, at one of the polls asked for.
unfoldable pub my_votes_in : Database → RowId → RowId → List RowId
my_votes_in db user_id poll_id =
    map (λ v. v.option_id) (keep (is_vote_of poll_id user_id) db.poll_votes)

unfoldable pub close_poll_by_id : RowId → Database → Option PollData × Database
close_poll_by_id poll_id db =
    let db' : Database = record db {
      polls = update_where (λ p. p.id == poll_id) (λ p. record p { is_closed = true }) db.polls;
    } in
    (get_poll_data db' poll_id, db')
