-- ===== src/Chat/Socket.antt =====
-- apps/ws/src/index.ts: the handlers of read marks, polls and reactions. What zod parses is
-- the argument; a payload that does not parse is answered with its error and does nothing else.
use legends_chat.Common.{
  String, Bool, true, false, not, Option, none, some, List, [], ◌∷◌, ◌==◌, nat_eq, string_eq,
  if◌then◌else◌,
}
use legends_chat.Chat.Tables.{RowId, Database, is_null}
use legends_chat.Chat.World.{
  World, Caller, InsertedMessage, PollData, Event, message_new, message_edit, message_delete,
  reaction_add, reaction_remove, poll_updated, hashtag_cloud, Emit, to_topic, sidebar, Task, notify,
  push, webhooks, callback, purge, Reply, ok, failed, ok_message, ok_votes, ok_reaction, Server,
}
use legends_chat.Chat.World as world
use legends_chat.Chat.Gates.{
  user_can_access_topic, is_user_muted, get_message_topic_id, get_poll_topic_id,
}
use legends_chat.Chat.Messages.{toggle_reaction, set_last_read_message}
use legends_chat.Chat.Polls.{
  NewPoll, VoteResult, refused, voted, create_poll_message, cast_poll_vote, close_poll_by_id,
}
use legends_chat.Chat.Polls as polls
use legends_chat.Chat.Posting.{answer, emit}

-- TOPIC_READ
unfoldable pub on_topic_read : World → Caller → RowId → RowId → Server → Reply × Server
on_topic_read w caller topic_id message_id s =
    if w.limited
    then answer ok s
    else if not (user_can_access_topic w s.db caller.sub caller.role topic_id)
    then answer ok s
    else answer ok (record s { db = set_last_read_message caller.sub topic_id message_id s.db })

-- POLL_CREATE
unfoldable pub on_poll_create : World → Caller → NewPoll → Server → Reply × Server
on_poll_create w caller args s =
    if w.limited
    then answer (failed "RATE_LIMITED") s
    else if caller.role == "user"
    then answer (failed "Insufficient permissions") s
    else if not (user_can_access_topic w s.db caller.sub caller.role args.topic_id)
    then answer (failed "FORBIDDEN") s
    else if not (is_null (is_user_muted w.now s.db caller.sub))
    then answer (failed "MUTED") s
    else let (msg, db') =
        create_poll_message w (record args { created_by_user_id = caller.sub }) s.db in
      (ok_message msg, emit (to_topic args.topic_id (message_new msg) ∷ []) (record s { db = db' }))

abbrev pub poll_events : Option PollData → List Emit
poll_events none = []
poll_events (some p) = elim p.topic_id [
  | none ↦ []
  | some topic_id ↦ to_topic topic_id (poll_updated p.id p.choices p.total_votes p.is_closed) ∷ []
]

abbrev pub vote_answer : VoteResult × Database → Server → Reply × Server
vote_answer (refused error, db') s = (failed error, record s { db = db' })
vote_answer (voted option_ids data_now, db') s =
    (ok_votes option_ids, emit (poll_events data_now) (record s { db = db' }))
vote_answer (polls.threw, db') s = (world.threw, record s { db = db' })

-- `!topicId || !(await userCanAccessTopic(...))`, of a topic that a lookup gave.
unfoldable pub reaches : World → Caller → Database → Option RowId → Bool
reaches w caller db none = false
reaches w caller db (some topic_id) = user_can_access_topic w db caller.sub caller.role topic_id

-- POLL_VOTE
unfoldable pub on_poll_vote : World → Caller → RowId → List RowId → Server → Reply × Server
on_poll_vote w caller poll_id option_ids s =
    if w.limited
    then answer (failed "RATE_LIMITED") s
    else if not (reaches w caller s.db (get_poll_topic_id s.db poll_id))
    then answer (failed "FORBIDDEN") s
    else vote_answer (cast_poll_vote w poll_id caller.sub option_ids s.db) s

-- POLL_CLOSE
unfoldable pub on_poll_close : World → Caller → RowId → Server → Reply × Server
on_poll_close w caller poll_id s =
    if w.limited
    then answer (failed "RATE_LIMITED") s
    else if caller.role == "user"
    then answer (failed "Insufficient permissions") s
    else if not (reaches w caller s.db (get_poll_topic_id s.db poll_id))
    then answer (failed "FORBIDDEN") s
    else let (data_now, db') = close_poll_by_id poll_id s.db in
      (ok, emit (poll_events data_now) (record s { db = db' }))

abbrev pub reaction_event : Bool → RowId → RowId → String → Event
reaction_event true message_id user_id emoji = reaction_add message_id user_id emoji
reaction_event false message_id user_id emoji = reaction_remove message_id user_id emoji

abbrev pub react_in : World → Caller → Option RowId → RowId → String → Server → Reply × Server
react_in w caller none message_id emoji s = answer (failed "message not found") s
react_in w caller (some topic_id) message_id emoji s =
    if not (user_can_access_topic w s.db caller.sub caller.role topic_id)
    then answer (failed "FORBIDDEN") s
    else let (added, db') = toggle_reaction w message_id caller.sub emoji s.db in
      (
        ok_reaction added,
        emit (to_topic topic_id (reaction_event added message_id caller.sub emoji) ∷ [])
            (record s { db = db' }),
      )

-- REACTION_TOGGLE
unfoldable pub on_reaction_toggle : World → Caller → RowId → String → Server → Reply × Server
on_reaction_toggle w caller message_id emoji s =
    if w.limited
    then answer (failed "RATE_LIMITED") s
    else if not (is_null (is_user_muted w.now s.db caller.sub))
    then answer (failed "MUTED") s
    else react_in w caller (get_message_topic_id s.db message_id) message_id emoji s
