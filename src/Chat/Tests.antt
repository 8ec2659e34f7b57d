-- ===== src/Chat/Tests.antt =====
-- apps/ws/src/messages.ts and index.ts: a database of two topics, and what the socket server does on it.
use legends_chat.Common.{
  ◌≡◌, refl, Bool, true, false, ◌&&◌, none, some, [], ◌∷◌, length, ◌==◌, nat_eq, list_eq, string_eq,
  if◌then◌else◌, Among, All, inl, inr, sym, ap, ◌∙◌, subst, arith, List,
}
use legends_chat.Image.Bytes.{codes}
use legends_chat.Access.Topics.{can_view_topic, can_principal}
use legends_chat.Chat.Tables.{
  RowId, null, nil, item, Message, Topic, User, never, Poll, PollOption, PollVote, Database,
}
use legends_chat.Chat.Content.{Codec, envelope, encode_content}
use legends_chat.Chat.World.{World, Caller, PollData, Server}
use legends_chat.Chat.Gates.{
  user_can_access_topic, get_topic_by_id, get_message_owner, get_message_topic_id, is_user_muted,
  newest, is_active_mute,
}
use legends_chat.Chat.Gated.{MayOpen, user_can_access_topic-MayOpen}
use legends_chat.Chat.Socket.{reaches}
use legends_chat.Chat.Posting.{
  SendMessage, is_coherent, is_e2ee, may_post, grants_of, on_message_send,
}
use legends_chat.Chat.Requests.{
  message_send, message_delete_req, Request, on_message_delete, may_change, handle,
}
use legends_chat.Chat.Steps.{Passed}
use legends_chat.Chat.Steps.Origins.{Origin, handle-Origin}
use legends_chat.Chat.Steps.Rows.{IsKeyed}
use legends_chat.Chat.Steps.Secrecy.{IsSound, IsFit, serve, serve-IsSound}
use legends_chat.Chat.Delivery.{Delivered, on_message_send-Delivered}
use legends_chat.Chat.Messages.{NewMessage, new_row, insert_message, show_row}
use legends_chat.Chat.Edits.{soft_delete_message}
use legends_chat.Chat.Polls.{
  cast_poll_vote, find_poll, shown_poll, get_poll_data, insertable, clear_votes, threw,
}
use legends_chat.Chat.Polls.Counting.{votes_in, for_option, get_poll_data-counts}
use legends_chat.Chat.Polls.Voting.{Outcome, cast_poll_vote-Outcome}
use legends_chat.Chat.Sending.{Deciphers, ReadsBack, show_row-insert_message}

-- Bytes are the codes of the text, the nonce is the topic. One text is JSON, and is known to the other
-- side.
abbrev codec : Codec
codec = record {
  parse = λ t. if t == "{}" then some (envelope "hello" (item null nil)) else none;
  stringify = λ j. "{}";
  encrypt = λ seed key t topic_id. (codes t, topic_id ∷ []);
  decrypt = λ key cipher nonce topic_id.
      if cipher == codes "{}" && nonce == (topic_id ∷ []) then some "{}" else none;
}

abbrev world : World
world = record {
  now = 100;
  seed = 5;
  current_key = 1;
  limited = false;
  proof = λ user_id topic_id. none;
  process_links = λ t. t;
  preview = λ t is_feed. t;
  codec = codec;
}

abbrev topic : RowId → Bool → Topic
topic id e2ee = record {
  id = id;
  slug = "topic";
  title = "Topic";
  is_e2ee = e2ee;
  is_feed = false;
  view_roles = none;
  read_roles = none;
  post_roles = none;
  reply_roles = none;
  password_hash = none;
  password_version = 1;
  auto_delete_mode = never;
  auto_delete_max_messages = none;
}

abbrev ann : User
ann = record {
  id = 7;
  display_name = "Ann";
  avatar_url = none;
  role = "user";
  is_anon = false;
  role_expires_at = none;
}

abbrev old_row : Message
old_row = record {
  id = 10;
  topic_id = 1;
  sender_user_id = some 7;
  bot_id = none;
  reply_to_message_id = none;
  content_ciphertext = codes "hello";
  content_nonce = 1 ∷ [];
  key_id = 1;
  search_vector = none;
  inline_keyboard = none;
  created_at = 50;
  edited_at = none;
  deleted_at = none;
  deleted_by_user_id = none;
  delete_reason = none;
  hashtags = [];
  ciphertext_json = none;
}

abbrev lunch : Poll
lunch = record {
  id = 20;
  message_id = 10;
  question = "Lunch?";
  is_anonymous = false;
  allows_multiple = false;
  is_closed = false;
  created_by_user_id = some 7;
  created_at = 50;
}

abbrev choice : RowId → PollOption
choice id = record { id = id; poll_id = 20; label = "Soup"; position = id }

abbrev vote : RowId → RowId → PollVote
vote user_id option_id = record {
  poll_id = 20;
  option_id = option_id;
  user_id = user_id;
  voted_at = 60;
}

abbrev db : Database
db = record {
  users = ann ∷ [];
  topics = topic 1 false ∷ topic 2 true ∷ [];
  messages = old_row ∷ [];
  message_edits = [];
  message_reactions = [];
  polls = lunch ∷ [];
  poll_options = choice 21 ∷ choice 22 ∷ [];
  poll_votes = vote 7 21 ∷ vote 8 21 ∷ [];
  topic_members = [];
  user_mutes = [];
  topic_principal_grants = [];
  user_device_change_log = [];
  next_id = 30;
}

abbrev server : Server
server = record { db = db; emitted = []; tasks = [] }

abbrev caller : Caller
caller = record { sub = 7; role = "user"; permissions = "messages.delete.own" ∷ [] }

abbrev greeting : SendMessage
greeting = record {
  topic_id = 1;
  body = "hello";
  ciphertext_json = none;
  reply_to_message_id = none;
  attachments = nil;
  hashtags = [];
}

opens : user_can_access_topic world db 7 "user" 1 ≡ true
unfolding user_can_access_topic get_topic_by_id can_view_topic
opens = refl

passed : Passed world caller server (some 1)
unfolding reaches
passed = record { under = refl; open_to = opens }

unmuted : is_user_muted 100 db 7 ≡ none
unfolding is_user_muted newest is_active_mute
unmuted = refl

may_post_test : may_post world caller db (get_topic_by_id db 1) 1 none ≡ true
unfolding may_post get_topic_by_id grants_of can_principal
may_post_test = refl

coherent_test : is_coherent greeting ≡ true
unfolding is_coherent
coherent_test = refl

db-IsKeyed : IsKeyed db
db-IsKeyed = record {
  keyed = λ m n at bt same. only m at ∙ sym (only n bt);
  below = λ m at. let one = ap (λ r. r.id) (only m at) in omega arith;
}
  where
    only : (m : Message) → Among m db.messages → m ≡ old_row
    only m (inl e) = sym e
    only m (inr away) = absurd away

db-IsSound : IsSound db
unfolding get_topic_by_id
db-IsSound = record { keys = db-IsKeyed; fit = only }
  where
    only : (m : Message) → Among m db.messages → IsFit db m
    only m (inl e) = subst (IsFit db) e (inl refl)
    only m (inr away) = absurd away

user_can_access_topic-MayOpen_example : MayOpen world db 7 "user" 1
user_can_access_topic-MayOpen_example = user_can_access_topic-MayOpen world db 7 "user" 1 opens

abbrev deletion : Request
deletion = message_delete_req 10 1

abbrev deleted_row : Message
deleted_row = record old_row { deleted_at = some 100 }

deletes_test : Among deleted_row (handle world caller deletion server).1.db.messages
unfolding handle on_message_delete get_message_owner user_can_access_topic get_topic_by_id
    can_view_topic may_change soft_delete_message
deletes_test = inl refl

handle-Origin_example :
    Origin world caller server (handle world caller deletion server).1.db deleted_row
handle-Origin_example =
    handle-Origin world caller deletion server db-IsKeyed deleted_row deletes_test

abbrev requests : List (World × Caller × Request)
requests = (world, caller, message_send greeting) ∷ (world, caller, deletion) ∷ []

serve-IsSound_example : IsSound (serve requests server).db
serve-IsSound_example = serve-IsSound requests server db-IsSound

topic_test : is_e2ee (get_topic_by_id db 1) ≡ false
unfolding get_topic_by_id
topic_test = refl

on_message_send-Delivered_example :
    Delivered world caller greeting (on_message_send world caller greeting server)
on_message_send-Delivered_example =
    on_message_send-Delivered world caller greeting server passed unmuted coherent_test
      may_post_test (sym topic_test)

cast_poll_vote-Outcome_example :
    Outcome db 20 7 (22 ∷ []) (find_poll db 20) (cast_poll_vote world 20 7 (22 ∷ []) db)
cast_poll_vote-Outcome_example = cast_poll_vote-Outcome world 20 7 (22 ∷ []) db

-- An option that is nowhere costs the user the vote that was there.
lost_vote_test : (cast_poll_vote world 20 7 (99 ∷ []) db).0 ≡ threw
unfolding cast_poll_vote insertable clear_votes
lost_vote_test = refl

abbrev shown_lunch : PollData
shown_lunch = shown_poll db lunch (some 1)

shown_test : get_poll_data db 20 ≡ some shown_lunch
unfolding get_poll_data get_message_topic_id
shown_test = refl

get_poll_data-counts_example :
    (shown_lunch.total_votes ≡ length (votes_in db 20))
    × All (λ o. o.vote_count ≡ length (for_option o.id (votes_in db 20))) shown_lunch.choices
get_poll_data-counts_example = get_poll_data-counts db 20 shown_lunch shown_test

abbrev inserted : NewMessage
inserted = record {
  topic_id = 1;
  sender_user_id = some 7;
  bot_id = none;
  body = "hello";
  attachments = item null nil;
  reply_to_message_id = none;
  search_text = some "hello";
  hashtags = [];
  ciphertext_json = none;
}

cipher_test : Deciphers world inserted
unfolding encode_content
cipher_test = refl

json_test : ReadsBack codec "hello" (item null nil)
json_test = (λ none_there. cc, refl)

abbrev inserted_row : Message
inserted_row = record (new_row world inserted 30) { search_vector = some "hello" }

inserted_test : Among inserted_row (insert_message world inserted db).1.messages
unfolding insert_message new_row
inserted_test = inr (inl refl)

fresh_test : inserted_row.id ≡ db.next_id
unfolding new_row
fresh_test = refl

show_row-insert_message_example :
    show_row world (insert_message world inserted db).1 inserted_row
    ≡ some (insert_message world inserted db).0
show_row-insert_message_example =
    show_row-insert_message world inserted db db-IsKeyed cipher_test json_test inserted_row
      inserted_test fresh_test
