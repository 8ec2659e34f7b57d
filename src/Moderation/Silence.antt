-- ===== src/Moderation/Silence.antt =====
-- apps/web/lib/moderation.ts against apps/ws/src/index.ts: a user who is muted is silent.
use legends_chat.Common.{
  ℕ, ◌≡◌, refl, ap, ◌∙◌, String, true, false, not, Option, none, some, List, [], ◌∷◌, ◌++◌, keep,
  ◌==◌, nat_eq, string_eq, ltb, if◌then◌else◌, guard, beq_refl, keep-append, keep_whole,
}
use legends_chat.Chat.Tables.{RowId, UserMute, Database, is_null, is_live}
use legends_chat.Chat.World.{World, Caller, Reply, Server}
use legends_chat.Chat.Gates.{is_user_muted, newest, newer, is_active_mute, user_can_access_topic}
use legends_chat.Chat.Posting.{SendMessage, is_coherent, on_message_send}
use legends_chat.Chat.Polls.{NewPoll}
use legends_chat.Chat.Socket.{on_poll_create, on_reaction_toggle}
use legends_chat.Chat.Requests.{
  topic_join, Request, message_send, topic_read, poll_create, poll_vote, poll_close,
  reaction_toggle, message_edit_req, message_delete_req, bot_keyboard_callback, handle,
}
use legends_chat.Moderation.Flags.{mute_row, mute_user}
use legends_chat.Moderation.Members.{log_admin_action}
use legends_chat.Moderation.Office.{Office, Sanction, State}

newest-append : (xs : List UserMute) (m : UserMute) → is_null (newest (xs ++ m ∷ [])) ≡ false
unfolding newest
newest-append [] m = refl
newest-append (x ∷ xs) m = there (newest (xs ++ m ∷ []))
  where
    there : (o : Option UserMute) → is_null (newer x o) ≡ false
    there none = refl
    there (some n) =
        guard (λ (o : Option UserMute). is_null o ≡ false) (ltb x.created_at n.created_at) _ _
          (λ _. refl) (λ _. refl)

mute_user-muted :
    (w : Office) (args : Sanction) (st : State) (db : Database) (later : ℕ)
    → db.user_mutes ≡ (mute_user w args st).base.user_mutes
    → is_live later args.expires_at ≡ true
    → is_null (is_user_muted later db args.user_id) ≡ false
unfolding is_user_muted mute_user log_admin_action is_active_mute
mute_user-muted w args st db later same live =
    let old = st.base.user_mutes in
    let row = mute_row w args st.base.next_id in
    let active = is_active_mute later args.user_id in
    let passes : active row ≡ true = rw (beq_refl args.user_id) live in
    ap (λ rows. is_null (newest (keep active rows))) same
    ∙ ap (λ rows. is_null (newest rows))
        (keep-append active old (row ∷ [])
          ∙ ap (λ rows. keep active old ++ rows) (keep_whole active (row ∷ []) (passes, tt)))
    ∙ newest-append (keep active old) row

-- The server is as it was.
abbrev pub Still : Server → Reply × Server → Type 0
Still s out = out.1 ≡ s

module _ (w : World) (caller : Caller) (s : Server)
    (muted : is_null (is_user_muted w.now s.db caller.sub) ≡ false) where
  barred :
      (x y : Reply × Server)
      → Still s x
      → Still s (if not (is_null (is_user_muted w.now s.db caller.sub)) then x else y)
  barred x y still = rw muted still

  muted-send : (m : SendMessage) → Still s (on_message_send w caller m s)
  unfolding on_message_send
  muted-send m =
      guard (Still s) w.limited _ _ (λ _. refl)
        (λ _.
          guard (Still s) (not (is_coherent m)) _ _ (λ _. refl)
            (λ _.
              guard (Still s) (not (user_can_access_topic w s.db caller.sub caller.role m.topic_id))
                _ _ (λ _. refl) (λ _. barred _ _ refl)))

  muted-poll : (args : NewPoll) → Still s (on_poll_create w caller args s)
  unfolding on_poll_create
  muted-poll args =
      guard (Still s) w.limited _ _ (λ _. refl)
        (λ _.
          guard (Still s) (caller.role == "user") _ _ (λ _. refl)
            (λ _.
              guard (Still s)
                (not (user_can_access_topic w s.db caller.sub caller.role args.topic_id)) _ _
                (λ _. refl) (λ _. barred _ _ refl)))

  muted-reaction :
      (message_id : RowId) (emoji : String)
      → Still s (on_reaction_toggle w caller message_id emoji s)
  unfolding on_reaction_toggle
  muted-reaction message_id emoji = guard (Still s) w.limited _ _ (λ _. refl) (λ _. barred _ _ refl)

-- What a user says: a message, a poll, a reaction.
abbrev pub Speaks : Request → Type 0
Speaks (message_send m) = Unit
Speaks (poll_create args) = Unit
Speaks (reaction_toggle message_id emoji) = Unit
Speaks _ = ⊥

-- While a mute of a user lasts, and the table of mutes is as it was after it, no message, poll or
-- reaction of the user changes anything in the socket server, emits anything or starts anything.
pub mute_user-silences :
    (o : Office) (args : Sanction) (st : State) (w : World) (caller : Caller) (s : Server)
    → caller.sub ≡ args.user_id
    → s.db.user_mutes ≡ (mute_user o args st).base.user_mutes
    → is_live w.now args.expires_at ≡ true
    → (r : Request) → Speaks r
    → (handle w caller r s).1 ≡ s
unfolding handle
mute_user-silences o args st w caller s is_it same live r speaks =
    let muted =
      ap (λ u. is_null (is_user_muted w.now s.db u)) is_it
      ∙ mute_user-muted o args st s.db w.now same live in
    silent muted r speaks
  where
    silent :
        is_null (is_user_muted w.now s.db caller.sub) ≡ false
        → (r : Request) → Speaks r
        → (handle w caller r s).1 ≡ s
    silent muted (message_send m) speaks = muted-send w caller s muted m
    silent muted (poll_create args) speaks = muted-poll w caller s muted args
    silent muted (reaction_toggle message_id emoji) speaks =
        muted-reaction w caller s muted message_id emoji
    silent muted (topic_join key) speaks = absurd speaks
    silent muted (topic_read t m) speaks = absurd speaks
    silent muted (poll_vote p os) speaks = absurd speaks
    silent muted (poll_close p) speaks = absurd speaks
    silent muted (message_edit_req m) speaks = absurd speaks
    silent muted (message_delete_req m t) speaks = absurd speaks
    silent muted (bot_keyboard_callback b m pressed) speaks = absurd speaks
