-- ===== src/Chat/Steps/Handlers.antt =====
-- apps/ws/src/index.ts: every handler takes one of the steps of the parent.
use legends_chat.Common.{
  ◌≡◌, refl, String, Bool, true, false, not, ◌&&◌, Option, none, some, List, nat_eq, string_eq,
  guard,
}
use legends_chat.Chat.Tables.{RowId}
use legends_chat.Chat.World.{World, Caller, Server}
use legends_chat.Chat.Gates.{get_message_topic_id, get_topic_by_id}
use legends_chat.Chat.Messages.{is_sealed}
use legends_chat.Chat.Polls.{NewPoll}
use legends_chat.Chat.Socket.{
  reaches, on_topic_read, on_poll_create, on_poll_vote, on_poll_close, on_reaction_toggle, react_in,
}
use legends_chat.Chat.Posting.{SendMessage, is_coherent, is_e2ee, send_unmuted, on_message_send}
use legends_chat.Chat.Requests.{
  Request, message_send, topic_read, poll_create, poll_vote, poll_close, reaction_toggle,
  message_edit_req, message_delete_req, bot_keyboard_callback, handle, on_bot_keyboard_callback,
  press_in,
}
use legends_chat.Chat.Steps.{
  Step, stays, sends, reads, asks, votes, closes, reacts, presses, Passed, Unmuted,
}
use legends_chat.Chat.Steps.Joins.{on_topic_join-Step}
use legends_chat.Chat.Requests.{topic_join}
use legends_chat.Chat.Steps.Guards.{opened, unset, Steps, passed}
use legends_chat.Chat.Steps.Editing.{on_message_edit-Step, on_message_delete-Step}

both : (e sealed : Bool) → (e && not sealed) ≡ false → (not e && sealed) ≡ false → sealed ≡ e
both true sealed h k = opened _ h
both false sealed h k = k

send_unmuted-Step :
    (w : World) (caller : Caller) (m : SendMessage) (s : Server)
    → Passed w caller s (some m.topic_id)
    → Unmuted w caller s
    → is_coherent m ≡ true
    → Steps w caller s (send_unmuted w caller (get_topic_by_id s.db m.topic_id) m s)
unfolding send_unmuted
send_unmuted-Step w caller m s p u coherent =
    let topic = get_topic_by_id s.db m.topic_id in
    guard (Steps w caller s) _ _ _ (λ _. stays)
      (λ may.
        guard (Steps w caller s) _ _ _ (λ _. stays)
          (λ left.
            guard (Steps w caller s) _ _ _ (λ _. stays)
              (λ right.
                sends m p u coherent (opened _ may)
                  (both (is_e2ee topic) (is_sealed m.ciphertext_json) left right))))

on_message_send-Step :
    (w : World) (caller : Caller) (m : SendMessage) (s : Server)
    → Steps w caller s (on_message_send w caller m s)
unfolding on_message_send reaches
on_message_send-Step w caller m s =
    guard (Steps w caller s) w.limited _ _ (λ _. stays)
      (λ under.
        guard (Steps w caller s) _ _ _ (λ _. stays)
          (λ coherent.
            guard (Steps w caller s) _ _ _ (λ _. stays)
              (λ shut.
                guard (Steps w caller s) _ _ _ (λ _. stays)
                  (λ muted.
                    send_unmuted-Step w caller m s (passed under shut) (unset _ muted)
                      (opened _ coherent)))))

on_topic_read-Step :
    (w : World) (caller : Caller) (t m : RowId) (s : Server)
    → Steps w caller s (on_topic_read w caller t m s)
unfolding on_topic_read reaches
on_topic_read-Step w caller t m s =
    guard (Steps w caller s) w.limited _ _ (λ _. stays)
      (λ under. guard (Steps w caller s) _ _ _ (λ _. stays) (λ shut. reads t m (passed under shut)))

on_poll_create-Step :
    (w : World) (caller : Caller) (args : NewPoll) (s : Server)
    → Steps w caller s (on_poll_create w caller args s)
unfolding on_poll_create reaches
on_poll_create-Step w caller args s =
    guard (Steps w caller s) w.limited _ _ (λ _. stays)
      (λ under.
        guard (Steps w caller s) _ _ _ (λ _. stays)
          (λ staff.
            guard (Steps w caller s) _ _ _ (λ _. stays)
              (λ shut.
                guard (Steps w caller s) _ _ _ (λ _. stays)
                  (λ muted.
                    asks (record args { created_by_user_id = caller.sub }) (passed under shut)
                      (unset _ muted) staff refl))))

on_poll_vote-Step :
    (w : World) (caller : Caller) (p : RowId) (os : List RowId) (s : Server)
    → Steps w caller s (on_poll_vote w caller p os s)
unfolding on_poll_vote
on_poll_vote-Step w caller p os s =
    guard (Steps w caller s) w.limited _ _ (λ _. stays)
      (λ under.
        guard (Steps w caller s) _ _ _ (λ _. stays) (λ shut. votes p os (passed under shut)))

on_poll_close-Step :
    (w : World) (caller : Caller) (p : RowId) (s : Server)
    → Steps w caller s (on_poll_close w caller p s)
unfolding on_poll_close
on_poll_close-Step w caller p s =
    guard (Steps w caller s) w.limited _ _ (λ _. stays)
      (λ under.
        guard (Steps w caller s) _ _ _ (λ _. stays)
          (λ staff.
            guard (Steps w caller s) _ _ _ (λ _. stays)
              (λ shut. closes p (passed under shut) staff)))

react_in-Step :
    (w : World) (caller : Caller) (m : RowId) (emoji : String) (s : Server) (t : Option RowId)
    → get_message_topic_id s.db m ≡ t
    → w.limited ≡ false
    → Unmuted w caller s
    → Steps w caller s (react_in w caller t m emoji s)
unfolding reaches
react_in-Step w caller m emoji s none at under u = stays
react_in-Step w caller m emoji s (some t) at under u =
    guard (Steps w caller s) _ _ _ (λ _. stays) (λ shut. reacts t m emoji at (passed under shut) u)

on_reaction_toggle-Step :
    (w : World) (caller : Caller) (m : RowId) (emoji : String) (s : Server)
    → Steps w caller s (on_reaction_toggle w caller m emoji s)
unfolding on_reaction_toggle
on_reaction_toggle-Step w caller m emoji s =
    guard (Steps w caller s) w.limited _ _ (λ _. stays)
      (λ under.
        guard (Steps w caller s) _ _ _ (λ _. stays)
          (λ muted. react_in-Step w caller m emoji s _ refl under (unset _ muted)))

press_in-Step :
    (w : World) (caller : Caller) (bot_id m : RowId) (pressed : String) (s : Server)
    (t : Option RowId)
    → get_message_topic_id s.db m ≡ t
    → w.limited ≡ false
    → Steps w caller s (press_in w caller t bot_id m pressed s)
unfolding reaches
press_in-Step w caller bot_id m pressed s none at under = stays
press_in-Step w caller bot_id m pressed s (some t) at under =
    guard (Steps w caller s) _ _ _ (λ _. stays)
      (λ shut.
        guard (Steps w caller s) _ _ _ (λ _. stays)
          (λ known. presses t bot_id m pressed at (passed under shut) (opened _ known)))

on_bot_keyboard_callback-Step :
    (w : World) (caller : Caller) (bot_id m : RowId) (pressed : String) (s : Server)
    → Steps w caller s (on_bot_keyboard_callback w caller bot_id m pressed s)
unfolding on_bot_keyboard_callback
on_bot_keyboard_callback-Step w caller bot_id m pressed s =
    guard (Steps w caller s) w.limited _ _ (λ _. stays)
      (λ under. press_in-Step w caller bot_id m pressed s _ refl under)

pub handle-Step :
    (w : World) (caller : Caller) (r : Request) (s : Server)
    → Step w caller s (handle w caller r s).1
unfolding handle
handle-Step w caller (topic_join key) s = on_topic_join-Step w caller key s
handle-Step w caller (message_send m) s = on_message_send-Step w caller m s
handle-Step w caller (topic_read t m) s = on_topic_read-Step w caller t m s
handle-Step w caller (poll_create args) s = on_poll_create-Step w caller args s
handle-Step w caller (poll_vote p os) s = on_poll_vote-Step w caller p os s
handle-Step w caller (poll_close p) s = on_poll_close-Step w caller p s
handle-Step w caller (reaction_toggle m emoji) s = on_reaction_toggle-Step w caller m emoji s
handle-Step w caller (message_edit_req m) s = on_message_edit-Step w caller m s
handle-Step w caller (message_delete_req m t) s = on_message_delete-Step w caller m t s
handle-Step w caller (bot_keyboard_callback b m pressed) s =
    on_bot_keyboard_callback-Step w caller b m pressed s
