-- ===== src/Chat/Steps/Origins.antt =====
-- apps/ws/src/index.ts and messages.ts: where the message rows after a request come from.
use legends_chat.Common.{
  ◌≡◌, refl, sym, ap, ◌∙◌, subst, String, true, ◌&&◌, none, some, keep, ◌==◌, nat_eq, string_eq,
  inl, inr, nat_beq_iff, ◌⊎◌, Any, Among, Any-append, and-cases,
}
use legends_chat.Chat.Tables.{RowId, Message, Poll, Database, is_null, first}
use legends_chat.Chat.World.{World, Caller, InsertedMessage, Server}
use legends_chat.Chat.Gates.{get_topic_by_id, get_message_owner}
use legends_chat.Chat.Messages.{
  NewMessage, new_row, insert_rows, insert_message, is_sealed, set_last_read_message,
  toggle_reaction,
}
use legends_chat.Chat.Edits.{Payload, seals, edit_message, edit_row, soft_delete_message}
use legends_chat.Chat.Polls.{create_poll_message, poll_message, close_poll_by_id}
use legends_chat.Chat.Posting.{is_e2ee, deliver, new_message, processed, valid_hashtags, fan_out}
use legends_chat.Chat.Requests.{Request, handle, may_change}
use legends_chat.Chat.Steps.{
  Step, stays, sends, reads, asks, votes, closes, reacts, edits, deletes, presses, Passed, Unmuted,
  MayChange,
}
use legends_chat.Chat.Steps.Handlers.{handle-Step}
use legends_chat.Chat.Steps.{joins}
use legends_chat.Chat.Steps.Beside.{
  ensure_topic_membership-Grown, toggle_reaction-Beside, vote_answer-Beside,
}
use legends_chat.Chat.Steps.Rows.{IsKeyed}
use legends_chat.Chat.Steps.Inserts.{
  Updated, update_where-Among, first_of, Inserted, insert_rows-Among,
}
use legends_chat.Chat.Steps.Looked.{edit_current-some, is_live_row, live_row}

-- A poll of the message.
abbrev pub CarriedBy : RowId → Poll → Type 0
CarriedBy id p = p.message_id ≡ id

-- Where a row after a request comes from: it was there; it is new, in a topic that the caller may open;
-- or it was there and somebody who may has edited or deleted it.
pub data Origin (w : World) (caller : Caller) (s : Server) (after : Database) (m : Message)
    : Type 0 where
  kept : Among m s.db.messages → Origin w caller s after m
  sent :
      Passed w caller s (some m.topic_id)
      → Unmuted w caller s
      → m.id ≡ s.db.next_id
      → m.sender_user_id ≡ some caller.sub
      → is_sealed m.ciphertext_json ≡ is_e2ee (get_topic_by_id s.db m.topic_id)
      → Origin w caller s after m
  asked :
      Passed w caller s (some m.topic_id)
      → Unmuted w caller s
      → m.id ≡ s.db.next_id
      → m.sender_user_id ≡ some caller.sub
      → m.ciphertext_json ≡ none
      → Any (CarriedBy m.id) after.polls
      → Origin w caller s after m
  edited :
      (old : Message) (payload : Payload)
      → Among old s.db.messages
      → m ≡ edit_row w old.topic_id payload old
      → Passed w caller s (some old.topic_id)
      → is_null old.deleted_at ≡ true
      → may_change caller "messages.edit.own" "messages.edit.any" old ≡ true
      → seals payload ≡ is_e2ee (get_topic_by_id s.db old.topic_id)
      → Origin w caller s after m
  deleted :
      (old : Message)
      → Among old s.db.messages
      → m ≡ record old { deleted_at = some w.now }
      → Passed w caller s (some old.topic_id)
      → is_null old.deleted_at ≡ true
      → may_change caller "messages.delete.own" "messages.delete.any" old ≡ true
      → Origin w caller s after m

-- The row of a live message is the one that its owner was looked up by.
owned :
    (caller : Caller) (s : Server) (topic_id message_id : RowId) (own any : String)
    → IsKeyed s.db
    → MayChange caller s topic_id message_id own any
    → (old : Message) → Among old s.db.messages
    → old.id ≡ message_id
    → (is_null old.deleted_at ≡ true) × (may_change caller own any old ≡ true)
unfolding get_message_owner
owned caller s topic_id message_id own any k may old among is_it =
    let (there, holds) =
      first_of (λ m. m.id == message_id && is_null m.deleted_at) may.owner s.db.messages
        may.there in
    let (same, live) =
      and-cases (may.owner.id == message_id) (is_null may.owner.deleted_at) holds in
    let one =
      k.keyed old may.owner among there
        (is_it ∙ sym ((nat_beq_iff may.owner.id message_id).0 same)) in
    (ap (λ r. is_null r.deleted_at) one ∙ live, ap (may_change caller own any) one ∙ may.granted)

edits-Origin :
    (w : World) (caller : Caller) (s : Server) (after : Database) (message_id topic_id : RowId)
    (payload : Payload) (out : InsertedMessage × Database)
    → IsKeyed s.db
    → Passed w caller s (some topic_id)
    → MayChange caller s topic_id message_id "messages.edit.own" "messages.edit.any"
    → seals payload ≡ is_e2ee (get_topic_by_id s.db topic_id)
    → edit_message w message_id topic_id payload caller.sub s.db ≡ some out
    → (m : Message) → Among m out.1.messages
    → Origin w caller s after m
unfolding edit_message is_live_row Updated
edits-Origin w caller s after message_id topic_id payload out k p may fits h m at =
    let (current, found, same, e) =
      edit_current-some w topic_id payload caller.sub
        (first (keep (is_live_row message_id topic_id) s.db.messages)) s.db out h in
    let (here, holds) = first_of (is_live_row message_id topic_id) current s.db.messages found in
    let (id_is, topic_is) = live_row message_id topic_id current holds in
    let (old, among, how) =
      update_where-Among (λ r. r.id == current.id) (edit_row w topic_id payload) m s.db.messages
        (subst (λ db. Among m db.messages) e at) in
    elim how [
      | inl kept_it ↦ kept (rw kept_it among)
      | inr (hit, changed) ↦
          let one = k.keyed old current among here ((nat_beq_iff old.id current.id).0 hit) in
          let topic_eq = ap (λ r. r.topic_id) one ∙ topic_is in
          let (live, granted) =
            owned caller s topic_id message_id "messages.edit.own" "messages.edit.any" k may old
              among (ap (λ r. r.id) one ∙ id_is) in
          edited old payload among (changed ∙ ap (λ t. edit_row w t payload old) (sym topic_eq))
            (rw topic_eq p) live granted (rw topic_eq fits)
    ]

deletes-Origin :
    (w : World) (caller : Caller) (s : Server) (after : Database) (message_id topic_id : RowId)
    → IsKeyed s.db
    → Passed w caller s (some topic_id)
    → MayChange caller s topic_id message_id "messages.delete.own" "messages.delete.any"
    → (m : Message) → Among m (soft_delete_message w message_id topic_id s.db).messages
    → Origin w caller s after m
unfolding soft_delete_message is_live_row Updated
deletes-Origin w caller s after message_id topic_id k p may m at =
    let (old, among, how) =
      update_where-Among (is_live_row message_id topic_id)
        (λ m. record m { deleted_at = some w.now }) m s.db.messages at in
    elim how [
      | inl kept_it ↦ kept (rw kept_it among)
      | inr (hit, changed) ↦
          let (id_is, topic_is) = live_row message_id topic_id old hit in
          let (live, granted) =
            owned caller s topic_id message_id "messages.delete.own" "messages.delete.any" k may old
              among id_is in
          deleted old among changed (rw topic_is p) live granted
    ]

sends-Origin :
    (w : World) (caller : Caller) (s : Server) (after : Database) (args : NewMessage)
    → IsKeyed s.db
    → Passed w caller s (some args.topic_id)
    → Unmuted w caller s
    → args.sender_user_id ≡ some caller.sub
    → (is_sealed args.ciphertext_json ≡ is_e2ee (get_topic_by_id s.db args.topic_id))
      ⊎ ((args.ciphertext_json ≡ none) × Any (CarriedBy s.db.next_id) after.polls)
    → (m : Message) → Among m (insert_rows w args s.db).messages
    → Origin w caller s after m
unfolding Inserted
sends-Origin w caller s after args k p u by fits m at =
    elim (insert_rows-Among w args s.db k m at) [
      | inl before ↦ kept before
      | inr (fresh, topic_is, sender, json) ↦ elim fits [
        | inl sealed ↦ sent (rw topic_is p) u fresh (sender ∙ by) (rw (topic_is, json) sealed)
        | inr (unsealed, poll) ↦
            asked (rw topic_is p) u fresh (sender ∙ by) (json ∙ unsealed) (rw fresh poll)
      ]
    ]

Step-Origin :
    (w : World) (caller : Caller) (s s' : Server)
    → Step w caller s s'
    → IsKeyed s.db
    → (m : Message) → Among m s'.db.messages
    → Origin w caller s s'.db m
unfolding deliver fan_out insert_message create_poll_message set_last_read_message toggle_reaction
    close_poll_by_id new_row
Step-Origin w caller s s' stays k m at = kept at
Step-Origin w caller s s' (joins key t found under may) k m at =
    kept (
      subst (λ ms. Among m ms) (ensure_topic_membership-Grown w caller.sub t.id s.db).messages_eq
        at)
Step-Origin w caller s s' (sends args p u coherent may fits) k m at =
    let topic = get_topic_by_id s.db args.topic_id in
    sends-Origin w caller s s'.db
      (new_message caller topic args (processed w (is_e2ee topic) args.body)
        (valid_hashtags args.hashtags))
      k p u refl (inl fits) m at
Step-Origin w caller s s' (reads t i p) k m at = kept at
Step-Origin w caller s s' (asks args p u staff by) k m at =
    sends-Origin w caller s s'.db (poll_message args) k p u (ap some by)
      (inr (refl, Any-append (CarriedBy s.db.next_id) s.db.polls _ (inr (inl refl)))) m at
Step-Origin w caller s s' (votes p os passed) k m at =
    kept (subst (λ ms. Among m ms) (vote_answer-Beside w caller p os s).messages_eq at)
Step-Origin w caller s s' (closes p passed staff) k m at = kept at
Step-Origin w caller s s' (reacts t i emoji there p u) k m at =
    kept
      (subst (λ ms. Among m ms) (toggle_reaction-Beside w i caller.sub emoji s.db).messages_eq at)
Step-Origin w caller s s' (edits i t payload out p may fits e) k m at =
    edits-Origin w caller s s'.db i t payload out k p may fits e m at
Step-Origin w caller s s' (deletes i t p may) k m at =
    deletes-Origin w caller s s'.db i t k p may m at
Step-Origin w caller s s' (presses t b i pressed there p known) k m at = kept at

-- If the ids of the messages are distinct and below the counter of fresh ids, then every message row
-- after a request was there before; or the limiter has passed and the caller may open the row's topic, and
-- the row is a new one of the caller, who is not muted, as a message that is sealed exactly if the topic is
-- encrypted, or with a poll; or it is a row that was live, that the caller has permission to edit or to
-- delete, changed by nothing but that edit or deletion.
pub handle-Origin :
    (w : World) (caller : Caller) (r : Request) (s : Server)
    → IsKeyed s.db
    → (m : Message) → Among m (handle w caller r s).1.db.messages
    → Origin w caller s (handle w caller r s).1.db m
handle-Origin w caller r s =
    Step-Origin w caller s (handle w caller r s).1 (handle-Step w caller r s)
