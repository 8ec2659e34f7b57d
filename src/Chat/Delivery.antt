-- ===== src/Chat/Delivery.antt =====
-- apps/ws/src/index.ts: a message that nothing speaks against is delivered.
use legends_chat.Common.{
  ◌≡◌, refl, sym, ap, ◌∙◌, subst, String, Bool, true, false, not, ◌&&◌, Option, none, some, List,
  [], ◌∷◌, ◌++◌, ◌==◌, nat_eq, if◌then◌else◌, Bool-cases, inl, inr, Among, Any, Any-append, Any-map,
}
use legends_chat.Chat.Tables.{RowId, Json, nil, User, Message, is_null}
use legends_chat.Chat.Content.{encode_content}
use legends_chat.Chat.World.{
  World, Caller, InsertedMessage, Reply, ok_message, to_topic, message_new, Server,
}
use legends_chat.Chat.Gates.{get_topic_by_id, is_user_muted, user_can_access_topic}
use legends_chat.Chat.Messages.{
  new_row, index_row, indexed, insert_message, is_blank, is_sealed, stored, shown, sent_content,
}
use legends_chat.Chat.Socket.{reaches}
use legends_chat.Chat.Posting.{
  SendMessage, is_coherent, is_e2ee, may_post, deliver, fan_out, send_unmuted, on_message_send,
  new_message, processed, valid_hashtags,
}
use legends_chat.Chat.Steps.{Passed, Unmuted}

otherwise : {A : Type 0} (b : Bool) (x y : A) → b ≡ false → (if b then x else y) ≡ y
otherwise true x y h = cc
otherwise false x y h = refl

refuses : (b : Bool) → b ≡ true → not b ≡ false
refuses b h = ap not h

-- An encrypted topic takes envelopes, and no other topic does.
fits_left : (e sealed : Bool) → sealed ≡ e → (e && not sealed) ≡ false
fits_left true sealed h = ap not h
fits_left false sealed h = refl

fits_right : (e sealed : Bool) → sealed ≡ e → (not e && sealed) ≡ false
fits_right true sealed h = refl
fits_right false sealed h = h

on_message_send-deliver :
    (w : World) (caller : Caller) (m : SendMessage) (s : Server)
    → Passed w caller s (some m.topic_id)
    → Unmuted w caller s
    → is_coherent m ≡ true
    → may_post w caller s.db (get_topic_by_id s.db m.topic_id) m.topic_id m.reply_to_message_id
      ≡ true
    → is_sealed m.ciphertext_json ≡ is_e2ee (get_topic_by_id s.db m.topic_id)
    → on_message_send w caller m s ≡ deliver w caller (get_topic_by_id s.db m.topic_id) m s
unfolding on_message_send send_unmuted reaches
on_message_send-deliver w caller m s p u coherent may fits =
    let topic = get_topic_by_id s.db m.topic_id in
    otherwise w.limited _ _ p.under
    ∙ otherwise (not (is_coherent m)) _ _ (refuses _ coherent)
    ∙ otherwise (not (user_can_access_topic w s.db caller.sub caller.role m.topic_id)) _ _
        (refuses _ p.open_to)
    ∙ otherwise (not (is_null (is_user_muted w.now s.db caller.sub))) _ _
        (ap (λ o. not (is_null o)) u)
    ∙ otherwise (not (may_post w caller s.db topic m.topic_id m.reply_to_message_id)) _ _
        (refuses _ may)
    ∙ otherwise (is_e2ee topic && not (is_sealed m.ciphertext_json)) _ _
        (fits_left (is_e2ee topic) (is_sealed m.ciphertext_json) fits)
    ∙ otherwise (not (is_e2ee topic) && is_sealed m.ciphertext_json) _ _
        (fits_right (is_e2ee topic) (is_sealed m.ciphertext_json) fits)

-- The text of a plain message: what is blank is kept, and links are rewritten elsewhere.
abbrev pub linked : World → String → String
linked w t = if is_blank t then t else w.process_links t

-- What is shown of the content: the text and the attachments that were sent, and of an envelope no
-- text and no attachment.
abbrev pub Shows : World → SendMessage → Option Json → InsertedMessage → Type 0
Shows w m none msg = (msg.body ≡ linked w m.body) × (msg.attachments ≡ m.attachments)
Shows w m (some json) msg = (msg.body ≡ "") × (msg.attachments ≡ nil)

-- What is stored of it: the content encrypted for the topic, and for an envelope nothing.
abbrev pub Holds : World → SendMessage → Option Json → Message → Type 0
Holds w m none r =
    let cipher =
      w.codec.encrypt w.seed w.current_key (encode_content w.codec (linked w m.body) m.attachments)
        m.topic_id in
    (r.content_ciphertext ≡ cipher.0) × (r.content_nonce ≡ cipher.1)
Holds w m (some json) r = (r.content_ciphertext ≡ []) × (r.content_nonce ≡ [])

-- The message shown is the one that was sent.
pub record IsSent (w : World) (caller : Caller) (m : SendMessage) (msg : InsertedMessage)
    : Type 0 where
  pub topic : msg.topic_id ≡ m.topic_id
  pub sender : msg.sender_user_id ≡ some caller.sub
  pub target : msg.reply_to_message_id ≡ m.reply_to_message_id
  pub envelope : msg.ciphertext_json ≡ m.ciphertext_json
  pub content : Shows w m m.ciphertext_json msg

-- The row keeps the one that was sent, and is not deleted.
pub record IsKept (w : World) (caller : Caller) (m : SendMessage) (id : RowId) (r : Message)
    : Type 0 where
  pub same_id : r.id ≡ id
  pub topic : r.topic_id ≡ m.topic_id
  pub sender : r.sender_user_id ≡ some caller.sub
  pub target : r.reply_to_message_id ≡ m.reply_to_message_id
  pub envelope : r.ciphertext_json ≡ m.ciphertext_json
  pub tags : r.hashtags ≡ valid_hashtags m.hashtags
  pub visible : r.deleted_at ≡ none
  pub content : Holds w m m.ciphertext_json r

-- The answer is the message that was sent; the room has it, and the table has its row.
abbrev pub Delivered : World → Caller → SendMessage → Reply × Server → Type 0
Delivered w caller m out =
    (msg : InsertedMessage) × IsSent w caller m msg
    × (out.0 ≡ ok_message msg)
    × Among (to_topic m.topic_id (message_new msg)) out.1.emitted
    × Any (IsKept w caller m msg.id) out.1.db.messages

-- The index of the search leaves the rest of a row alone.
IsKept-indexed :
    (w : World) (caller : Caller) (m : SendMessage) (id : RowId) (t : String) (r : Message)
    → IsKept w caller m id r
    → IsKept w caller m id (if r.id == id then record r { search_vector = some t } else r)
IsKept-indexed w caller m id t r k = elim (Bool-cases (r.id == id)) [
  | inl hit ↦ rw hit (record {
    same_id = k.same_id;
    topic = k.topic;
    sender = k.sender;
    target = k.target;
    envelope = k.envelope;
    tags = k.tags;
    visible = k.visible;
    content = Holds-indexed w m m.ciphertext_json r t k.content;
  })
  | inr miss ↦ rw miss k
]
  where
    Holds-indexed :
        (w : World) (m : SendMessage) (o : Option Json) (r : Message) (t : String)
        → Holds w m o r
        → Holds w m o (record r { search_vector = some t })
    Holds-indexed w m none r t h = h
    Holds-indexed w m (some json) r t h = h

indexed_there :
    (w : World) (caller : Caller) (m : SendMessage) (id : RowId) (o : Option String)
    (rows : List Message)
    → Any (IsKept w caller m id) rows
    → Any (IsKept w caller m id) (index_row id o rows)
indexed_there w caller m id none rows h = h
indexed_there w caller m id (some t) rows h =
    Any-map (λ r. if r.id == id then record r { search_vector = some t } else r)
      (IsKept w caller m id) (IsKept w caller m id) (IsKept-indexed w caller m id t) rows h

-- What is sent fits the topic, so that only a plain text is rewritten.
sent-Shows :
    (w : World) (m : SendMessage) (e : Bool) (o : Option Json) (sender : Option User)
    (row : Message)
    → is_sealed o ≡ e
    → Shows w m o (shown sender row (sent_content o (processed w e m.body) m.attachments))
unfolding processed
sent-Shows w m e (some json) sender row fits = (refl, refl)
sent-Shows w m false none sender row fits = (refl, refl)
sent-Shows w m true none sender row fits = cc

stored-Holds :
    (w : World) (m : SendMessage) (e : Bool) (o : Option Json) (r : Message)
    → is_sealed o ≡ e
    → r.content_ciphertext ≡ (stored w m.topic_id o (processed w e m.body) m.attachments).0
    → r.content_nonce ≡ (stored w m.topic_id o (processed w e m.body) m.attachments).1
    → Holds w m o r
unfolding processed
stored-Holds w m e (some json) r fits cipher nonce = (cipher, nonce)
stored-Holds w m false none r fits cipher nonce = (cipher, nonce)
stored-Holds w m true none r fits cipher nonce = cc

deliver-Delivered :
    (w : World) (caller : Caller) (m : SendMessage) (s : Server)
    → is_sealed m.ciphertext_json ≡ is_e2ee (get_topic_by_id s.db m.topic_id)
    → Delivered w caller m (deliver w caller (get_topic_by_id s.db m.topic_id) m s)
unfolding deliver fan_out insert_message new_row
deliver-Delivered w caller m s fits =
    let topic = get_topic_by_id s.db m.topic_id in
    let e = is_e2ee topic in
    let args = new_message caller topic m (processed w e m.body) (valid_hashtags m.hashtags) in
    let row = new_row w args s.db.next_id in
    (
      (insert_message w args s.db).0,
      record {
        topic = refl;
        sender = refl;
        target = refl;
        envelope = refl;
        content = sent-Shows w m e m.ciphertext_json _ row fits;
      },
      refl,
      Any-append _ s.emitted _ (inr (inl refl)),
      indexed_there w caller m s.db.next_id (indexed args) (s.db.messages ++ row ∷ []) (
          Any-append _ s.db.messages (row ∷ []) (
            inr (
              inl (record {
                same_id = refl;
                topic = refl;
                sender = refl;
                target = refl;
                envelope = refl;
                tags = refl;
                visible = refl;
                content = stored-Holds w m e m.ciphertext_json row fits refl refl;
              })))),
    )

-- If the limiter passes, the payload is coherent, the sender may open the topic and post in it and is not
-- muted, and the message is an envelope exactly where the topic is encrypted, then it is delivered: the
-- answer is a message with the topic, the reply target, the envelope, the text (links rewritten) and the
-- attachments that were sent, from the caller; the room gets this message, and the table has a row with
-- its id and the same, the content encrypted, with the valid hashtags, not deleted.
pub on_message_send-Delivered :
    (w : World) (caller : Caller) (m : SendMessage) (s : Server)
    → Passed w caller s (some m.topic_id)
    → Unmuted w caller s
    → is_coherent m ≡ true
    → may_post w caller s.db (get_topic_by_id s.db m.topic_id) m.topic_id m.reply_to_message_id
      ≡ true
    → is_sealed m.ciphertext_json ≡ is_e2ee (get_topic_by_id s.db m.topic_id)
    → Delivered w caller m (on_message_send w caller m s)
on_message_send-Delivered w caller m s p u coherent may fits =
    subst (Delivered w caller m) (sym (on_message_send-deliver w caller m s p u coherent may fits))
      (deliver-Delivered w caller m s fits)
