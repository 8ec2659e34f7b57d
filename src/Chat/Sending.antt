-- ===== src/Chat/Sending.antt =====
-- apps/ws/src/messages.ts and index.ts: a message that is sent is stored, sent to the room and read back.
use legends_chat.Common.{
  ◌≡◌, refl, sym, ap, ◌∙◌, String, some, [], ◌∷◌, ◌++◌, nat_eq, Option-cases, inl, inr, Among,
  Among-append, arith,
}
use legends_chat.Chat.Tables.{RowId, nil, Message, Items, Database}
use legends_chat.Chat.World.{World}
use legends_chat.Chat.Content.{Codec, envelope, IsPlain, encode_content, decode-encode}
use legends_chat.Chat.Messages.{
  NewMessage, new_row, indexed, insert_rows, insert_message, read_content, show_row, sent_content,
  decode_raw,
}
use legends_chat.Chat.Steps.Inserts.{Indexed, index_row-Among}
use legends_chat.Chat.Steps.Rows.{IsKeyed}

-- What the cipher promises, of a message: what it encrypts for the topic, it decrypts.
abbrev pub Deciphers : World → NewMessage → Type 0
Deciphers w args =
    let sealed =
      w.codec.encrypt w.seed w.current_key (encode_content w.codec args.body args.attachments)
        args.topic_id in
    w.codec.decrypt w.current_key sealed.0 sealed.1 args.topic_id
    ≡ some (encode_content w.codec args.body args.attachments)

-- JSON gives back the content of the message, and a text without attachments is not taken for one.
abbrev pub ReadsBack : Codec → String → Items → Type 0
ReadsBack codec t a =
    ((a ≡ nil) → IsPlain codec t)
    × (codec.parse (codec.stringify (envelope t a)) ≡ some (envelope t a))

read_content-new_row :
    (w : World) (args : NewMessage) (id : RowId)
    → Deciphers w args
    → ReadsBack w.codec args.body args.attachments
    → read_content w (new_row w args id)
      ≡ some (sent_content args.ciphertext_json args.body args.attachments)
unfolding read_content new_row
read_content-new_row w args id deciphers back = elim (Option-cases args.ciphertext_json) [
  | inr (json, sealed) ↦ rw sealed refl
  | inl unsealed ↦ rw unsealed (
      ap (decode_raw w.codec) deciphers
      ∙ ap some (decode-encode w.codec args.body args.attachments back.0 back.1))
]

show_row-new_row :
    (w : World) (args : NewMessage) (db : Database)
    → Deciphers w args
    → ReadsBack w.codec args.body args.attachments
    → show_row w (insert_rows w args db) (new_row w args db.next_id)
      ≡ some (insert_message w args db).0
unfolding show_row insert_message new_row
show_row-new_row w args db deciphers back =
    rw (show_row, read_content-new_row w args db.next_id deciphers back) refl

-- The search text is not shown.
show_row-Indexed :
    (w : World) (db : Database) (id : RowId) (m old : Message)
    → Indexed id m old
    → show_row w db m ≡ show_row w db old
unfolding show_row read_content Indexed
show_row-Indexed w db id m old (inl e) = ap (show_row w db) e
show_row-Indexed w db id m old (inr (t, _, e)) = ap (show_row w db) e

-- If the ids of the messages are distinct and below the counter of fresh ids, the cipher decrypts what it
-- encrypts of the message, JSON gives back its content, and a text without attachments does not spell such a
-- content, then the row with the fresh id is read back from the table as the message that the insert
-- returned.
pub show_row-insert_message :
    (w : World) (args : NewMessage) (db : Database)
    → IsKeyed db
    → Deciphers w args
    → ReadsBack w.codec args.body args.attachments
    → (m : Message) → Among m (insert_message w args db).1.messages
    → m.id ≡ db.next_id
    → show_row w (insert_message w args db).1 m ≡ some (insert_message w args db).0
unfolding insert_message Indexed
show_row-insert_message w args db k deciphers back m at fresh =
    let after = insert_rows w args db in
    let (old, among, how) =
      index_row-Among db.next_id (indexed args) m (db.messages ++ new_row w args db.next_id ∷ [])
        at in
    elim (Among-append old db.messages (new_row w args db.next_id ∷ []) among) [
      | inl before ↦
          absurd (let under = k.below old before in let same = stays old how in omega arith)
      | inr (inl e) ↦
          show_row-Indexed w after db.next_id m old how
          ∙ ap (show_row w after) (sym e)
          ∙ show_row-new_row w args db deciphers back
      | inr (inr away) ↦ absurd away
    ]
  where
    stays : (old : Message) → Indexed db.next_id m old → m.id ≡ old.id
    stays old (inl e) = ap (λ r. r.id) e
    stays old (inr (t, _, e)) = ap (λ r. r.id) e
