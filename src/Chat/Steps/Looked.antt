-- ===== src/Chat/Steps/Looked.antt =====
-- apps/ws/src/messages.ts: the row that an edit or a deletion has looked up.
use legends_chat.Common.{
  ◌≡◌, refl, sym, ap, Bool, true, false, ◌&&◌, Option, none, some, ◌==◌, nat_eq, string_eq,
  if◌then◌else◌, nat_beq_iff, and-cases,
}
use mathlib.Core.Option.{some_inj}
use legends_chat.Chat.Tables.{RowId, Message, Database, is_null}
use legends_chat.Chat.World.{World, InsertedMessage}
use legends_chat.Chat.Messages.{is_sealed}
use legends_chat.Chat.Edits.{Payload, seals, is_same, edited_message, write_edit, edit_current}

checked :
    {A : Type 0} (b : Bool) (x y : A) → (if b then some x else none) ≡ some y → (b ≡ true) × (x ≡ y)
checked true x y h = (refl, some_inj.0 h)
checked false x y h = cc

is_same-eq : (a b : Bool) → is_same a b ≡ true → a ≡ b
is_same-eq true b h = sym h
is_same-eq false true h = cc
is_same-eq false false h = refl

-- What `editMessage` does where it does something.
pub edit_current-some :
    (w : World) (topic_id : RowId) (payload : Payload) (editor : RowId) (o : Option Message)
    (db : Database) (out : InsertedMessage × Database)
    → edit_current w topic_id payload editor o db ≡ some out
    → (current : Message) × (o ≡ some current)
      × (seals payload ≡ is_sealed current.ciphertext_json)
      × (out.1 ≡ write_edit w topic_id payload editor current db)
edit_current-some w topic_id payload editor none db out h = cc
edit_current-some w topic_id payload editor (some current) db out h =
    let (same, e) =
      checked (is_same (seals payload) (is_sealed current.ciphertext_json))
        (edited_message w db payload current, write_edit w topic_id payload editor current db) out
        h in
    (
      current,
      refl,
      is_same-eq (seals payload) (is_sealed current.ciphertext_json) same,
      ap (λ o. o.1) (sym e),
    )

-- The row that an edit or a deletion is about.
unfoldable pub is_live_row : RowId → RowId → Message → Bool
is_live_row message_id topic_id m =
    m.id == message_id && m.topic_id == topic_id && is_null m.deleted_at

pub live_row :
    (message_id topic_id : RowId) (m : Message)
    → is_live_row message_id topic_id m ≡ true
    → (m.id ≡ message_id) × (m.topic_id ≡ topic_id)
unfolding is_live_row
live_row message_id topic_id m h =
    let (both, live) =
      and-cases (m.id == message_id && m.topic_id == topic_id) (is_null m.deleted_at) h in
    let (same, within) = and-cases (m.id == message_id) (m.topic_id == topic_id) both in
    ((nat_beq_iff m.id message_id).0 same, (nat_beq_iff m.topic_id topic_id).0 within)
