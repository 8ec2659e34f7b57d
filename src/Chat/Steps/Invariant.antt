-- ===== src/Chat/Steps/Invariant.antt =====
-- apps/ws/src/index.ts and messages.ts: what every request keeps of the message table.
use legends_chat.Common.{
  ◌<◌, ◌≤◌, ◌≡◌, refl, sym, ap, ◌∙◌, subst, String, Bool, Option, none, some, List, [], ◌∷◌, ◌++◌,
  ◌==◌, nat_eq, string_eq, if◌then◌else◌, Bool-cases, inl, inr, nat_beq_iff, ◌⊎◌, Among,
  Among-append, Among-map, arith,
}
use legends_chat.Chat.Tables.{RowId, Message, Database, update_where}
use legends_chat.Chat.World.{World, Caller, Server}
use legends_chat.Chat.Gates.{get_topic_by_id}
use legends_chat.Chat.Messages.{
  NewMessage, new_row, index_row, indexed, insert_rows, insert_message, set_last_read_message,
}
use legends_chat.Chat.Edits.{
  Payload, new_text, new_ciphertext, edit_message, edit_row, soft_delete_message,
}
use legends_chat.Chat.Polls.{create_poll_message, poll_message, close_poll_by_id}
use legends_chat.Chat.Posting.{is_e2ee, deliver, new_message, processed, valid_hashtags, fan_out}
use legends_chat.Chat.Steps.{
  Step, stays, sends, reads, asks, votes, closes, reacts, edits, deletes, presses,
}
use legends_chat.Chat.Steps.{joins}
use legends_chat.Chat.Steps.Beside.{
  ensure_topic_membership-Grown, toggle_reaction-Beside, vote_answer-Beside,
}
use legends_chat.Chat.Steps.Looked.{edit_current-some}
use legends_chat.Chat.Steps.Rows.{IsKeyed}

-- An INSERT at the end, with a fresh id.
append-IsKeyed :
    (db db' : Database) (x : Message)
    → IsKeyed db
    → x.id ≡ db.next_id
    → db'.messages ≡ db.messages ++ x ∷ []
    → db.next_id < db'.next_id
    → IsKeyed db'
append-IsKeyed db db' x k fresh e more =
    let split : (m : Message) → Among m db'.messages → Among m db.messages ⊎ (x ≡ m) = λ m at.
      elim (Among-append m db.messages (x ∷ []) (subst (λ ms. Among m ms) e at)) [
        | inl before ↦ inl before
        | inr (inl here) ↦ inr here
        | inr (inr away) ↦ absurd away
      ] in
    record {
      keyed = λ m n at bt same. elim (split m at) [
        | inl before ↦ elim (split n bt) [
          | inl later ↦ k.keyed m n before later same
          | inr it ↦
              absurd (let under = k.below m before in let id_is = ap (λ r. r.id) it in omega arith)
        ]
        | inr one ↦ elim (split n bt) [
          | inl later ↦
              absurd (let under = k.below n later in let id_is = ap (λ r. r.id) one in omega arith)
          | inr it ↦ sym one ∙ it
        ]
      ];
      below = λ m at. elim (split m at) [
        | inl before ↦ let under = k.below m before in omega arith
        | inr one ↦ let id_is = ap (λ r. r.id) one in omega arith
      ];
    }

-- An UPDATE that leaves the ids.
update-IsKeyed :
    (db db' : Database) (p : Message → Bool) (f : Message → Message)
    → IsKeyed db
    → ((m : Message) → (f m).id ≡ m.id)
    → db'.messages ≡ update_where p f db.messages
    → db.next_id ≤ db'.next_id
    → IsKeyed db'
update-IsKeyed db db' p f k stable e more =
    let row : Message → Message = λ r. if p r then f r else r in
    let row_id : (m : Message) → (row m).id ≡ m.id = λ m. elim (Bool-cases (p m)) [
      | inl holds ↦ rw holds (stable m)
      | inr fails ↦ rw fails refl
    ] in
    let back : (m : Message)
        → Among m db'.messages
        → (o : Message) × Among o db.messages × (row o ≡ m) =
      λ m at. Among-map row m db.messages (subst (λ ms. Among m ms) e at) in
    record {
      keyed = λ m n at bt same.
          let (a, in_a, ea) = back m at in
          let (b, in_b, eb) = back n bt in
          sym ea
          ∙ ap row (
              k.keyed a b in_a in_b
                (sym (row_id a) ∙ ap (λ r. r.id) ea ∙ same ∙ sym (ap (λ r. r.id) eb) ∙ row_id b))
          ∙ eb;
      below = λ m at.
          let (a, in_a, ea) = back m at in
          let under = k.below a in_a in let one = sym (row_id a) ∙ ap (λ r. r.id) ea in omega arith;
    }

same-IsKeyed :
    (db db' : Database)
    → IsKeyed db
    → db'.messages ≡ db.messages
    → db.next_id ≤ db'.next_id
    → IsKeyed db'
same-IsKeyed db db' k e more = record {
  keyed = λ m n at bt. k.keyed m n (subst (λ ms. Among m ms) e at) (subst (λ ms. Among n ms) e bt);
  below = λ m at. let under = k.below m (subst (λ ms. Among m ms) e at) in omega arith;
}

-- A row that is inserted and indexed stands at the end.
index_row-append :
    (id : RowId) (o : Option String) (new : Message) (rows : List Message)
    → new.id ≡ id
    → ((m : Message) → Among m rows → m.id < id)
    → (x : Message) × (x.id ≡ id) × (index_row id o (rows ++ new ∷ []) ≡ rows ++ x ∷ [])
index_row-append id none new rows here under = (new, here, refl)
index_row-append id (some t) new rows here under = indexed_at rows under
  where
    row : Message → Message
    row r = if r.id == id then record r { search_vector = some t } else r

    indexed_at :
        (rows : List Message)
        → ((m : Message) → Among m rows → m.id < id)
        → (x : Message) × (x.id ≡ id) × (index_row id (some t) (rows ++ new ∷ []) ≡ rows ++ x ∷ [])
    indexed_at [] under =
        (record new { search_vector = some t }, here, rw ((nat_beq_iff new.id id).1 here) refl)
    indexed_at (r ∷ rows) under =
        let (x, id_is, e) = indexed_at rows (λ m at. under m (inr at)) in
        (
          x,
          id_is,
          elim (Bool-cases (r.id == id)) [
            | inl same ↦ absurd (
                let less = under r (inl refl) in
                let one = (nat_beq_iff r.id id).0 same in omega arith)
            | inr other ↦ rw other (ap (λ rs. r ∷ rs) e)
          ],
        )

insert-IsKeyed :
    (w : World) (args : NewMessage) (db db' : Database)
    → IsKeyed db
    → db'.messages ≡ (insert_rows w args db).messages
    → db.next_id < db'.next_id
    → IsKeyed db'
unfolding new_row
insert-IsKeyed w args db db' k e more =
    let (x, id_is, shape) =
      index_row-append db.next_id (indexed args) (new_row w args db.next_id) db.messages refl
        k.below in
    append-IsKeyed db db' x k id_is (e ∙ shape) more

pub edit_row-id :
    (w : World) (t : RowId) (payload : Payload) (m : Message) → (edit_row w t payload m).id ≡ m.id
edit_row-id w t (new_text _) m = refl
edit_row-id w t (new_ciphertext _) m = refl

pub Step-IsKeyed :
    (w : World) (caller : Caller) (s s' : Server)
    → Step w caller s s'
    → IsKeyed s.db
    → IsKeyed s'.db
unfolding deliver fan_out insert_message create_poll_message set_last_read_message close_poll_by_id
    edit_message soft_delete_message
Step-IsKeyed w caller s s' stays k = k
Step-IsKeyed w caller s s' (joins key t found under may) k =
    let g = ensure_topic_membership-Grown w caller.sub t.id s.db in
    same-IsKeyed s.db s'.db k g.messages_eq g.next_le
Step-IsKeyed w caller s s' (sends args p u coherent may fits) k =
    let topic = get_topic_by_id s.db args.topic_id in
    insert-IsKeyed w
      (new_message caller topic args (processed w (is_e2ee topic) args.body)
        (valid_hashtags args.hashtags))
      s.db s'.db k refl (omega arith)
Step-IsKeyed w caller s s' (reads t i p) k = same-IsKeyed s.db s'.db k refl (omega arith)
Step-IsKeyed w caller s s' (asks args p u staff by) k =
    insert-IsKeyed w (poll_message args) s.db s'.db k refl (omega arith)
Step-IsKeyed w caller s s' (votes p os passed) k =
    let b = vote_answer-Beside w caller p os s in
    same-IsKeyed s.db s'.db k b.messages_eq (let same = b.next_eq in omega arith)
Step-IsKeyed w caller s s' (closes p passed staff) k = same-IsKeyed s.db s'.db k refl (omega arith)
Step-IsKeyed w caller s s' (reacts t i emoji there p u) k =
    let b = toggle_reaction-Beside w i caller.sub emoji s.db in
    same-IsKeyed s.db s'.db k b.messages_eq (let same = b.next_eq in omega arith)
Step-IsKeyed w caller s s' (edits i t payload out p may fits e) k =
    let (current, found, same, shape) = edit_current-some w t payload caller.sub _ s.db out e in
    update-IsKeyed s.db s'.db (λ m. m.id == current.id) (edit_row w t payload) k
      (edit_row-id w t payload) (ap (λ db. db.messages) shape)
      (let more = ap (λ db. db.next_id) shape in omega arith)
Step-IsKeyed w caller s s' (deletes i t p may) k =
    update-IsKeyed s.db s'.db _ (λ m. record m { deleted_at = some w.now }) k (λ m. refl) refl
      (omega arith)
Step-IsKeyed w caller s s' (presses t b i pressed there p known) k = k
