-- ===== src/Chat/Steps/Editing.antt =====
-- apps/ws/src/index.ts: the steps that edit and delete messages.
use legends_chat.Common.{
  ◌≡◌, refl, sym, ap, ◌∙◌, String, true, false, not, Option, none, some, ◌==◌, nat_eq, string_eq,
  Bool-cases, inl, inr, nat_beq_iff, guard,
}
use mathlib.Core.Option.{some_inj}
use legends_chat.Chat.Tables.{RowId, Message, Json, Database}
use legends_chat.Chat.World.{World, Caller, InsertedMessage, Server}
use legends_chat.Chat.Gates.{get_topic_by_id, get_message_owner}
use legends_chat.Chat.Edits.{Payload, new_text, new_ciphertext, seals, edit_message}
use legends_chat.Chat.Socket.{reaches}
use legends_chat.Chat.Posting.{EditMessage, is_coherent_edit, is_e2ee, processed}
use legends_chat.Chat.Requests.{
  on_message_edit, on_message_delete, edited, edit_sealed, edit_plain, edit_owned, delete_owned,
  in_topic, may_change,
}
use legends_chat.Chat.Steps.{stays, edits, deletes, Passed, MayChange}
use legends_chat.Chat.Steps.Guards.{opened, Steps, passed}

-- The owner's row, where it is in the topic.
in_topic-some :
    (topic_id : RowId) (o : Option Message) (m : Message)
    → in_topic topic_id o ≡ some m
    → (o ≡ some m) × (m.topic_id ≡ topic_id)
in_topic-some topic_id none m h = cc
in_topic-some topic_id (some n) m h = elim (Bool-cases (n.topic_id == topic_id)) [
  | inl same ↦
      let e = some_inj.0 (rw same at h) in
      (ap some e, ap (λ m. m.topic_id) (sym e) ∙ (nat_beq_iff n.topic_id topic_id).0 same)
  | inr other ↦ cc (rw other at h)
]

pub may :
    {caller : Caller} {s : Server} {topic_id message_id : RowId} {own any : String}
    (owner : Message)
    → in_topic topic_id (get_message_owner s.db message_id) ≡ some owner
    → not (may_change caller own any owner) ≡ false
    → MayChange caller s topic_id message_id own any
may {s} {topic_id} {message_id} owner at granted =
    let both = in_topic-some topic_id (get_message_owner s.db message_id) owner at in
    record { owner = owner; there = both.0; within = both.1; granted = opened _ granted }

edited-Step :
    (w : World) (caller : Caller) (message_id topic_id : RowId) (payload : Payload) (s : Server)
    (r : Option (InsertedMessage × Database))
    → edit_message w message_id topic_id payload caller.sub s.db ≡ r
    → Passed w caller s (some topic_id)
    → MayChange caller s topic_id message_id "messages.edit.own" "messages.edit.any"
    → seals payload ≡ is_e2ee (get_topic_by_id s.db topic_id)
    → Steps w caller s (edited r topic_id s)
edited-Step w caller message_id topic_id payload s none at p may_edit fits = stays
edited-Step w caller message_id topic_id payload s (some out) at p may_edit fits =
    edits message_id topic_id payload out p may_edit fits at

edit_sealed-Step :
    (w : World) (caller : Caller) (m : EditMessage) (json : Option Json) (s : Server)
    → Passed w caller s (some m.topic_id)
    → MayChange caller s m.topic_id m.message_id "messages.edit.own" "messages.edit.any"
    → is_e2ee (get_topic_by_id s.db m.topic_id) ≡ true
    → Steps w caller s (edit_sealed w caller m json s)
edit_sealed-Step w caller m none s p may_edit e2ee = stays
edit_sealed-Step w caller m (some json) s p may_edit e2ee =
    edited-Step w caller m.message_id m.topic_id (new_ciphertext json) s _ refl p may_edit
      (sym e2ee)

edit_plain-Step :
    (w : World) (caller : Caller) (m : EditMessage) (body : Option String) (s : Server)
    → Passed w caller s (some m.topic_id)
    → MayChange caller s m.topic_id m.message_id "messages.edit.own" "messages.edit.any"
    → is_e2ee (get_topic_by_id s.db m.topic_id) ≡ false
    → Steps w caller s (edit_plain w caller m body s)
edit_plain-Step w caller m none s p may_edit e2ee = stays
edit_plain-Step w caller m (some t) s p may_edit e2ee =
    edited-Step w caller m.message_id m.topic_id (new_text (processed w false t)) s _ refl p
      may_edit (sym e2ee)

edit_owned-Step :
    (w : World) (caller : Caller) (m : EditMessage) (s : Server) (o : Option Message)
    → in_topic m.topic_id (get_message_owner s.db m.message_id) ≡ o
    → Passed w caller s (some m.topic_id)
    → Steps w caller s (edit_owned w caller m o s)
edit_owned-Step w caller m s none at p = stays
edit_owned-Step w caller m s (some owner) at p =
    guard (Steps w caller s) _ _ _ (λ _. stays)
      (λ granted.
        guard (Steps w caller s) _ _ _
          (edit_sealed-Step w caller m m.ciphertext_json s p (may owner at granted))
          (edit_plain-Step w caller m m.body s p (may owner at granted)))

pub on_message_edit-Step :
    (w : World) (caller : Caller) (m : EditMessage) (s : Server)
    → Steps w caller s (on_message_edit w caller m s)
unfolding on_message_edit reaches
on_message_edit-Step w caller m s =
    guard (Steps w caller s) w.limited _ _ (λ _. stays)
      (λ under.
        guard (Steps w caller s) (not (is_coherent_edit m)) _ _ (λ _. stays)
          (λ _.
            guard (Steps w caller s) _ _ _ (λ _. stays)
              (λ shut. edit_owned-Step w caller m s _ refl (passed under shut))))

delete_owned-Step :
    (w : World) (caller : Caller) (message_id topic_id : RowId) (s : Server) (o : Option Message)
    → in_topic topic_id (get_message_owner s.db message_id) ≡ o
    → Passed w caller s (some topic_id)
    → Steps w caller s (delete_owned w caller message_id topic_id o s)
delete_owned-Step w caller message_id topic_id s none at p = stays
delete_owned-Step w caller message_id topic_id s (some owner) at p =
    guard (Steps w caller s) _ _ _ (λ _. stays)
      (λ granted. deletes message_id topic_id p (may owner at granted))

pub on_message_delete-Step :
    (w : World) (caller : Caller) (message_id topic_id : RowId) (s : Server)
    → Steps w caller s (on_message_delete w caller message_id topic_id s)
unfolding on_message_delete reaches
on_message_delete-Step w caller message_id topic_id s =
    guard (Steps w caller s) w.limited _ _ (λ _. stays)
      (λ under.
        guard (Steps w caller s) _ _ _ (λ _. stays)
          (λ shut. delete_owned-Step w caller message_id topic_id s _ refl (passed under shut)))
