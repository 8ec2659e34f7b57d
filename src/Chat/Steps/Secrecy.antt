-- ===== src/Chat/Steps/Secrecy.antt =====
-- apps/ws/src/index.ts and messages.ts: the messages of an end-to-end encrypted topic are sealed.
use legends_chat.Common.{
  ◌∷◌, List, [], ◌≡◌, refl, sym, ap, ◌∙◌, Bool, true, ◌==◌, nat_eq, string_eq, if◌then◌else◌,
  Bool-cases, inl, inr, ◌⊎◌, Any, Among, Any-append, Any-map, keep,
}
use legends_chat.Chat.Tables.{RowId, Message, Poll, Database, first}
use legends_chat.Chat.World.{World, Caller, Server}
use legends_chat.Chat.Gates.{get_topic_by_id}
use legends_chat.Chat.Messages.{insert_message, is_sealed, set_last_read_message}
use legends_chat.Chat.Edits.{
  Payload, new_text, new_ciphertext, seals, edit_message, edit_row, soft_delete_message,
}
use legends_chat.Chat.Polls.{create_poll_message, close_poll_by_id}
use legends_chat.Chat.Posting.{is_e2ee, deliver, fan_out}
use legends_chat.Chat.Requests.{Request, handle}
use legends_chat.Chat.Steps.{
  Step, stays, sends, reads, asks, votes, closes, reacts, edits, deletes, presses,
}
use legends_chat.Chat.Steps.Handlers.{handle-Step}
use legends_chat.Chat.Steps.{joins}
use legends_chat.Chat.Steps.Beside.{
  ensure_topic_membership-Grown, Beside, toggle_reaction-Beside, vote_answer-Beside,
}
use legends_chat.Chat.Steps.Origins.{
  Origin, kept, sent, asked, edited, deleted, CarriedBy, handle-Origin,
}
use legends_chat.Chat.Steps.Looked.{edit_current-some}
use legends_chat.Chat.Steps.Rows.{IsKeyed}
use legends_chat.Chat.Steps.Invariant.{Step-IsKeyed, edit_row-id}

-- A row is sealed exactly if its topic is end-to-end encrypted, unless it carries a poll.
abbrev pub IsFit : Database → Message → Type 0
IsFit db m =
    (is_sealed m.ciphertext_json ≡ is_e2ee (get_topic_by_id db m.topic_id))
    ⊎ Any (CarriedBy m.id) db.polls

pub record IsSound (db : Database) : Type 0 where
  pub keys : IsKeyed db
  pub fit : (m : Message) → Among m db.messages → IsFit db m

-- No request changes a topic, or takes a poll from its message.
record Keeps (db db' : Database) : Type 0 where
  topics_eq : db'.topics ≡ db.topics
  carried : (id : RowId) → Any (CarriedBy id) db.polls → Any (CarriedBy id) db'.polls

Beside-Keeps : (db db' : Database) → Beside db db' → Keeps db db'
Beside-Keeps db db' b = record { topics_eq = b.topics_eq; carried = λ id c. rw b.polls_eq c }

untouched : (db db' : Database) → db'.topics ≡ db.topics → db'.polls ≡ db.polls → Keeps db db'
untouched db db' t p = record { topics_eq = t; carried = λ id c. rw p c }

closed-CarriedBy :
    (poll_id id : RowId) (p : Poll)
    → CarriedBy id p
    → CarriedBy id (if p.id == poll_id then record p { is_closed = true } else p)
closed-CarriedBy poll_id id p c = elim (Bool-cases (p.id == poll_id)) [
  | inl same ↦ rw same c
  | inr other ↦ rw other c
]

Step-Keeps : (w : World) (caller : Caller) (s s' : Server) → Step w caller s s' → Keeps s.db s'.db
unfolding deliver fan_out insert_message create_poll_message set_last_read_message close_poll_by_id
    soft_delete_message edit_message
Step-Keeps w caller s s' stays = untouched s.db s'.db refl refl
Step-Keeps w caller s s' (joins key t found under may) =
    let g = ensure_topic_membership-Grown w caller.sub t.id s.db in
    untouched s.db s'.db g.topics_eq g.polls_eq
Step-Keeps w caller s s' (sends args p u coherent may fits) = untouched s.db s'.db refl refl
Step-Keeps w caller s s' (reads t i p) = untouched s.db s'.db refl refl
Step-Keeps w caller s s' (asks args p u staff by) = record {
  topics_eq = refl;
  carried = λ id c. Any-append (CarriedBy id) s.db.polls _ (inl c);
}
Step-Keeps w caller s s' (votes p os passed) =
    Beside-Keeps s.db s'.db (vote_answer-Beside w caller p os s)
Step-Keeps w caller s s' (closes p passed staff) = record {
  topics_eq = refl;
  carried = λ id c.
      Any-map (λ r. if r.id == p then record r { is_closed = true } else r) (CarriedBy id)
        (CarriedBy id) (closed-CarriedBy p id) s.db.polls c;
}
Step-Keeps w caller s s' (reacts t i emoji there p u) =
    Beside-Keeps s.db s'.db (toggle_reaction-Beside w i caller.sub emoji s.db)
Step-Keeps w caller s s' (edits i t payload out p may fits e) =
    let (current, found, same, shape) = edit_current-some w t payload caller.sub _ s.db out e in
    untouched s.db s'.db (ap (λ db. db.topics) shape) (ap (λ db. db.polls) shape)
Step-Keeps w caller s s' (deletes i t p may) = untouched s.db s'.db refl refl
Step-Keeps w caller s s' (presses t b i pressed there p known) = untouched s.db s'.db refl refl

topic_stays :
    (db db' : Database) (id : RowId)
    → db'.topics ≡ db.topics
    → get_topic_by_id db' id ≡ get_topic_by_id db id
unfolding get_topic_by_id
topic_stays db db' id e = ap (λ ts. first (keep (λ t. t.id == id) ts)) e

-- An edit that is sealed makes a sealed row, and one that is not leaves the row as it was.
edit_row-sealed :
    (w : World) (t : RowId) (payload : Payload) (m : Message) (e2ee : Bool)
    → seals payload ≡ e2ee
    → is_sealed m.ciphertext_json ≡ e2ee
    → is_sealed (edit_row w t payload m).ciphertext_json ≡ e2ee
edit_row-sealed w t (new_text _) m e2ee fits was = was
edit_row-sealed w t (new_ciphertext json) m e2ee fits was = fits

-- What a row keeps of the row that it was.
carry :
    (db after : Database) (old m : Message)
    → Keeps db after
    → IsFit db old
    → m.id ≡ old.id
    → m.topic_id ≡ old.topic_id
    → ((e2ee : Bool)
        → is_e2ee (get_topic_by_id db old.topic_id) ≡ e2ee
        → is_sealed old.ciphertext_json ≡ e2ee
        → is_sealed m.ciphertext_json ≡ e2ee)
    → IsFit after m
carry db after old m k fit same within keeps = elim fit [
  | inl sealed ↦ inl (
      keeps _ refl sealed
      ∙ ap is_e2ee (
          sym (topic_stays db after old.topic_id k.topics_eq)
          ∙ ap (get_topic_by_id after) (sym within)))
  | inr poll ↦ inr (rw same (k.carried old.id poll))
]

edit_row-topic_id :
    (w : World) (t : RowId) (payload : Payload) (m : Message)
    → (edit_row w t payload m).topic_id ≡ m.topic_id
edit_row-topic_id w t (new_text _) m = refl
edit_row-topic_id w t (new_ciphertext _) m = refl

Origin-IsFit :
    (w : World) (caller : Caller) (s : Server) (after : Database)
    → Keeps s.db after
    → IsSound s.db
    → (m : Message) → Origin w caller s after m
    → IsFit after m
Origin-IsFit w caller s after k sound m (kept at) =
    carry s.db after m m k (sound.fit m at) refl refl (λ e2ee is was. was)
Origin-IsFit w caller s after k sound m (sent p u fresh by sealed) =
    inl (sealed ∙ ap is_e2ee (sym (topic_stays s.db after m.topic_id k.topics_eq)))
Origin-IsFit w caller s after k sound m (asked p u fresh by plain poll) = inr poll
Origin-IsFit w caller s after k sound m (edited old payload at e p live may fits) =
    carry s.db after old m k (sound.fit old at)
      (ap (λ r. r.id) e ∙ edit_row-id w old.topic_id payload old)
      (ap (λ r. r.topic_id) e ∙ edit_row-topic_id w old.topic_id payload old)
      (λ e2ee is was.
        ap (λ r. is_sealed r.ciphertext_json) e
        ∙ edit_row-sealed w old.topic_id payload old e2ee (fits ∙ is) was)
Origin-IsFit w caller s after k sound m (deleted old at e p live may) =
    carry s.db after old m k (sound.fit old at) (ap (λ r. r.id) e) (ap (λ r. r.topic_id) e)
      (λ e2ee is was. ap (λ r. is_sealed r.ciphertext_json) e ∙ was)

-- One request keeps the message table sound.
handle-IsSound :
    (w : World) (caller : Caller) (r : Request) (s : Server)
    → IsSound s.db
    → IsSound (handle w caller r s).1.db
handle-IsSound w caller r s sound =
    let after = (handle w caller r s).1 in
    let step = handle-Step w caller r s in
    record {
      keys = Step-IsKeyed w caller s after step sound.keys;
      fit = λ m at.
          Origin-IsFit w caller s after.db (Step-Keeps w caller s after step) sound m
            (handle-Origin w caller r s sound.keys m at);
    }

-- The server after requests, each of its caller and at its time, one handled after the other.
unfoldable pub serve : List (World × Caller × Request) → Server → Server
serve [] s = s
serve ((w, caller, r) ∷ rest) s = serve rest (handle w caller r s).1

-- Whatever requests are handled one after the other, the message table stays sound: the ids are distinct
-- and below the counter of fresh ids, and a message is stored as an end-to-end envelope exactly if its
-- topic is end-to-end encrypted, unless the message carries a poll.
pub serve-IsSound :
    (rs : List (World × Caller × Request)) (s : Server) → IsSound s.db → IsSound (serve rs s).db
unfolding serve
serve-IsSound [] s sound = sound
serve-IsSound ((w, caller, r) ∷ rest) s sound =
    serve-IsSound rest (handle w caller r s).1 (handle-IsSound w caller r s sound)
