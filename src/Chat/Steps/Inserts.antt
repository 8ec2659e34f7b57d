-- ===== src/Chat/Steps/Inserts.antt =====
-- apps/ws/src/messages.ts: the rows that inserts and updates leave.
use legends_chat.Common.{
  ◌≡◌, refl, sym, ◌∙◌, String, Bool, true, Option, none, some, List, [], ◌∷◌, ◌++◌, keep, ◌==◌,
  nat_eq, string_eq, if◌then◌else◌, Bool-cases, inl, inr, nat_beq_iff, ◌⊎◌, Among, Among-append,
  Among-map, arith,
}
use mathlib.Core.Option.{some_inj}
use legends_chat.Chat.Tables.{RowId, Message, Database, first, update_where}
use legends_chat.Chat.World.{World}
use legends_chat.Chat.Messages.{NewMessage, new_row, index_row, indexed, insert_rows}
use legends_chat.Chat.Steps.Rows.{IsKeyed}

-- Indexing changes the search text only.
unfoldable pub Indexed : RowId → Message → Message → Type 0
Indexed id m old =
    (m ≡ old) ⊎ ((t : String) × (old.id ≡ id) × (m ≡ record old { search_vector = some t }))

-- A row after an UPDATE: as it was, or one that the condition holds of.
unfoldable pub Updated : (Message → Bool) → (Message → Message) → Message → Message → Type 0
Updated p f m old = (m ≡ old) ⊎ ((p old ≡ true) × (m ≡ f old))

pub update_where-Among :
    (p : Message → Bool) (f : Message → Message) (m : Message) (rows : List Message)
    → Among m (update_where p f rows)
    → (old : Message) × Among old rows × Updated p f m old
unfolding Updated
update_where-Among p f m rows h =
    let (old, at, e) = Among-map (λ r. if p r then f r else r) m rows h in
    (
      old,
      at,
      elim (Bool-cases (p old)) [
        | inl holds ↦ inr (holds, sym e ∙ (rw holds refl))
        | inr fails ↦ inl (sym e ∙ (rw fails refl))
      ],
    )

pub index_row-Among :
    (id : RowId) (o : Option String) (m : Message) (rows : List Message)
    → Among m (index_row id o rows)
    → (old : Message) × Among old rows × Indexed id m old
unfolding Indexed Updated
index_row-Among id none m rows h = (m, h, inl refl)
index_row-Among id (some t) m rows h =
    let (old, at, how) =
      update_where-Among (λ r. r.id == id) (λ r. record r { search_vector = some t }) m rows h in
    (
      old,
      at,
      elim how [ inl e ↦ inl e | inr (same, e) ↦ inr (t, (nat_beq_iff old.id id).0 same, e) ],
    )

pub first_of :
    (p : Message → Bool) (m : Message) (rows : List Message)
    → first (keep p rows) ≡ some m
    → Among m rows × (p m ≡ true)
first_of p m [] h = cc
first_of p m (r ∷ rows) h = elim (Bool-cases (p r)) [
  | inl holds ↦ let e = some_inj.0 (rw holds at h) in (inl e, rw (sym e) holds)
  | inr fails ↦ let found = first_of p m rows (rw fails at h) in (inr found.0, found.1)
]

-- What an insert leaves: the old rows, and one with a fresh id.
unfoldable pub Inserted : NewMessage → RowId → Message → Type 0
Inserted args id m =
    (m.id ≡ id)
    × (m.topic_id ≡ args.topic_id)
    × (m.sender_user_id ≡ args.sender_user_id)
    × (m.ciphertext_json ≡ args.ciphertext_json)

new_row-Inserted :
    (w : World) (args : NewMessage) (id : RowId) (m : Message)
    → Indexed id m (new_row w args id)
    → Inserted args id m
unfolding Indexed Inserted new_row
new_row-Inserted w args id m (inl e) = rw e (refl, refl, refl, refl)
new_row-Inserted w args id m (inr (t, _, e)) = rw e (refl, refl, refl, refl)

pub insert_rows-Among :
    (w : World) (args : NewMessage) (db : Database)
    → IsKeyed db
    → (m : Message) → Among m (insert_rows w args db).messages
    → Among m db.messages ⊎ Inserted args db.next_id m
unfolding Indexed
insert_rows-Among w args db k m h =
    let (old, at, how) =
      index_row-Among db.next_id (indexed args) m (db.messages ++ new_row w args db.next_id ∷ [])
        h in
    elim (Among-append old db.messages (new_row w args db.next_id ∷ []) at) [
      | inl before ↦ elim how [
        | inl e ↦ inl (rw e before)
        | inr (t, same, e) ↦ absurd (let under = k.below old before in omega arith)
      ]
      | inr (inl e) ↦ inr (new_row-Inserted w args db.next_id m (rw e how))
      | inr (inr away) ↦ absurd away
    ]
