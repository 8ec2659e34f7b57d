-- ===== src/Chat/Reacting.antt =====
-- apps/ws/src/messages.ts: what `toggleReaction` leaves.
use legends_chat.Common.{
  ◌≡◌, refl, sym, ap, ◌∙◌, String, Bool, true, false, not, List, [], ◌∷◌, keep, some_of, nat_eq,
  string_eq, Bool-cases, inl, inr, beq_refl, guard, keep-append, keep-keep, some_of-append,
}
use mathlib.Core.List.{append-nil}
use legends_chat.Chat.Tables.{RowId, Reaction, Database, delete_where}
use legends_chat.Chat.World.{World}
use legends_chat.Chat.Messages.{is_reaction, toggle_reaction}

module _ {A : Type 0} (p : A → Bool) where
  some_of-deleted : (xs : List A) → some_of p (delete_where p xs) ≡ false
  some_of-deleted [] = refl
  some_of-deleted (x ∷ xs) = elim (Bool-cases (p x)) [
    | inl in_it ↦ rw in_it (some_of-deleted xs)
    | inr out ↦ rw (out, out) (some_of-deleted xs)
  ]

module _ (w : World) (message_id user_id : RowId) (emoji : String) where
  abbrev it : Reaction → Bool
  it = is_reaction message_id user_id emoji

  abbrev row : Reaction
  row = record { message_id = message_id; user_id = user_id; emoji_key = emoji; created_at = w.now }

  row-it : it row ≡ true
  row-it = rw (beq_refl message_id, beq_refl user_id, beq_refl emoji) refl

  -- What is claimed of the answer and the table.
  abbrev pub Toggled : Database → Bool × Database → Type 0
  Toggled db out =
      (out.0 ≡ not (some_of it db.message_reactions))
      × (some_of it out.1.message_reactions ≡ out.0)
      × (keep (λ r. not (it r)) out.1.message_reactions
          ≡ keep (λ r. not (it r)) db.message_reactions)

  -- A toggle answers whether the reaction is there afterwards, which it is exactly if it was not there
  -- before, and leaves all other reactions.
  pub toggle_reaction-Toggled :
      (db : Database) → Toggled db (toggle_reaction w message_id user_id emoji db)
  unfolding toggle_reaction
  toggle_reaction-Toggled db =
      guard (Toggled db) (some_of it db.message_reactions) _ _
        (λ there. (
          sym (ap not there),
          some_of-deleted it db.message_reactions,
          keep-keep (λ r. not (it r)) (λ r. not (it r)) db.message_reactions (λ r h. h),
        ))
        (λ away. (
          sym (ap not away),
          some_of-append it db.message_reactions (row ∷ []) (rw row-it refl),
          keep-append (λ r. not (it r)) db.message_reactions (row ∷ [])
              ∙ rw row-it (append-nil (keep (λ r. not (it r)) db.message_reactions)),
        ))
