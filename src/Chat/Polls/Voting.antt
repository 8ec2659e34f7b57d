-- ===== src/Chat/Polls/Voting.antt =====
-- apps/ws/src/messages.ts: what a vote leaves.
use legends_chat.Common.{
  ◌≡◌, ◌≤◌, refl, ap, ◌∙◌, Bool, true, false, not, ◌&&◌, Option, none, some, List, [], ◌∷◌, ◌++◌,
  map, keep, length, ltb, nat_eq, beq_refl, All-map, guard, keep-append, keep-keep, keep-none,
  keep_whole, keep-dropped, arith,
}
use mathlib.Core.List.{append-nil}
use legends_chat.Chat.Tables.{RowId, Poll, PollVote, Database, delete_where}
use legends_chat.Chat.World.{World}
use legends_chat.Chat.Polls.{
  VoteResult, refused, voted, threw, is_vote_of, new_votes, insertable, clear_votes, add_votes,
  vote_in, find_poll, cast_poll_vote, my_votes_in,
}

-- The votes that are not the user's in the poll.
abbrev pub others : RowId → RowId → List PollVote → List PollVote
others poll_id user_id votes = keep (λ v. not (is_vote_of poll_id user_id v)) votes

-- What a vote leaves of the table: of an error, everything; otherwise the others' votes, and the user's
-- are the new ones, or none where the INSERT throws.
abbrev pub Outcome :
    Database → RowId → RowId → List RowId → Option Poll → VoteResult × Database → Type 0
Outcome db poll_id user_id option_ids p (refused error, db') = db' ≡ db
Outcome db poll_id user_id option_ids p (voted ids shown, db') =
    (others poll_id user_id db'.poll_votes ≡ others poll_id user_id db.poll_votes)
    × (my_votes_in db' user_id poll_id ≡ option_ids)
    × ((poll : Poll) × (p ≡ some poll)
        × (poll.is_closed ≡ false)
        × ((poll.allows_multiple ≡ false) → length option_ids ≤ 1))
Outcome db poll_id user_id option_ids p (threw, db') =
    (others poll_id user_id db'.poll_votes ≡ others poll_id user_id db.poll_votes)
    × (my_votes_in db' user_id poll_id ≡ [])

module _ (w : World) (poll_id user_id : RowId) where
  abbrev mine : PollVote → Bool
  mine v = is_vote_of poll_id user_id v

  new-mine :
      (o : RowId)
      → mine (record { poll_id = poll_id; option_id = o; user_id = user_id; voted_at = w.now })
        ≡ true
  new-mine o = rw (beq_refl poll_id, beq_refl user_id) refl

  new_ids : (os : List RowId) → map (λ v. v.option_id) (new_votes w poll_id user_id os) ≡ os
  new_ids [] = refl
  new_ids (o ∷ os) = ap (λ ids. o ∷ ids) (new_ids os)

  others-cleared :
      (votes : List PollVote)
      → others poll_id user_id (delete_where mine votes) ≡ others poll_id user_id votes
  others-cleared votes = keep-keep (λ v. not (mine v)) (λ v. not (mine v)) votes (λ v h. h)

  others-added :
      (os : List RowId) (votes : List PollVote)
      → others poll_id user_id (delete_where mine votes ++ new_votes w poll_id user_id os)
        ≡ others poll_id user_id votes
  others-added os votes =
      keep-append (λ v. not (mine v)) (delete_where mine votes) (new_votes w poll_id user_id os)
      ∙ (rw
          (
            others-cleared votes,
            keep-none (λ v. not (mine v)) (new_votes w poll_id user_id os)
                (All-map _ (λ v. not (mine v) ≡ false) (λ o. ap not (new-mine o)) os),
          )
          (append-nil (others poll_id user_id votes)))

  mine-added :
      (os : List RowId) (votes : List PollVote)
      → map
          (λ v. v.option_id)
          (keep mine (delete_where mine votes ++ new_votes w poll_id user_id os))
        ≡ os
  mine-added os votes =
      ap (map (λ v. v.option_id)) (
        keep-append mine (delete_where mine votes) (new_votes w poll_id user_id os)
        ∙ ap (λ xs. xs ++ keep mine (new_votes w poll_id user_id os)) (keep-dropped mine votes)
        ∙ keep_whole mine (new_votes w poll_id user_id os)
            (All-map _ (λ v. mine v ≡ true) new-mine os))
      ∙ new_ids os

  -- At most one option, where the poll takes one.
  at_most :
      (multiple : Bool) (os : List RowId)
      → (not multiple && ltb 1 (length os)) ≡ false
      → multiple ≡ false
      → length os ≤ 1
  at_most true os h e = cc
  at_most false os h e = ground arith

  vote_in-Outcome :
      (o : Option Poll) (os : List RowId) (db : Database)
      → Outcome db poll_id user_id os o (vote_in w o poll_id user_id os db)
  unfolding clear_votes add_votes my_votes_in
  vote_in-Outcome none os db = refl
  vote_in-Outcome (some p) os db =
      guard (Outcome db poll_id user_id os (some p)) p.is_closed _ _ (λ _. refl)
        (λ is_open.
          guard (Outcome db poll_id user_id os (some p))
            (not p.allows_multiple && ltb 1 (length os)) _ _ (λ _. refl)
            (λ few.
              guard (Outcome db poll_id user_id os (some p))
                (insertable (clear_votes poll_id user_id db) os) _ _
                (λ _. (
                  others-added os db.poll_votes,
                  mine-added os db.poll_votes,
                  (p, refl, is_open, at_most p.allows_multiple os few),
                ))
                (λ _. (
                  others-cleared db.poll_votes,
                  ap (map (λ v. v.option_id)) (keep-dropped mine db.poll_votes),
                ))))

-- A vote that is an error changes nothing. A vote that succeeds is in a poll that is there and open, is
-- for one option at most if the poll takes only one, leaves the votes of the others and of the other
-- polls, and makes the user's votes in the poll the options asked for. A vote whose INSERT throws leaves the
-- others' votes, and the user without a vote in the poll.
pub cast_poll_vote-Outcome :
    (w : World) (poll_id user_id : RowId) (os : List RowId) (db : Database)
    → Outcome db poll_id user_id os (find_poll db poll_id) (cast_poll_vote w poll_id user_id os db)
unfolding cast_poll_vote
cast_poll_vote-Outcome w poll_id user_id os db =
    vote_in-Outcome w poll_id user_id (find_poll db poll_id) os db
