-- ===== src/Chat/Polls/Counting.antt =====
-- apps/ws/src/messages.ts: the counts that a poll shows.
use legends_chat.Common.{
  ℕ, ◌+◌, ◌≡◌, refl, sym, ap, ◌∙◌, subst, Bool, true, false, Option, some, List, [], ◌∷◌, keep,
  length, ◌==◌, nat_eq, if◌then◌else◌, Bool-cases, inl, inr, Option-cases, nat_beq_iff, All,
  All-map, arith,
}
use mathlib.Core.Option.{some_inj}
use legends_chat.Chat.Tables.{RowId, Poll, PollVote, Database}
use legends_chat.Chat.World.{PollData}
use legends_chat.Chat.Gates.{get_message_topic_id}
use legends_chat.Chat.Polls.{
  Counts, count_vote, count_votes, votes_for, sum_counts, tally, show_option, shown_poll, find_poll,
  by_position, get_poll_data,
}

-- The votes of a poll, and those for an option.
abbrev pub votes_in : Database → RowId → List PollVote
votes_in db poll_id = keep (λ v. v.poll_id == poll_id) db.poll_votes

abbrev pub for_option : RowId → List PollVote → List PollVote
for_option id votes = keep (λ v. v.option_id == id) votes

abbrev one_if : Bool → ℕ
one_if b = if b then 1 else 0

apart_from : (p o id : RowId) → (p == o) ≡ false → (p == id) ≡ true → (o == id) ≡ false
apart_from p o id other hit = ground arith

votes_for-count_vote :
    (id o : RowId) (counts : Counts)
    → votes_for id (count_vote o counts) ≡ votes_for id counts + one_if (o == id)
unfolding votes_for count_vote
votes_for-count_vote id o [] = elim (Bool-cases (o == id)) [
  | inl same ↦ rw same refl
  | inr other ↦ rw other refl
]
votes_for-count_vote id o ((p, n) ∷ counts) = elim (Bool-cases (p == o)) [
  | inl same ↦
      let at : (o == id) ≡ (p == id) = ap (λ x. x == id) (sym ((nat_beq_iff p o).0 same)) in
      elim (Bool-cases (p == id)) [
        | inl hit ↦ rw (same, at, hit) refl
        | inr miss ↦ rw (same, at, miss) (omega arith)
      ]
  | inr other ↦ elim (Bool-cases (p == id)) [
    | inl hit ↦ rw (other, hit, apart_from p o id other hit) (omega arith)
    | inr miss ↦ rw (other, miss) (votes_for-count_vote id o counts)
  ]
]

sum_counts-count_vote :
    (o : RowId) (counts : Counts) → sum_counts (count_vote o counts) ≡ sum_counts counts + 1
unfolding sum_counts count_vote
sum_counts-count_vote o [] = refl
sum_counts-count_vote o ((p, n) ∷ counts) = elim (Bool-cases (p == o)) [
  | inl same ↦ rw same (omega arith)
  | inr other ↦ rw (other, sum_counts-count_vote o counts) (omega arith)
]

length-for_option :
    (id : RowId) (v : PollVote) (votes : List PollVote)
    → length (for_option id (v ∷ votes)) ≡ one_if (v.option_id == id) + length (for_option id votes)
length-for_option id v votes = elim (Bool-cases (v.option_id == id)) [
  | inl same ↦ rw same (omega arith)
  | inr other ↦ rw other (omega arith)
]

votes_for-count_votes :
    (id : RowId) (votes : List PollVote) (counts : Counts)
    → votes_for id (count_votes votes counts) ≡ votes_for id counts + length (for_option id votes)
unfolding count_votes
votes_for-count_votes id [] counts = omega arith
votes_for-count_votes id (v ∷ votes) counts =
    votes_for-count_votes id votes (count_vote v.option_id counts)
    ∙ rw (votes_for-count_vote id v.option_id counts, length-for_option id v votes) (omega arith)

sum_counts-count_votes :
    (votes : List PollVote) (counts : Counts)
    → sum_counts (count_votes votes counts) ≡ sum_counts counts + length votes
unfolding count_votes
sum_counts-count_votes [] counts = omega arith
sum_counts-count_votes (v ∷ votes) counts =
    sum_counts-count_votes votes (count_vote v.option_id counts)
    ∙ rw (sum_counts-count_vote v.option_id counts) (omega arith)

none_before : (n : ℕ) → 0 + n ≡ n
none_before n = omega arith

abbrev CountedIn : Database → PollData → Type 0
CountedIn db shown =
    (shown.total_votes ≡ length (votes_in db shown.id))
    × All (λ o. o.vote_count ≡ length (for_option o.id (votes_in db shown.id))) shown.choices

shown_poll-CountedIn :
    (db : Database) (p : Poll) (topic_id : Option RowId) → CountedIn db (shown_poll db p topic_id)
unfolding votes_for sum_counts
shown_poll-CountedIn db p topic_id = (
  sum_counts-count_votes (votes_in db p.id) [] ∙ none_before (length (votes_in db p.id)),
  All-map (show_option (tally db p.id))
      (λ o. o.vote_count ≡ length (for_option o.id (votes_in db p.id)))
      (λ o.
        votes_for-count_votes o.id (votes_in db p.id) []
        ∙ none_before (length (for_option o.id (votes_in db p.id))))
      (by_position (keep (λ o. o.poll_id == p.id) db.poll_options)),
)

-- The total of a poll that is shown is the number of its votes, and the count of each of its options is
-- the number of its votes for the option.
pub get_poll_data-counts :
    (db : Database) (poll_id : RowId) (shown : PollData)
    → get_poll_data db poll_id ≡ some shown
    → (shown.total_votes ≡ length (votes_in db shown.id))
      × All (λ o. o.vote_count ≡ length (for_option o.id (votes_in db shown.id))) shown.choices
unfolding get_poll_data
get_poll_data-counts db poll_id shown h = elim (Option-cases (find_poll db poll_id)) [
  | inl missing ↦ cc (rw (get_poll_data, missing) at h)
  | inr (p, there) ↦
      let e = some_inj.0 (rw (get_poll_data, there) at h) in
      subst (CountedIn db) e (shown_poll-CountedIn db p (get_message_topic_id db p.message_id))
]
