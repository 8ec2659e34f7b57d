-- ===== src/Ids/Parsing.antt =====
-- apps/web/lib/crypto-matrix.ts: what the parsers accept is what the printers print.
use legends_chat.Common.{
  ℕ, ◌≡◌, ◌≢◌, ◌↔◌, refl, sym, ap, ◌∙◌, Bool, true, false, ◌&&◌, none, some, [], ◌∷◌, ◌++◌, ◌==◌,
  nat_eq, list_eq, list_beq_iff, arith, All, Bool-cases, Option-cases, inl, inr, nat_beq_iff,
  and-cases, apart, subst, beq_refl,
}
use legends_chat.Image.Bytes.{codes}
use legends_chat.Ids.{
  Text, domain, to_matrix_user_id, to_matrix_room_id, to_matrix_bot_id, is_id_char, id_then_domain,
  match_id, from_matrix_user_id, from_matrix_room_id, from_matrix_bot_id, MatrixPrincipal, user,
  bot, or_user, parse_matrix_principal,
}

-- Hexadecimal digits and dashes, at least one.
pub record IsId (id : Text) : Type 0 where
  pub some_char : id ≢ []
  pub chars : All (λ c. is_id_char c ≡ true) id

domain_read : id_then_domain true domain ≡ some []
unfolding id_then_domain is_id_char
domain_read = refl

cons_nil : (c : ℕ) (cs : Text) → c ∷ cs ≢ []
cons_nil c cs e = cc

print_shut :
    (id : Text) → All (λ c. is_id_char c ≡ true) id → id_then_domain true (id ++ domain) ≡ some id
unfolding id_then_domain
print_shut [] all = domain_read
print_shut (c ∷ cs) all = rw (all.0, print_shut cs all.1) refl

id_then_domain-print : (id : Text) → IsId id → id_then_domain false (id ++ domain) ≡ some id
unfolding id_then_domain
id_then_domain-print [] good = absurd (good.some_char refl)
id_then_domain-print (c ∷ cs) good = rw (good.chars.0, print_shut cs good.chars.1) refl

-- What a match has read.
abbrev pub Read : Bool → Text → Text → Type 0
Read taken cs id =
    (cs ≡ id ++ domain) × All (λ c. is_id_char c ≡ true) id × (taken ≡ false → id ≢ [])

id_then_domain-Read :
    (taken : Bool) (cs id : Text) → id_then_domain taken cs ≡ some id → Read taken cs id
unfolding id_then_domain
id_then_domain-Read taken [] id e = cc
id_then_domain-Read taken (c ∷ cs) id e = elim (Bool-cases (is_id_char c)) [
  | inl on ↦ elim (Option-cases (id_then_domain true cs)) [
    | inl failed ↦ cc (rw (on, failed) at e)
    | inr (rest, found) ↦
        let (split, chars, _) = id_then_domain-Read true cs rest found in
        let same : c ∷ rest ≡ id = ground (arith, rw (on, found) at e) in
        subst (Read taken (c ∷ cs)) same (ap (λ l. c ∷ l) split, (on, chars), λ _. cons_nil c rest)
  ]
  | inr off ↦ elim (Bool-cases (taken && c ∷ cs == domain)) [
    | inl ends ↦
        let none_left : [] ≡ id = ground (arith, rw (off, ends) at e) in
        let (before, here) = and-cases taken (c ∷ cs == domain) ends in
        subst (Read taken (c ∷ cs)) none_left
          ((list_beq_iff (c ∷ cs) domain).0 here, tt, λ first. absurd (apart before first))
    | inr other ↦ cc (rw (off, other) at e)
  ]
]

match_id-print : (prefix id : Text) → IsId id → match_id prefix (prefix ++ (id ++ domain)) ≡ some id
unfolding match_id
match_id-print [] id good = id_then_domain-print id good
match_id-print (p ∷ ps) id good = rw (beq_refl p) (match_id-print ps id good)

match_id-IsId :
    (prefix cs id : Text) → match_id prefix cs ≡ some id → (cs ≡ prefix ++ (id ++ domain)) × IsId id
unfolding match_id
match_id-IsId [] cs id e =
    let (split, chars, long) = id_then_domain-Read false cs id e in
    (split, record { some_char = long refl; chars = chars })
match_id-IsId (p ∷ ps) [] id e = cc
match_id-IsId (p ∷ ps) (c ∷ cs) id e = elim (Bool-cases (p == c)) [
  | inl same ↦
      let (split, good) = match_id-IsId ps cs id (rw same at e) in
      ((ap (λ x. x ∷ cs) (sym ((nat_beq_iff p c).0 same))) ∙ ap (λ l. p ∷ l) split, good)
  | inr other ↦ cc (rw other at e)
]

match_id_iff :
    (prefix cs id : Text)
    → (match_id prefix cs ≡ some id) ↔ ((cs ≡ prefix ++ (id ++ domain)) × IsId id)
match_id_iff prefix cs id =
    (match_id-IsId prefix cs id, λ h. ap (match_id prefix) h.0 ∙ match_id-print prefix id h.1)

-- A text is the Matrix id of a user (`fromMatrixUserId`) or of a room (`fromMatrixRoomId`) exactly
-- if it is what the printer gives for an id of hexadecimal digits and dashes, and the parser
-- gives back that id.
pub from_matrix_iff :
    (cs id : Text)
    → ((from_matrix_user_id cs ≡ some id) ↔ ((cs ≡ to_matrix_user_id id) × IsId id))
      × ((from_matrix_room_id cs ≡ some id) ↔ ((cs ≡ to_matrix_room_id id) × IsId id))
unfolding from_matrix_user_id from_matrix_room_id to_matrix_user_id to_matrix_room_id
from_matrix_iff cs id = (match_id_iff (codes "@") cs id, match_id_iff (codes "!") cs id)

-- `o` is no character of an id.
bot_no_user : (id : Text) → from_matrix_user_id (to_matrix_bot_id id) ≡ none
unfolding from_matrix_user_id to_matrix_bot_id match_id id_then_domain is_id_char
bot_no_user id = refl

abbrev pub print : MatrixPrincipal → Text
print (user id) = to_matrix_user_id id
print (bot id) = to_matrix_bot_id id

abbrev pub id_of : MatrixPrincipal → Text
id_of (user id) = id
id_of (bot id) = id

bot_iff :
    (cs id : Text) → (from_matrix_bot_id cs ≡ some id) ↔ ((cs ≡ to_matrix_bot_id id) × IsId id)
unfolding from_matrix_bot_id to_matrix_bot_id
bot_iff cs id = match_id_iff (codes "@bot.") cs id

user_no_bot : (cs id : Text) → from_matrix_user_id cs ≡ some id → from_matrix_bot_id cs ≡ none
user_no_bot cs id e = elim (Option-cases (from_matrix_bot_id cs)) [
  | inl none_there ↦ none_there
  | inr (b, found) ↦ cc (sym e ∙ ap from_matrix_user_id ((bot_iff cs b).0 found).0 ∙ bot_no_user b)
]

-- A text names a principal (`parseMatrixPrincipal`) exactly if it is the printed id of that user or
-- bot, and the id in it consists of hexadecimal digits and dashes: every such principal is read back,
-- nothing else is read, and no text names a user and a bot.
pub parse_matrix_principal_iff :
    (cs : Text) (p : MatrixPrincipal)
    → (parse_matrix_principal cs ≡ some p) ↔ ((cs ≡ print p) × IsId (id_of p))
unfolding parse_matrix_principal
parse_matrix_principal_iff cs p = (
  λ e. elim (Option-cases (from_matrix_bot_id cs)) [
    | inr (id, found) ↦
        let same : bot id ≡ p = ground (arith, rw found at e) in
        subst (λ q. (cs ≡ print q) × IsId (id_of q)) same ((bot_iff cs id).0 found)
    | inl no_bot ↦ elim (Option-cases (from_matrix_user_id cs)) [
      | inr (id, found) ↦
          let same : user id ≡ p = ground (arith, rw (no_bot, found) at e) in
          subst (λ q. (cs ≡ print q) × IsId (id_of q)) same ((from_matrix_iff cs id).0.0 found)
      | inl no_user ↦ cc (rw (no_bot, no_user) at e)
    ]
  ],
  read_back p,
)
  where
    read_back :
        (q : MatrixPrincipal)
        → (cs ≡ print q) × IsId (id_of q)
        → or_user (from_matrix_bot_id cs) (from_matrix_user_id cs) ≡ some q
    read_back (bot id) h = rw ((bot_iff cs id).1 h) refl
    read_back (user id) h =
        let found = (from_matrix_iff cs id).0.1 h in rw (user_no_bot cs id found, found) refl
