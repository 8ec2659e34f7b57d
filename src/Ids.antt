-- ===== src/Ids.antt =====
-- apps/web/lib/crypto-matrix.ts: ids of users, rooms and bots as Matrix ids. A text is the list of
-- its characters.
pub mod Parsing
mod Tests
use legends_chat.Common.{
  ℕ, Bool, true, false, not, ◌&&◌, ◌||◌, Option, none, some, List, [], ◌∷◌, ◌++◌, leb, ◌==◌, nat_eq,
  list_eq, if◌then◌else◌,
}
use legends_chat.Image.Bytes.{codes}

abbrev pub Text : Type 0
Text = List ℕ

-- `:${CRYPTO_DOMAIN}`
abbrev pub domain : Text
domain = codes ":legends.local"

unfoldable pub to_matrix_user_id : Text → Text
to_matrix_user_id user_id = codes "@" ++ (user_id ++ domain)

unfoldable pub to_matrix_room_id : Text → Text
to_matrix_room_id conv_id = codes "!" ++ (conv_id ++ domain)

unfoldable pub to_matrix_bot_id : Text → Text
to_matrix_bot_id bot_id = codes "@bot." ++ (bot_id ++ domain)

-- `[0-9a-fA-F-]`
unfoldable pub is_id_char : ℕ → Bool
is_id_char c =
    leb b'0' c && leb c b'9' || leb b'a' c && leb c b'f' || leb b'A' c && leb c b'F' || c == b'-'

abbrev pub prepend : ℕ → Option Text → Option Text
prepend c none = none
prepend c (some id) = some (c ∷ id)

-- `([0-9a-fA-F-]+):legends\.local$`, matched at the start of a text: the group. No character of the
-- group is a colon, so the match needs no backtracking. `taken` says whether the group has a
-- character yet.
unfoldable pub id_then_domain : Bool → Text → Option Text
id_then_domain taken [] = none
id_then_domain taken (c ∷ cs) =
    let rest = id_then_domain true cs in
    if is_id_char c then prepend c rest else if taken && c ∷ cs == domain then some [] else none

-- `^<prefix>([0-9a-fA-F-]+):legends\.local$`
unfoldable pub match_id : Text → Text → Option Text
match_id [] cs = id_then_domain false cs
match_id (p ∷ ps) [] = none
match_id (p ∷ ps) (c ∷ cs) = let rest = match_id ps cs in if p == c then rest else none

unfoldable pub from_matrix_user_id : Text → Option Text
from_matrix_user_id matrix_id = match_id (codes "@") matrix_id

unfoldable pub from_matrix_room_id : Text → Option Text
from_matrix_room_id room_id = match_id (codes "!") room_id

unfoldable pub from_matrix_bot_id : Text → Option Text
from_matrix_bot_id matrix_id = match_id (codes "@bot.") matrix_id

pub data MatrixPrincipal : Type 0 where
  user bot : Text → MatrixPrincipal

abbrev pub or_user : Option Text → Option Text → Option MatrixPrincipal
or_user (some id) parsed = some (bot id)
or_user none (some id) = some (user id)
or_user none none = none

unfoldable pub parse_matrix_principal : Text → Option MatrixPrincipal
parse_matrix_principal matrix_id =
    or_user (from_matrix_bot_id matrix_id) (from_matrix_user_id matrix_id)
