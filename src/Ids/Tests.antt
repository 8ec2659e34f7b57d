-- ===== src/Ids/Tests.antt =====
-- apps/web/lib/crypto-matrix.ts: the printers and parsers run on small ids.
use legends_chat.Common.{◌≡◌, ◌↔◌, refl, none, some}
use legends_chat.Image.Bytes.{codes}
use legends_chat.Ids.{
  to_matrix_user_id, to_matrix_room_id, is_id_char, id_then_domain, match_id, from_matrix_user_id,
  from_matrix_room_id, from_matrix_bot_id, user, bot, parse_matrix_principal,
}
use legends_chat.Ids.Parsing.{IsId, from_matrix_iff, parse_matrix_principal_iff}

parse_test :
    (parse_matrix_principal (codes "@bot.0a-1f:legends.local") ≡ some (bot (codes "0a-1f")))
    × (parse_matrix_principal (codes "@0a-1f:legends.local") ≡ some (user (codes "0a-1f")))
    × (parse_matrix_principal (codes "@root:legends.local") ≡ none)
    × (from_matrix_room_id (codes "!:legends.local") ≡ none)
unfolding parse_matrix_principal from_matrix_bot_id from_matrix_user_id from_matrix_room_id match_id
    id_then_domain is_id_char
parse_test = (refl, refl, refl, refl)

parse_matrix_principal_iff_example :
    (parse_matrix_principal (codes "@0a-1f:legends.local") ≡ some (user (codes "0a-1f")))
    ↔ ((codes "@0a-1f:legends.local" ≡ to_matrix_user_id (codes "0a-1f")) × IsId (codes "0a-1f"))
parse_matrix_principal_iff_example =
    parse_matrix_principal_iff (codes "@0a-1f:legends.local") (user (codes "0a-1f"))

from_matrix_iff_example :
    ((from_matrix_user_id (codes "@0a:legends.local") ≡ some (codes "0a"))
      ↔ ((codes "@0a:legends.local" ≡ to_matrix_user_id (codes "0a")) × IsId (codes "0a")))
    × ((from_matrix_room_id (codes "@0a:legends.local") ≡ some (codes "0a"))
        ↔ ((codes "@0a:legends.local" ≡ to_matrix_room_id (codes "0a")) × IsId (codes "0a")))
from_matrix_iff_example = from_matrix_iff (codes "@0a:legends.local") (codes "0a")
