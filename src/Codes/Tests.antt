-- ===== src/Codes/Tests.antt =====
-- packages/shared/src/invite-code.ts and apps/web/lib/totp-recovery.ts: the functions run on small
-- inputs. The hash here is the text itself.
use legends_chat.Common.{◌≡◌, refl, true, false, none, some, List, [], ◌∷◌, arith}
use legends_chat.Image.Bytes.{Buffer, codes}
use legends_chat.Access.Permissions.{strip}
use legends_chat.Codes.{
  Text, body, format_invite_code_from_bytes, invite_code_regex, normalize_recovery_code,
  is_recovery_code_shape, generate_one, format, Row, issue_recovery_codes, matches,
  redeem_recovery_code, count_unused_recovery_codes,
}
use legends_chat.Codes.Invites.{format_invite_code_from_bytes_valid}
use legends_chat.Codes.Recovery.{
  redeem_recovery_code_once, redeem-issue_recovery_codes, count-issue_recovery_codes,
}

abbrev bytes : Buffer
bytes = 0 ∷ 1 ∷ 2 ∷ 31 ∷ 32 ∷ 255 ∷ 8 ∷ 9 ∷ 10 ∷ 11 ∷ 12 ∷ 13 ∷ []

invite_test :
    (format_invite_code_from_bytes bytes none ≡ some (codes "LGND#ABC9A9JKLMNP"))
    × (format_invite_code_from_bytes [] none ≡ none)
    × (invite_code_regex (codes "LGND#ABC9A9JKLMN0") ≡ false)
unfolding format_invite_code_from_bytes body invite_code_regex strip
invite_test = (refl, refl, refl)

format_invite_code_from_bytes_valid_example :
    (code : Text) × (format_invite_code_from_bytes bytes none ≡ some code)
    × (invite_code_regex code ≡ true)
format_invite_code_from_bytes_valid_example =
    format_invite_code_from_bytes_valid bytes (omega arith)

abbrev as_is : Text → Text
as_is cs = cs

abbrev first_code : Text
first_code = codes "ABCDEFGHJK"

abbrev second_code : Text
second_code = codes "LMNPQRSTUV"

abbrev ann : Text
ann = codes "ann"

abbrev old_rows : List Row
old_rows =
    record { user_id = codes "ann"; code_hash = codes "WXYZ234567"; used_at = none }
    ∷ record { user_id = codes "bob"; code_hash = first_code; used_at = none }
    ∷ []

redeem_test :
    ((redeem_recovery_code as_is 5 (codes "bob") (codes "abcde fghjk") old_rows).0 ≡ true)
    × ((redeem_recovery_code as_is 5 ann (codes "abcde fghjk") old_rows).0 ≡ false)
    × (generate_one bytes ≡ some (codes "ABC9A9JKLM"))
unfolding redeem_recovery_code normalize_recovery_code is_recovery_code_shape matches generate_one
    body
redeem_test = (refl, refl, refl)

redeem_recovery_code_once_example :
    (redeem_recovery_code as_is 6
      (codes "bob")
      (codes "abcde fghjk")
      (redeem_recovery_code as_is 5 (codes "bob") (codes "abcde fghjk") old_rows).1).0
    ≡ false
redeem_recovery_code_once_example =
    redeem_recovery_code_once as_is 5 6 (codes "bob") (codes "abcde fghjk") old_rows

redeem-issue_recovery_codes_example :
    (redeem_recovery_code as_is 5 ann
      (format second_code)
      (issue_recovery_codes as_is ann (first_code ∷ second_code ∷ []) old_rows)).0
    ≡ true
redeem-issue_recovery_codes_example =
    redeem-issue_recovery_codes as_is 5 ann second_code (first_code ∷ second_code ∷ []) old_rows
      (refl, refl) refl

count-issue_recovery_codes_example :
    count_unused_recovery_codes as_is ann
      (issue_recovery_codes as_is ann (first_code ∷ second_code ∷ []) old_rows)
    ≡ 2
count-issue_recovery_codes_example =
    count-issue_recovery_codes as_is ann (first_code ∷ second_code ∷ []) old_rows
