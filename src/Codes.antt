-- ===== src/Codes.antt =====
-- packages/shared/src/invite-code.ts and apps/web/lib/totp-recovery.ts: invite codes, and the
-- recovery codes of two-factor login. A text is the list of its characters, which are ASCII here.
pub mod Invites
pub mod Recovery
mod Tests
use legends_chat.Common.{
  ℕ, zero, suc, ◌+◌, ◌-◌, ◌%◌, Bool, true, false, not, ◌&&◌, ◌||◌, Option, none, some, List, [],
  ◌∷◌, ◌++◌, map, length, get_elem?, take, drop, leb, ltb, includes, set_add, every_of, some_of,
  keep, ◌==◌, nat_eq, list_eq, if◌then◌else◌,
}
use legends_chat.Image.Bytes.{Buffer, codes, ◌>>=◌}
use legends_chat.Access.Permissions.{strip}

abbrev pub Text : Type 0
Text = List ℕ

-- INVITE_CODE_ALPHABET, which recovery codes share.
abbrev pub alphabet : Text
alphabet = codes "ABCDEFGHJKLMNPQRSTUVWXYZ23456789"

-- The loop over the bytes: one character for each of the first `n`. `none` is an index out of range.
unfoldable pub body : ℕ → Buffer → Option Text
body zero bytes = some []
body (suc n) [] = none
body (suc n) (b ∷ bytes) = do
  c ← get_elem? alphabet (b % length alphabet)
  rest ← body n bytes
  some (c ∷ rest)

abbrev pub invite_code_prefix : Text
invite_code_prefix = codes "LGND#"

abbrev pub or_default : Option Text → Text
or_default none = invite_code_prefix
or_default (some prefix) = prefix

-- `none` is the exception.
unfoldable pub format_invite_code_from_bytes : Buffer → Option Text → Option Text
format_invite_code_from_bytes bytes prefix =
    if ltb (length bytes) 12
    then none
    else (body 12 bytes >>= λ code. some (or_default prefix ++ code))

abbrev is_body : Option Text → Bool
is_body none = false
is_body (some cs) = length cs == 12 && every_of (λ c. includes c alphabet) cs

-- `INVITE_CODE_REGEX.test(text)`
unfoldable pub invite_code_regex : Text → Bool
invite_code_regex cs = is_body (strip invite_code_prefix cs)

abbrev pub upper : ℕ → ℕ
upper c = if leb b'a' c && leb c b'z' then c - 32 else c

abbrev pub is_alphanumeric : ℕ → Bool
is_alphanumeric c = leb b'A' c && leb c b'Z' || leb b'0' c && leb c b'9'

unfoldable pub normalize_recovery_code : Text → Text
normalize_recovery_code raw = keep is_alphanumeric (map upper raw)

unfoldable pub is_recovery_code_shape : Text → Bool
is_recovery_code_shape raw =
    length (normalize_recovery_code raw) == 10
    && every_of (λ c. includes c alphabet) (normalize_recovery_code raw)

-- `generateOne`, on the bytes that `randomBytes` gives.
unfoldable pub generate_one : Buffer → Option Text
generate_one bytes = body 10 bytes

unfoldable pub format : Text → Text
format code = take 5 code ++ (b'-' ∷ drop 5 code)

-- The columns of `totp_recovery_codes` that are read.
pub record Row : Type 0 where
  pub user_id : Text
  pub code_hash : Text
  pub used_at : Option ℕ

-- SHA-256 in hexadecimal is a parameter.
module _ (hash : Text → Text) where
  -- The transaction of `issueRecoveryCodes`, on the codes that it generated.
  unfoldable pub issue_recovery_codes : Text → List Text → List Row → List Row
  issue_recovery_codes user plain rows =
      keep (λ r. not (r.user_id == user)) rows
      ++ map (λ c. record { user_id = user; code_hash = hash c; used_at = none }) plain

  abbrev pub is_unused : Option ℕ → Bool
  is_unused none = true
  is_unused (some t) = false

  -- The condition of the UPDATE.
  unfoldable pub matches : Text → Text → Row → Bool
  matches user normalized r =
      r.user_id == user && r.code_hash == hash normalized && is_unused r.used_at

  unfoldable pub spend : ℕ → Text → Text → List Row → List Row
  spend now user normalized rows =
      map (λ r. if matches user normalized r then record r { used_at = some now } else r) rows

  -- Whether the code was spent, and the table then.
  unfoldable pub redeem_recovery_code : ℕ → Text → Text → List Row → Bool × List Row
  redeem_recovery_code now user raw rows =
      if not (is_recovery_code_shape (normalize_recovery_code raw)) then (false, rows) else (
        some_of (matches user (normalize_recovery_code raw)) rows,
        spend now user (normalize_recovery_code raw) rows,
      )

  unfoldable pub count_unused_recovery_codes : Text → List Row → ℕ
  count_unused_recovery_codes user rows =
      length (keep (λ r. r.user_id == user && is_unused r.used_at) rows)
