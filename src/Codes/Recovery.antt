-- ===== src/Codes/Recovery.antt =====
-- apps/web/lib/totp-recovery.ts: a recovery code is good once, for its user.
use legends_chat.Common.{
  ℕ, suc, ◌+◌, ◌≡◌, refl, sym, ap, ◌∙◌, Bool, true, false, not, ◌&&◌, none, some, List, [], ◌∷◌,
  ◌++◌, map, length, take, drop, includes, every_of, some_of, keep, ◌==◌, nat_eq, list_eq, arith,
  Bool-cases, inl, inr, and-cases, nat_beq_iff, list_beq_iff, beq_refl, take-append-drop, or_true,
  some_of-append,
}
use legends_chat.Codes.{
  Text, alphabet, upper, is_alphanumeric, normalize_recovery_code, is_recovery_code_shape, format,
  Row, issue_recovery_codes, is_unused, matches, spend, redeem_recovery_code,
  count_unused_recovery_codes,
}

-- Codes as they are generated: ten characters of the alphabet.
abbrev pub IsCode : Text → Type 0
IsCode code = (length code ≡ 10) × (every_of (λ c. includes c alphabet) code ≡ true)

abbrev is_plain : ℕ → Bool
is_plain c = upper c == c && is_alphanumeric c

every_includes :
    (p : ℕ → Bool) (c : ℕ) (cs : Text) → every_of p cs ≡ true → includes c cs ≡ true → p c ≡ true
every_includes p c [] all here = cc
every_includes p c (x ∷ cs) all here = elim (Bool-cases (x == c)) [
  | inl same ↦ ap p (sym ((nat_beq_iff x c).0 same)) ∙ (and-cases (p x) (every_of p cs) all).0
  | inr other ↦ every_includes p c cs (and-cases (p x) (every_of p cs) all).1 (rw other at here)
]

normal : Text → Text
unfolding normalize_recovery_code
normal cs = keep is_alphanumeric (map upper cs)

normal-append : (cs ds : Text) → normal (cs ++ ds) ≡ normal cs ++ normal ds
unfolding normal
normal-append [] ds = refl
normal-append (c ∷ cs) ds = ground (arith, normal-append cs ds)

normal_plain : (cs : Text) → every_of (λ c. includes c alphabet) cs ≡ true → normal cs ≡ cs
unfolding normal
normal_plain [] h = refl
normal_plain (c ∷ cs) h =
    let (known, all) = and-cases (includes c alphabet) (every_of (λ d. includes d alphabet) cs) h in
    let plain = every_includes is_plain c alphabet refl known in
    let (same, kept) = and-cases (upper c == c) (is_alphanumeric c) plain in
    rw ((nat_beq_iff (upper c) c).0 same, kept) (ap (λ l. c ∷ l) (normal_plain cs all))

every-append :
    (cs ds : Text)
    → every_of (λ c. includes c alphabet) (cs ++ ds) ≡ true
    → (every_of (λ c. includes c alphabet) cs ≡ true)
      × (every_of (λ c. includes c alphabet) ds ≡ true)
every-append [] ds h = (refl, h)
every-append (c ∷ cs) ds h =
    let (known, all) =
      and-cases (includes c alphabet) (every_of (λ d. includes d alphabet) (cs ++ ds)) h in
    let (before, behind) = every-append cs ds all in (rw (known, before) refl, behind)

normalize-format :
    (code : Text)
    → every_of (λ c. includes c alphabet) code ≡ true
    → normalize_recovery_code (format code) ≡ code
unfolding normal normalize_recovery_code format
normalize-format code h =
    let (before, behind) =
      every-append (take 5 code) (drop 5 code)
        (ap (every_of (λ c. includes c alphabet)) (take-append-drop 5 code) ∙ h) in
    normal-append (take 5 code) (b'-' ∷ drop 5 code)
    ∙ (ap (λ l. l ++ normal (drop 5 code)) (normal_plain (take 5 code) before)
        ∙ (ap (λ l. take 5 code ++ l) (normal_plain (drop 5 code) behind)
            ∙ take-append-drop 5 code))

shape : (code : Text) → IsCode code → is_recovery_code_shape code ≡ true
unfolding is_recovery_code_shape normal
shape code (long, all) = rw (normal_plain code all, long, all) refl

module _ (hash : Text → Text) where
  spent_row :
      (now : ℕ) (user n : Text) (r : Row)
      → matches hash user n (record r { used_at = some now }) ≡ false
  unfolding matches
  spent_row now user n r = ground arith

  matches_spent :
      (now : ℕ) (user n : Text) (rows : List Row)
      → some_of (matches hash user n) (spend hash now user n rows) ≡ false
  unfolding matches spend
  matches_spent now user n [] = refl
  matches_spent now user n (r ∷ rows) = elim (Bool-cases (matches hash user n r)) [
    | inl hit ↦ rw (hit, spent_row now user n r) (matches_spent now user n rows)
    | inr miss ↦ rw (miss, miss) (matches_spent now user n rows)
  ]

  -- Whatever the table holds, and whether or not the first attempt succeeded: a second attempt of
  -- the same user with the same text is refused.
  pub redeem_recovery_code_once :
      (now later : ℕ) (user raw : Text) (rows : List Row)
      → (redeem_recovery_code hash later user raw (redeem_recovery_code hash now user raw rows).1).0
        ≡ false
  unfolding redeem_recovery_code
  redeem_recovery_code_once now later user raw rows =
      elim (Bool-cases (is_recovery_code_shape (normalize_recovery_code raw))) [
        | inr shapeless ↦ rw shapeless refl
        | inl shaped ↦ rw shaped (matches_spent now user (normalize_recovery_code raw) rows)
      ]

  issued_match :
      (user : Text) (plain : List Text) (code : Text)
      → includes code plain ≡ true
      → some_of
          (matches hash user code)
          (map (λ c. record { user_id = user; code_hash = hash c; used_at = none }) plain)
        ≡ true
  unfolding matches
  issued_match user [] code h = cc
  issued_match user (c ∷ plain) code h = elim (Bool-cases (c == code)) [
    | inl same ↦
        rw (ap hash ((list_beq_iff c code).0 same), beq_refl user, beq_refl (hash code)) refl
    | inr other ↦ rw (issued_match user plain code (rw other at h)) (or_true _)
  ]

  -- Every code that is issued, as it is displayed, is accepted from its user on the first attempt.
  pub redeem-issue_recovery_codes :
      (now : ℕ) (user code : Text) (plain : List Text) (rows : List Row)
      → IsCode code
      → includes code plain ≡ true
      → (redeem_recovery_code hash now user
          (format code)
          (issue_recovery_codes hash user plain rows)).0
        ≡ true
  unfolding redeem_recovery_code issue_recovery_codes
  redeem-issue_recovery_codes now user code plain rows good there =
      rw (normalize-format code good.1, shape code good)
        (some_of-append (matches hash user code) (keep (λ r. not (r.user_id == user)) rows) _
          (issued_match user plain code there))

  abbrev counted : Text → Row → Bool
  counted user r = r.user_id == user && is_unused hash r.used_at

  count-append :
      (user : Text) (rs ss : List Row)
      → length (keep (counted user) (rs ++ ss))
        ≡ length (keep (counted user) rs) + length (keep (counted user) ss)
  count-append user [] ss = omega arith
  count-append user (r ∷ rs) ss = elim (Bool-cases (counted user r)) [
    | inl yes_row ↦ rw yes_row (omega (arith, count-append user rs ss))
    | inr no_row ↦ rw no_row (count-append user rs ss)
  ]

  count_removed :
      (user : Text) (rows : List Row)
      → length (keep (counted user) (keep (λ r. not (r.user_id == user)) rows)) ≡ 0
  count_removed user [] = refl
  count_removed user (r ∷ rows) = elim (Bool-cases (r.user_id == user)) [
    | inl own ↦ rw own (count_removed user rows)
    | inr other ↦ rw (other, other) (count_removed user rows)
  ]

  count_issued :
      (user : Text) (plain : List Text)
      → length (
          keep
            (counted user)
            (map (λ c. record { user_id = user; code_hash = hash c; used_at = none }) plain))
        ≡ length plain
  count_issued user [] = refl
  count_issued user (c ∷ plain) = rw (beq_refl user) (ap suc (count_issued user plain))

  -- After codes are issued to a user, the user has as many unused codes as were issued: none of the
  -- older ones counts.
  pub count-issue_recovery_codes :
      (user : Text) (plain : List Text) (rows : List Row)
      → count_unused_recovery_codes hash user (issue_recovery_codes hash user plain rows)
        ≡ length plain
  unfolding count_unused_recovery_codes issue_recovery_codes
  count-issue_recovery_codes user plain rows =
      count-append user (keep (λ r. not (r.user_id == user)) rows) _
      ∙ omega (arith, count_removed user rows, count_issued user plain)
