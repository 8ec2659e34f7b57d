-- ===== src/Codes/Invites.antt =====
-- packages/shared/src/invite-code.ts: the codes that are generated are valid.
use legends_chat.Common.{
  ℕ, zero, suc, ◌%◌, ◌≤◌, ◌<◌, ◌≡◌, refl, ap, true, false, none, some, [], ◌∷◌, ◌++◌, length,
  get_elem?, ltb, includes, every_of, nat_eq, arith,
}
use legends_chat.Image.Bytes.{Buffer}
use legends_chat.Access.Permissions.{strip}
use legends_chat.Codes.{
  Text, alphabet, body, invite_code_prefix, format_invite_code_from_bytes, invite_code_regex,
}

-- A character of the alphabet, by its index.
get_includes :
    (i : ℕ) (cs : Text)
    → i < length cs
    → (c : ℕ) × (get_elem? cs i ≡ some c) × (includes c cs ≡ true)
get_includes i [] h = absurd (omega (arith, h))
get_includes zero (c ∷ cs) h = (c, refl, ground arith)
get_includes (suc i) (c ∷ cs) h =
    let (d, here, there) = get_includes i cs (omega arith) in (d, here, ground (arith, there))

pub body_valid :
    (n : ℕ) (bytes : Buffer)
    → n ≤ length bytes
    → (code : Text) × (body n bytes ≡ some code)
      × (length code ≡ n)
      × (every_of (λ c. includes c alphabet) code ≡ true)
unfolding body
body_valid zero bytes h = ([], refl, refl, refl)
body_valid (suc n) [] h = absurd (omega (arith, h))
body_valid (suc n) (b ∷ bytes) h =
    let (c, here, known) = get_includes (b % length alphabet) alphabet (omega arith) in
    let (rest, made, long, all) = body_valid n bytes (omega arith) in
    (c ∷ rest, rw (here, made) refl, ap suc long, rw (known, all) refl)

-- With at least twelve bytes, whatever they are, and no other prefix, a code is generated and it is
-- a valid invite code.
pub format_invite_code_from_bytes_valid :
    (bytes : Buffer)
    → 12 ≤ length bytes
    → (code : Text) × (format_invite_code_from_bytes bytes none ≡ some code)
      × (invite_code_regex code ≡ true)
unfolding format_invite_code_from_bytes invite_code_regex strip
format_invite_code_from_bytes_valid bytes h =
    let (code, made, long, all) = body_valid 12 bytes h in
    let enough : ltb (length bytes) 12 ≡ false = ground (arith, h) in
    (invite_code_prefix ++ code, rw (enough, made) refl, rw (long, all) refl)
