-- ===== src/Access/Permissions/Names.antt =====
-- Which texts are permissions: the fixed list, and `topic.<slug>.<action>`.
use legends_chat.Common.{
  ℕ, zero, suc, ◌≤◌, String, ◌≡◌, ◌↔◌, ◌⊎◌, refl, ap, inl, inr, true, ◌&&◌, Option, none, some,
  List, [], ◌∷◌, ◌++◌, length, All, Among, includes, includes_iff, ◌==◌, nat_eq, list_eq, string_eq,
  arith, Bool-cases, and-cases, nat_beq_iff,
}
use legends_chat.Image.Bytes.{codes}
use legends_chat.Access.Permissions.{
  permission_values, is_slug_head, is_slug_char, topic_actions, slug_rest, strip, slug_at,
  topic_perm_re, is_valid_permission,
}

-- A slug's characters behind the first, a dot, and an action.
pub record IsTail (room : ℕ) (cs : List ℕ) : Type 0 where
  pub slug : List ℕ
  pub action : List ℕ
  pub split : cs ≡ slug ++ (b'.' ∷ action)
  pub chars : All (λ c. is_slug_char c ≡ true) slug
  pub short : length slug ≤ room
  pub known : Among action topic_actions

pub record IsTopicPermission (cs : List ℕ) : Type 0 where
  pub head : ℕ
  pub rest : List ℕ
  pub split : cs ≡ codes "topic." ++ (head ∷ rest)
  pub first : is_slug_head head ≡ true
  pub tail : IsTail 63 rest

dot-IsTail :
    (room : ℕ) (c : ℕ) (cs : List ℕ)
    → (c == b'.' && includes cs topic_actions) ≡ true
    → IsTail room (c ∷ cs)
dot-IsTail room c cs h =
    let (dot, action) = and-cases (c == b'.') (includes cs topic_actions) h in
    record {
      slug = [];
      action = cs;
      split = ap (λ d. d ∷ cs) ((nat_beq_iff c b'.').0 dot);
      chars = tt;
      short = omega arith;
      known = (includes_iff cs topic_actions).0 action;
    }

slug_rest-IsTail : (room : ℕ) (cs : List ℕ) → slug_rest room cs ≡ true → IsTail room cs
unfolding slug_rest
slug_rest-IsTail room [] h = cc
slug_rest-IsTail zero (c ∷ cs) h = dot-IsTail zero c cs h
slug_rest-IsTail (suc room) (c ∷ cs) h = elim (Bool-cases (is_slug_char c)) [
  | inr other ↦ dot-IsTail (suc room) c cs (rw other at h)
  | inl char ↦
      let t = slug_rest-IsTail room cs (rw char at h) in
      record {
        slug = c ∷ t.slug;
        action = t.action;
        split = ap (λ l. c ∷ l) t.split;
        chars = (char, t.chars);
        short = omega (arith, t.short);
        known = t.known;
      }
]

IsTail-slug_rest :
    (room : ℕ) (slug action : List ℕ)
    → All (λ c. is_slug_char c ≡ true) slug
    → length slug ≤ room
    → includes action topic_actions ≡ true
    → slug_rest room (slug ++ (b'.' ∷ action)) ≡ true
unfolding slug_rest
IsTail-slug_rest zero [] action chars short known = known
IsTail-slug_rest (suc room) [] action chars short known = known
IsTail-slug_rest zero (c ∷ slug) action chars short known = absurd (omega arith)
IsTail-slug_rest (suc room) (c ∷ slug) action (char, chars) short known =
    rw char (IsTail-slug_rest room slug action chars (omega arith) known)

strip_sound : (ps cs rest : List ℕ) → strip ps cs ≡ some rest → cs ≡ ps ++ rest
unfolding strip
strip_sound [] cs rest h = ground arith
strip_sound (p ∷ ps) [] rest h = cc
strip_sound (p ∷ ps) (c ∷ cs) rest h = ground (arith, strip_sound ps cs rest)

strip_complete : (ps rest : List ℕ) → strip ps (ps ++ rest) ≡ some rest
unfolding strip
strip_complete [] rest = refl
strip_complete (p ∷ ps) rest = ground (arith, strip_complete ps rest)

slug_at-IsTopicPermission :
    (cs : List ℕ) (o : Option (List ℕ))
    → strip (codes "topic.") cs ≡ o
    → slug_at o ≡ true
    → IsTopicPermission cs
slug_at-IsTopicPermission cs none e h = cc
slug_at-IsTopicPermission cs (some []) e h = cc
slug_at-IsTopicPermission cs (some (c ∷ rest)) e h =
    let (first, tail) = and-cases (is_slug_head c) (slug_rest 63 rest) h in
    record {
      head = c;
      rest = rest;
      split = strip_sound (codes "topic.") cs (c ∷ rest) e;
      first = first;
      tail = slug_rest-IsTail 63 rest tail;
    }

topic_perm_re_iff : (cs : List ℕ) → (topic_perm_re cs ≡ true) ↔ IsTopicPermission cs
unfolding topic_perm_re
topic_perm_re_iff cs = (
  slug_at-IsTopicPermission cs (strip (codes "topic.") cs) refl,
  λ t.
      let tail : slug_rest 63 t.rest ≡ true = rw t.tail.split (
        IsTail-slug_rest 63 t.tail.slug t.tail.action t.tail.chars t.tail.short
          ((includes_iff t.tail.action topic_actions).1 t.tail.known)) in
      rw (t.split) (rw (strip_complete (codes "topic.") (t.head ∷ t.rest)) (rw (t.first) tail)),
)

-- A text is a permission exactly if it is one of the fixed list, or reads `topic.<slug>.<action>`
-- with a slug of at most 64 characters and one of the four actions.
pub is_valid_permission_iff :
    (perm : String)
    → (is_valid_permission perm ≡ true)
      ↔ (Among perm permission_values ⊎ IsTopicPermission (codes perm))
unfolding is_valid_permission
is_valid_permission_iff perm = (
  λ h. elim (Bool-cases (includes perm permission_values)) [
    | inl fixed ↦ inl ((includes_iff perm permission_values).0 fixed)
    | inr other ↦ inr ((topic_perm_re_iff (codes perm)).0 (rw other at h))
  ],
  λ h. elim h [
    | inl fixed ↦ rw ((includes_iff perm permission_values).1 fixed)
    | inr topic ↦ elim (Bool-cases (includes perm permission_values)) [
      | inl fixed ↦ rw fixed
      | inr other ↦ rw other ((topic_perm_re_iff (codes perm)).1 topic)
    ]
  ],
)
