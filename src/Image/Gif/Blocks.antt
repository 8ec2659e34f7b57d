-- ===== src/Image/Gif/Blocks.antt =====
-- A GIF as a chain of blocks, and how the walker's reads see it.
use legends_chat.Common.{
  ℕ, zero, suc, ◌+◌, ◌≤◌, ◌<◌, String, ◌≡◌, sym, ap, ◌∙◌, inl, inr, false, Option, some, List, [],
  ◌∷◌, ◌++◌, length, take, drop, get_elem?, ltb, ◌==◌, nat_eq, arith, Bool-cases, Option-cases,
  take-append-drop, drop-drop, drop-cons, drop-append, length-append, length-take, length-drop,
  if◌then◌else◌,
}
use legends_chat.Image.Bytes.{Buffer, ascii}
use legends_chat.Image.Scan.{add_kind}
use legends_chat.Image.Gif.{skip_sub_blocks, app_kind, label_kind, table_size}

-- Length-prefixed sub-blocks up to the empty one, and the bytes behind it.
pub data SubBlocks : Buffer → Buffer → Type 0 where
  done : {bytes rest : Buffer} → bytes ≡ 0 ∷ rest → SubBlocks bytes rest
  more :
      {bytes rest : Buffer} (size : ℕ) (body next : Buffer)
      → bytes ≡ size ∷ (body ++ next)
      → length body ≡ size
      → 0 < size
      → SubBlocks next rest
      → SubBlocks bytes rest

pub slide : (buf : Buffer) {i j : ℕ} → i ≡ j → drop i buf ≡ drop j buf
slide buf e = ap (λ k. drop k buf) e

-- A stretch of `n` bytes.
pub stretch : (buf : Buffer) (i n : ℕ) → drop i buf ≡ take n (drop i buf) ++ drop (i + n) buf
stretch buf i n =
    sym (take-append-drop n (drop i buf)) ∙ ap (λ l. take n (drop i buf) ++ l) (drop-drop n i buf)

pub stretch_length :
    (buf : Buffer) (i n : ℕ) → i + n ≤ length buf → length (take n (drop i buf)) ≡ n
stretch_length buf i n fits = omega (arith, length-take n (drop i buf), length-drop i buf)

pub skip_sub_blocks_sound :
    (fuel : ℕ) (buf : Buffer) (p q : ℕ)
    → skip_sub_blocks fuel buf p ≡ some q
    → SubBlocks (drop p buf) (drop q buf)
unfolding skip_sub_blocks
skip_sub_blocks_sound zero buf p q e = cc
skip_sub_blocks_sound (suc fuel) buf p q e = elim (Option-cases (get_elem? buf p)) [
  | inl out ↦ cc (rw (out, skip_sub_blocks) at e)
  | inr (zero, here) ↦
      let same : p + 1 ≡ q = ground arith in
      done (drop-cons p buf here ∙ ap (λ l. 0 ∷ l) (slide buf {i = suc p} (omega (arith, same))))
  | inr (suc n, here) ↦ elim (Bool-cases (ltb (length buf) (p + 1 + suc n))) [
    | inl long ↦ absurd (ground arith)
    | inr fits ↦
        more (suc n) (take (suc n) (drop (p + 1) buf)) (drop (p + 1 + suc n) buf)
          (drop-cons p buf here
            ∙ ap (λ l. suc n ∷ l)
                (slide buf {i = suc p} (omega arith) ∙ stretch buf (p + 1) (suc n)))
          (stretch_length buf (p + 1) (suc n) (ground arith)) (omega arith)
          (skip_sub_blocks_sound fuel buf (p + 1 + suc n) q (ground arith))
  ]
]

head_of :
    (buf : Buffer) (p : ℕ) {x : ℕ} {r : Buffer} → drop p buf ≡ x ∷ r → get_elem? buf p ≡ some x
head_of [] zero e = cc
head_of [] (suc p) e = cc
head_of (y ∷ buf) zero e = ground arith
head_of (y ∷ buf) (suc p) e = head_of buf p e

drop_past : (n : ℕ) (xs ys : Buffer) → length xs ≡ n → drop n (xs ++ ys) ≡ ys
drop_past n xs ys h = rw (← h) (drop-append xs ys)

-- With fuel for every byte that is left, the walk over sub-blocks ends behind the empty one.
pub skip_sub_blocks_complete :
    (fuel : ℕ) (buf : Buffer) (p : ℕ) {bytes rest : Buffer}
    → SubBlocks bytes rest
    → bytes ≡ drop p buf
    → length bytes < fuel
    → (q : ℕ) × (skip_sub_blocks fuel buf p ≡ some q) × (drop q buf ≡ rest)
unfolding skip_sub_blocks
skip_sub_blocks_complete zero buf p (done e) here room = absurd (omega arith)
skip_sub_blocks_complete zero buf p (more size body next e counted positive chain) here room =
    absurd (omega arith)
skip_sub_blocks_complete (suc fuel) buf p (done e) here room =
    let split = sym here ∙ e in
    (p + 1, rw (head_of buf p split, skip_sub_blocks), sym (drop-drop 1 p buf) ∙ ap (drop 1) split)
skip_sub_blocks_complete (suc fuel) buf p (more zero body next e counted positive chain) here room =
    absurd (omega arith)
skip_sub_blocks_complete (suc fuel) buf p (more (suc n) body next e counted positive chain) here
      room =
    let split = sym here ∙ e in
    let size = ap length e ∙ ap suc (length-append body next) in
    let behind : next ≡ drop (p + 1 + suc n) buf =
      sym (drop_past (suc n) body next counted)
      ∙ ap (drop (suc n)) (sym (ap (drop 1) split) ∙ drop-drop 1 p buf)
      ∙ drop-drop (suc n) (p + 1) buf in
    let (q, walked, ends) =
      skip_sub_blocks_complete fuel buf (p + 1 + suc n) chain behind (omega arith) in
    let fits : ltb (length buf) (p + 1 + suc n) ≡ false =
      ground (arith, ap length here, length-drop p buf) in
    (q, rw (head_of buf p split, skip_sub_blocks) (rw fits walked), ends)

-- The kind of metadata of an extension, from its label and what follows it.
unfoldable pub extension_kind : ℕ → Buffer → Option String
extension_kind label [] = label_kind label
extension_kind label (id_len ∷ r) =
    if label == 0xff then app_kind (ascii (take id_len r)) else label_kind label

-- The blocks up to the trailer (0x3b), and the kinds of the extensions among them.
pub data Blocks : Buffer → List (Option String) → Type 0 where
  trailer : {bytes rest : Buffer} → bytes ≡ 0x3b ∷ rest → Blocks bytes []
  extension :
      {bytes rest : Buffer} {kinds : List (Option String)} (label : ℕ) (subs : Buffer)
      → bytes ≡ 0x21 ∷ label ∷ subs
      → SubBlocks subs rest
      → Blocks rest kinds
      → Blocks bytes (extension_kind label subs ∷ kinds)
  image :
      {bytes rest : Buffer} {kinds : List (Option String)} (frame : Buffer) (lpacked : ℕ)
      (table : Buffer) (min_code : ℕ) (subs : Buffer)
      → bytes ≡ 0x2c ∷ (frame ++ (lpacked ∷ (table ++ (min_code ∷ subs))))
      → length frame ≡ 8
      → length table ≡ table_size lpacked
      → SubBlocks subs rest
      → Blocks rest kinds
      → Blocks bytes kinds

unfoldable pub collect : List String → List (Option String) → List String
collect kinds [] = kinds
collect kinds (k ∷ ks) = collect (add_kind k kinds) ks
