-- ===== src/Image/Gif/Rounds.antt =====
-- What a round of `scanGif` establishes about the block at its position.
use legends_chat.Common.{
  ℕ, suc, ◌+◌, ◌-◌, ◌≤◌, String, ◌≡◌, refl, ap, ◌∙◌, inl, inr, false, Option, some, List, [], ◌∷◌,
  ◌++◌, length, take, drop, get_elem?, ltb, leb, ◌==◌, nat_eq, arith, Bool-cases, Option-cases,
  subst, drop-cons, get_elem?_total,
}
use legends_chat.Image.Bytes.{Buffer, subarray, ascii}
use legends_chat.Image.Scan.{Step, reject, leave, advance, add_kind}
use legends_chat.Image.Gif.{
  skip_sub_blocks, app_kind, label_kind, table_size, GifState, past_sub_blocks, gif_application,
  gif_labelled, gif_extension, gif_image,
}
use legends_chat.Image.Gif.Blocks.{
  SubBlocks, slide, stretch, stretch_length, skip_sub_blocks_sound, extension_kind, Blocks,
  extension, image, collect,
}

abbrev pub Explains : Buffer → GifState → Step GifState → Type 0
Explains buf s (reject _) = Unit
Explains buf s (leave s') = (rest : Buffer) × (drop s.at buf ≡ 0x3b ∷ rest) × (s'.kinds ≡ s.kinds)
Explains buf s (advance s') =
    ((ks : List (Option String))
      → Blocks (drop s'.at buf) ks
      → (ks' : List (Option String)) × Blocks (drop s.at buf) ks'
        × (collect s.kinds ks' ≡ collect s'.kinds ks))

past-Explains :
    (buf : Buffer) (s : GifState) (p : ℕ) (kinds : List String)
    → ((q : ℕ)
        → SubBlocks (drop p buf) (drop q buf)
        → Explains buf s (advance (record { at = q; kinds = kinds })))
    → Explains buf s (past_sub_blocks buf p kinds)
unfolding past_sub_blocks
past-Explains buf s p kinds known = elim (Option-cases (skip_sub_blocks (suc (length buf)) buf p)) [
  | inl stuck ↦ rw (stuck, past_sub_blocks) tt
  | inr (q, walked) ↦
      rw (walked, past_sub_blocks)
        (known q (skip_sub_blocks_sound (suc (length buf)) buf p q walked))
]

-- A byte of the buffer at `i`, and what is behind it.
pub byte_at :
    (buf : Buffer) (i : ℕ) {x : ℕ} → get_elem? buf i ≡ some x → drop i buf ≡ x ∷ drop (i + 1) buf
byte_at buf i {x} e =
    drop-cons i buf e ∙ ap (λ l. x ∷ l) (slide buf {i = suc i} {j = i + 1} (omega arith))

-- The bytes of an extension whose label is read.
label_at :
    (buf : Buffer) (i label : ℕ)
    → get_elem? buf i ≡ some 0x21
    → get_elem? buf (i + 1) ≡ some label
    → drop i buf ≡ 0x21 ∷ label ∷ drop (i + 2) buf
label_at buf i label intro here =
    byte_at buf i intro
    ∙ ap (λ l. 0x21 ∷ l) (byte_at buf (i + 1) here ∙ ap (λ l. label ∷ l) (slide buf (omega arith)))

module _ (buf : Buffer) (s : GifState) where
  plain_kind :
      (label : ℕ) (subs : Buffer)
      → (label == 0xff) ≡ false
      → extension_kind label subs ≡ label_kind label
  unfolding extension_kind
  plain_kind label [] h = refl
  plain_kind label (x ∷ r) h = rw h

  app_kind_at :
      (id_len : ℕ)
      → get_elem? buf (s.at + 2) ≡ some id_len
      → extension_kind 0xff (drop (s.at + 2) buf)
        ≡ app_kind (ascii (subarray buf (s.at + 2 + 1) (s.at + 2 + 1 + id_len)))
  unfolding extension_kind
  app_kind_at id_len read = rw (byte_at buf (s.at + 2) read) (
      ap (λ n. app_kind (ascii (take n (drop (s.at + 2 + 1) buf))))
        (let e : id_len ≡ s.at + 2 + 1 + id_len - (s.at + 2 + 1) = omega arith in e))

  gif_application-Explains :
      (st : Step GifState)
      → get_elem? buf s.at ≡ some 0x21
      → get_elem? buf (s.at + 1) ≡ some 0xff
      → gif_application buf s (s.at + 2) ≡ some st
      → Explains buf s st
  unfolding gif_application collect
  gif_application-Explains st intro here e = elim (Bool-cases (leb (length buf) (s.at + 2))) [
    | inl out ↦
        subst (Explains buf s) (let same : reject "gif-truncated" ≡ st = ground arith in same) tt
    | inr inside ↦ elim (Option-cases (get_elem? buf (s.at + 2))) [
      | inl unread ↦ absurd (ground arith)
      | inr (id_len, read) ↦ elim (Bool-cases (ltb (length buf) (s.at + 2 + 1 + id_len))) [
        | inl long ↦
            subst (Explains buf s) (let same : reject "gif-truncated" ≡ st = ground arith in same)
              tt
        | inr fits ↦
            let id = ascii (subarray buf (s.at + 2 + 1) (s.at + 2 + 1 + id_len)) in
            subst (Explains buf s)
              (let same : past_sub_blocks buf (s.at + 2) (add_kind (app_kind id) s.kinds) ≡ st =
                  ground arith in
                same)
              (past-Explains buf s (s.at + 2) (add_kind (app_kind id) s.kinds) (λ q subs ks chain. (
                _,
                extension 0xff (drop (s.at + 2) buf) (label_at buf s.at 0xff intro here) subs chain,
                rw (app_kind_at id_len read),
              )))
      ]
    ]
  ]

  gif_labelled-Explains :
      (label : ℕ) (st : Step GifState)
      → get_elem? buf s.at ≡ some 0x21
      → get_elem? buf (s.at + 1) ≡ some label
      → gif_labelled buf s label ≡ some st
      → Explains buf s st
  unfolding gif_labelled collect
  gif_labelled-Explains label st intro here e = elim (Bool-cases (label == 0xff)) [
    | inl app ↦
        gif_application-Explains st intro (rw (let e : label ≡ 0xff = ground arith in e) at here)
          (ground arith)
    | inr plain ↦
        subst (Explains buf s)
          (let same : past_sub_blocks buf (s.at + 2) (add_kind (label_kind label) s.kinds) ≡ st =
              ground arith in
            same)
          (past-Explains buf s (s.at + 2) (add_kind (label_kind label) s.kinds) (λ q subs ks chain.
            (
              _,
              extension label (drop (s.at + 2) buf) (label_at buf s.at label intro here) subs chain,
              rw (plain_kind label (drop (s.at + 2) buf) plain),
            )))
  ]

  pub gif_extension-Explains :
      (st : Step GifState)
      → get_elem? buf s.at ≡ some 0x21
      → gif_extension buf s ≡ some st
      → Explains buf s st
  unfolding gif_extension
  gif_extension-Explains st intro e = elim (Bool-cases (ltb (length buf) (s.at + 2))) [
    | inl short ↦
        subst (Explains buf s) (let same : reject "gif-truncated" ≡ st = ground arith in same) tt
    | inr long ↦ elim (Option-cases (get_elem? buf (s.at + 1))) [
      | inl unread ↦ absurd (ground arith)
      | inr (label, here) ↦ gif_labelled-Explains label st intro here (ground arith)
    ]
  ]

  image_at :
      (lpacked : ℕ)
      → get_elem? buf s.at ≡ some 0x2c
      → get_elem? buf (s.at + 9) ≡ some lpacked
      → s.at + 10 + table_size lpacked + 1 ≤ length buf
      → (min_code : ℕ) × (drop s.at buf
          ≡ 0x2c
            ∷ (take 8 (drop (s.at + 1) buf)
                ++ (lpacked
                    ∷ (take (table_size lpacked) (drop (s.at + 10) buf)
                        ++ (min_code ∷ drop (s.at + 10 + table_size lpacked + 1) buf)))))
  image_at lpacked intro here fits =
      let table = table_size lpacked in
      let (min_code, code) = get_elem?_total buf (s.at + 10 + table) (omega arith) in
      let behind : drop (s.at + 10) buf
          ≡ take table (drop (s.at + 10) buf) ++ (min_code ∷ drop (s.at + 10 + table + 1) buf) =
        stretch buf (s.at + 10) table
        ∙ ap (λ l. take table (drop (s.at + 10) buf) ++ l) (byte_at buf (s.at + 10 + table) code) in
      let packed : drop (s.at + 1 + 8) buf
          ≡ lpacked
            ∷ (take table (drop (s.at + 10) buf) ++ (min_code ∷ drop (s.at + 10 + table + 1) buf)) =
        slide buf (omega arith)
        ∙ byte_at buf (s.at + 9) here
        ∙ ap (λ l. lpacked ∷ l) (slide buf (omega arith) ∙ behind) in
      (
        min_code,
        byte_at buf s.at intro
            ∙ ap (λ l. 0x2c ∷ l)
                (stretch buf (s.at + 1) 8 ∙ ap (λ l. take 8 (drop (s.at + 1) buf) ++ l) packed),
      )

  pub gif_image-Explains :
      (st : Step GifState)
      → get_elem? buf s.at ≡ some 0x2c
      → gif_image buf s ≡ some st
      → Explains buf s st
  unfolding gif_image
  gif_image-Explains st intro e = elim (Bool-cases (ltb (length buf) (s.at + 10))) [
    | inl short ↦
        subst (Explains buf s) (let same : reject "gif-truncated" ≡ st = ground arith in same) tt
    | inr long ↦ elim (Option-cases (get_elem? buf (s.at + 9))) [
      | inl unread ↦ absurd (ground arith)
      | inr (lpacked, here) ↦
          elim (Bool-cases (ltb (length buf) (s.at + 10 + table_size lpacked + 1))) [
            | inl past ↦
                subst (Explains buf s)
                  (let same : reject "gif-truncated" ≡ st = ground arith in same) tt
            | inr fits ↦
                let (min_code, split) = image_at lpacked intro here (ground arith) in
                subst (Explains buf s)
                  (let same : past_sub_blocks buf (s.at + 10 + table_size lpacked + 1) s.kinds
                        ≡ st =
                      ground arith in
                    same)
                  (past-Explains buf s (s.at + 10 + table_size lpacked + 1) s.kinds
                    (λ q subs ks chain. (
                      ks,
                      image _ lpacked _ min_code _ split
                          (stretch_length buf (s.at + 1) 8 (ground arith))
                          (stretch_length buf (s.at + 10) (table_size lpacked) (ground arith)) subs
                          chain,
                      refl,
                    )))
          ]
    ]
  ]
