-- ===== src/Image/Webp/Sound.antt =====
-- `scanWebp` accepts chains of chunks only, and reports their kinds.
use legends_chat.Common.{
  ℕ, ◌+◌, ◌≤◌, ◌≡◌, refl, sym, ap, ◌∙◌, inl, inr, false, ◌||◌, some, List, [], ◌∷◌, length, take,
  drop, ltb, ◌==◌, nat_eq, list_eq, list_beq_iff, arith, Bool-cases, Option-cases, subst,
  length-take, drop-all,
}
use legends_chat.Image.Bytes.{Buffer, codes, subarray, ascii, read_uint32_le}
use legends_chat.Image.Scan.{
  MetadataScan, malformed, result, Step, reject, leave, advance, Exit, rejected, broke, ended, walk,
  walk_rule, max_segments, add_kind,
}
use legends_chat.Image.Webp.{
  webp_kind, webp_next, WebpState, webp_chunk, webp_step, webp_finish, webp_exit, webp_start,
  webp_body, scan_webp,
}
use legends_chat.Image.Webp.Chunks.{IsChunk, Chunks, nil, cons, collect, IsChunk-at}

finish_sound :
    (end : ℕ) (t : WebpState) (r : MetadataScan)
    → webp_finish end t ≡ r
    → r.malformed ≡ false
    → (t.at ≡ end) × (r ≡ result t.kinds)
unfolding webp_finish malformed
finish_sound end t r e fine = elim (Bool-cases (t.at == end)) [
  | inl here ↦ (ground arith, sym (rw here at e))
  | inr away ↦ absurd (ground arith)
]

module _ (buf : Buffer) (end : ℕ) (whole : end ≤ length buf) where
  -- What a round of the loop establishes.
  abbrev Explains : WebpState → Step WebpState → Type 0
  Explains s (reject _) = Unit
  Explains s (leave s') = (s' ≡ s) × (end ≤ s.at)
  Explains s (advance s') =
      (fourcc : List ℕ) × IsChunk (drop s.at (take end buf)) fourcc (drop s'.at (take end buf))
      × (s'.kinds ≡ add_kind (webp_kind fourcc) s.kinds)

  webp_step-Explains :
      (s : WebpState) (st : Step WebpState) → webp_step buf end s ≡ some st → Explains s st
  unfolding webp_step webp_chunk
  webp_step-Explains s st e = elim (Bool-cases (ltb s.at end)) [
    | inr out ↦
        subst (Explains s) (let same : leave s ≡ st = ground arith in same) (refl, ground arith)
    | inl more ↦ elim (Bool-cases (ltb end (s.at + 8))) [
      | inl short ↦
          subst (Explains s) (let same : reject "webp-truncated" ≡ st = ground arith in same) tt
      | inr long ↦ elim (Option-cases (read_uint32_le buf (s.at + 4))) [
        | inl unread ↦ absurd (ground arith)
        | inr (len, read) ↦
            elim (Bool-cases (ltb end (webp_next s.at len) || ltb (webp_next s.at len) s.at)) [
              | inl past ↦
                  subst (Explains s)
                    (let same : reject "webp-chunk-length" ≡ st = ground arith in same) tt
              | inr fits ↦
                  let name = ascii (subarray buf s.at (s.at + 4)) in
                  let next : WebpState = record {
                    at = webp_next s.at len;
                    kinds = add_kind (webp_kind name) s.kinds;
                  } in
                  subst (Explains s) (let same : advance next ≡ st = ground arith in same)
                    (name, IsChunk-at buf end s.at len whole (ground arith) read, refl)
            ]
      ]
    ]
  ]

  -- The loop has read a chain up to its last position.
  abbrev Good : WebpState → Exit WebpState → Type 0
  Good s (rejected _) = Unit
  Good s (ended s') =
      s'.at ≡ end
      → (names : List (List ℕ)) × Chunks (drop s.at (take end buf)) names
        × (s'.kinds ≡ collect s.kinds names)
  Good s (broke s') =
      s'.at ≡ end
      → (names : List (List ℕ)) × Chunks (drop s.at (take end buf)) names
        × (s'.kinds ≡ collect s.kinds names)

  at_end :
      (s : WebpState)
      → s.at ≡ end
      → (names : List (List ℕ)) × Chunks (drop s.at (take end buf)) names
        × (s.kinds ≡ collect s.kinds names)
  unfolding collect
  at_end s here =
      ([], nil (drop-all s.at (take end buf) (omega (arith, length-take end buf))), refl)

  Good-on : (s s' : WebpState) (x : Exit WebpState) → Explains s (advance s') → Good s' x → Good s x
  unfolding collect
  Good-on s s' (rejected _) known good = tt
  Good-on s s' (ended t) (name, chunk, same) good = λ here.
      let (names, chain, kinds) = good here in
      (name ∷ names, cons chunk chain, kinds ∙ ap (λ k. collect k names) same)
  Good-on s s' (broke t) (name, chunk, same) good = λ here.
      let (names, chain, kinds) = good here in
      (name ∷ names, cons chunk chain, kinds ∙ ap (λ k. collect k names) same)

  walk-Good :
      (n : ℕ) (s : WebpState) (x : Exit WebpState)
      → walk n (webp_step buf end) s ≡ some x
      → Good s x
  walk-Good =
      walk_rule Good (webp_step buf end) (λ s. at_end s) (λ s reason e. tt)
        (λ s s' e.
          let (same, _) = webp_step-Explains s (leave s') e in
          λ here. rw same (at_end s (ap (λ t. t.at) (sym same) ∙ here)))
        (λ s s' x e good. Good-on s s' x (webp_step-Explains s (advance s') e) good)

  exit_sound :
      (s : WebpState) (x : Exit WebpState) (r : MetadataScan)
      → Good s x
      → webp_exit end x ≡ r
      → r.malformed ≡ false
      → (names : List (List ℕ)) × Chunks (drop s.at (take end buf)) names
        × (r ≡ result (collect s.kinds names))
  unfolding webp_exit malformed
  exit_sound s (rejected reason) r good e fine = absurd (ground arith)
  exit_sound s (ended t) r good e fine =
      let (here, report) = finish_sound end t r e fine in
      let (names, chain, kinds) = good here in (names, chain, report ∙ ap result kinds)
  exit_sound s (broke t) r good e fine =
      let (here, report) = finish_sound end t r e fine in
      let (names, chain, kinds) = good here in (names, chain, report ∙ ap result kinds)

-- A WebP: a RIFF header whose size stays inside the buffer, and chunks that fill it exactly.
pub record IsWebp (buf : Buffer) (names : List (List ℕ)) : Type 0 where
  pub riff : ascii (take 4 buf) ≡ codes "RIFF"
  pub webp : ascii (take 4 (drop 8 buf)) ≡ codes "WEBP"
  pub riff_size : ℕ
  pub sized : read_uint32_le buf 4 ≡ some riff_size
  pub inside : 8 + riff_size ≤ length buf
  pub chain : Chunks (drop 12 (take (8 + riff_size) buf)) names

webp_body_sound :
    (buf : Buffer) (riff_size : ℕ) (r : MetadataScan)
    → webp_body buf riff_size ≡ some r
    → r.malformed ≡ false
    → (8 + riff_size ≤ length buf)
      × ((names : List (List ℕ)) × Chunks (drop 12 (take (8 + riff_size) buf)) names
          × (r ≡ result (collect [] names)))
unfolding webp_body malformed
webp_body_sound buf riff_size r e fine =
    elim (Bool-cases (ltb riff_size 4 || ltb (length buf) (8 + riff_size))) [
      | inl bad ↦ absurd (ground arith)
      | inr fits ↦
          let inside : 8 + riff_size ≤ length buf = ground arith in
          elim (Option-cases (walk max_segments (webp_step buf (8 + riff_size)) webp_start)) [
            | inl thrown ↦ absurd (ground arith)
            | inr (x, walked) ↦ (
              inside,
              exit_sound buf (8 + riff_size) inside webp_start x r
                  (walk-Good buf (8 + riff_size) inside max_segments webp_start x walked)
                  (ground arith) fine,
            )
          ]
    ]

-- A report of `scanWebp` that is not "malformed" describes a WebP, and lists the kinds of
-- metadata of its chunks.
pub scan_webp_sound :
    (buf : Buffer) (r : MetadataScan)
    → scan_webp buf ≡ some r
    → r.malformed ≡ false
    → (names : List (List ℕ)) × IsWebp buf names × (r ≡ result (collect [] names))
unfolding scan_webp malformed
scan_webp_sound buf r e fine = elim (Bool-cases (ltb (length buf) 12)) [
  | inl short ↦ absurd (ground arith)
  | inr long ↦ elim (Bool-cases (ascii (subarray buf 0 4) == codes "RIFF")) [
    | inr unsigned ↦ absurd (ground arith)
    | inl riff ↦ elim (Bool-cases (ascii (subarray buf 8 12) == codes "WEBP")) [
      | inr other ↦ absurd (ground arith)
      | inl webp ↦ elim (Option-cases (read_uint32_le buf 4)) [
        | inl unread ↦ absurd (ground arith)
        | inr (riff_size, sized) ↦
            let (inside, (names, chain, report)) =
              webp_body_sound buf riff_size r (ground arith) fine in
            (
              names,
              record {
                riff = (list_beq_iff _ (codes "RIFF")).0 riff;
                webp = (list_beq_iff _ (codes "WEBP")).0 webp;
                riff_size = riff_size;
                sized = sized;
                inside = inside;
                chain = chain;
              },
              report,
            )
      ]
    ]
  ]
]
