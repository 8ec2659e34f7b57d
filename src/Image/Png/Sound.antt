-- ===== src/Image/Png/Sound.antt =====
-- `scanPng` accepts chains of chunks only.
use mathlib.Core.Option
use legends_chat.Common.{
  ℕ, zero, suc, ◌+◌, ◌≤◌, ◌≡◌, ◌≢◌, refl, ap, ◌∙◌, inl, inr, true, false, not, ◌&&◌, ◌||◌, Option,
  none, some, List, [], ◌∷◌, length, take, drop, ltb, ◌==◌, nat_eq, list_eq, list_beq_iff, arith,
  Bool-cases, Option-cases, subst,
}
use legends_chat.Image.Bytes.{Buffer, codes, subarray, ascii, read_uint32_be}
use legends_chat.Image.Png.Chunks.{
  IsChunk, Chunks, last, more, IsChunk-at, collect, IsHeaded, IsPng,
}
use legends_chat.Image.Scan.{
  MetadataScan, malformed, result, Step, reject, leave, advance, walk, walk_throws, walk_rejected,
  walk_broke, walk_on, max_segments, add_kind,
}
use legends_chat.Image.Png.{
  png_sig, is_chunk_type, png_kind, PngState, png_chunk, png_step, png_exit, png_finish, png_start,
  scan_png,
}

-- What a round of the loop establishes about the chunk at its position.
abbrev Explains : Buffer → PngState → Step PngState → Type 0
Explains buf s (reject _) = Unit
Explains buf s (leave s') =
    (rest : Buffer) × IsChunk (drop s.at buf) (codes "IEND") rest
    × (s'.kinds ≡ add_kind (png_kind (codes "IEND")) s.kinds)
    × (s.segs ≢ 0)
    × (s'.saw_ihdr ≡ s.saw_ihdr)
Explains buf s (advance s') =
    (type : List ℕ) × IsChunk (drop s.at buf) type (drop s'.at buf)
    × (type ≢ codes "IEND")
    × (s'.kinds ≡ add_kind (png_kind type) s.kinds)
    × (s.segs ≡ 0 → type ≡ codes "IHDR")
    × (s'.segs ≡ s.segs + 1)

png_chunk-Explains :
    (buf : Buffer) (s : PngState) (len : ℕ) (type : List ℕ)
    → (is_chunk_type type ≡ true
        → s.at + 8 + len + 4 ≤ length buf
        → IsChunk (drop s.at buf) type (drop (s.at + 8 + len + 4) buf))
    → Explains buf s (png_chunk buf s len type)
unfolding png_chunk
png_chunk-Explains buf s len type chunk = elim (Bool-cases (is_chunk_type type)) [
  | inr bad ↦ rw bad tt
  | inl letters ↦
      rw letters
        (elim (Bool-cases
          (ltb (length buf) (s.at + 8 + len + 4) || ltb (s.at + 8 + len + 4) s.at)) [
            | inl long ↦ rw long tt
            | inr fits ↦ rw fits (elim (Bool-cases (s.segs == 0 && not (type == codes "IHDR"))) [
              | inl headless ↦ rw headless tt
              | inr headed ↦ rw headed (elim (Bool-cases (type == codes "IEND")) [
                | inl final ↦
                    let iend = (list_beq_iff type (codes "IEND")).0 final in
                    let here = chunk letters (ground arith) in
                    rw final (
                      drop (s.at + 8 + len + 4) buf,
                      rw iend at here,
                      rw iend,
                      ground arith,
                      ground arith,
                    )
                | inr other ↦
                    let here = chunk letters (ground arith) in
                    rw other (
                      type,
                      here,
                      ground (arith, list_beq_iff type (codes "IEND")),
                      refl,
                      ground (arith, list_beq_iff type (codes "IHDR")),
                      refl,
                    )
              ])
            ])
          ])
]

png_step-Explains :
    (buf : Buffer) (s : PngState) (st : Step PngState)
    → png_step buf s ≡ some st
    → Explains buf s st
unfolding png_step
png_step-Explains buf s st e = elim (Bool-cases (ltb (length buf) (s.at + 8))) [
  | inl short ↦
      subst (Explains buf s) (let same : reject "png-truncated" ≡ st = ground arith in same) tt
  | inr fits ↦ elim (Option-cases (read_uint32_be buf s.at)) [
    | inl unread ↦ cc (rw (fits, unread) at e)
    | inr (len, counted) ↦
        let type = ascii (subarray buf (s.at + 4) (s.at + 8)) in
        let known =
          png_chunk-Explains buf s len type
            (λ letters fit. IsChunk-at buf s.at len fit counted letters) in
        subst (Explains buf s) (let same : png_chunk buf s len type ≡ st = ground arith in same)
          known
  ]
]

abbrev Sound : ℕ → Buffer → PngState → Type 0
Sound n buf s =
    (r : MetadataScan)
    → Option.map png_exit (walk n (png_step buf) s) ≡ some r
    → r.malformed ≡ false
    → (types : List (List ℕ)) × Chunks (drop s.at buf) types
      × (r ≡ result (collect s.kinds types))
      × (s.segs ≡ 0 → IsHeaded types)

round-Sound :
    (n : ℕ) (buf : Buffer) (s : PngState) (o : Option (Step PngState))
    → png_step buf s ≡ o
    → ((s' : PngState) → Sound n buf s')
    → Sound (suc n) buf s
unfolding png_exit png_finish malformed collect
round-Sound n buf s none step later r e fine = cc (walk_throws n (png_step buf) s step)
round-Sound n buf s (some (reject reason)) step later r e fine =
    absurd (ground (arith, walk_rejected n (png_step buf) s step))
round-Sound n buf s (some (leave s')) step later r e fine =
    let (rest, chunk, kinds, unheaded, same) = png_step-Explains buf s (leave s') step in
    (
      codes "IEND" ∷ [],
      last chunk refl,
      ground (arith, walk_broke n (png_step buf) s step),
      λ first. absurd (unheaded first),
    )
round-Sound n buf s (some (advance s')) step later r e fine =
    let (type, chunk, other, kinds, headed, counted) = png_step-Explains buf s (advance s') step in
    let (types, chain, report, _) = later s' r (rw (walk_on n (png_step buf) s step) at e) fine in
    (
      type ∷ types,
      more chunk other chain,
      report ∙ ap (λ k. result (collect k types)) kinds,
      headed,
    )

walk-Sound : (n : ℕ) (buf : Buffer) (s : PngState) → Sound n buf s
unfolding walk png_exit png_finish malformed
walk-Sound zero buf s r e fine = absurd (ground arith)
walk-Sound (suc n) buf s r e fine =
    round-Sound n buf s (png_step buf s) refl (walk-Sound n buf) r e fine

-- A report of `scanPng` that is not "malformed" describes a PNG file, and lists the kinds of metadata of its chunks.
pub scan_png_sound :
    (buf : Buffer) (r : MetadataScan)
    → scan_png buf ≡ some r
    → r.malformed ≡ false
    → (types : List (List ℕ)) × IsPng buf types × (r ≡ result (collect [] types))
unfolding scan_png malformed
scan_png_sound buf r e fine =
    elim (Bool-cases (ltb (length buf) 8 || not (subarray buf 0 8 == png_sig))) [
      | inl unsigned ↦ absurd (ground arith)
      | inr signed ↦
          let (types, chain, report, headed) =
            walk-Sound max_segments buf png_start r (rw (signed) at e) fine in
          (
            types,
            record {
              signed = ground (arith, list_beq_iff (take 8 buf) png_sig);
              chain = chain;
              headed = headed refl;
            },
            report,
          )
    ]
