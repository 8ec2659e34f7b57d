-- ===== src/Image/Png/Complete.antt =====
-- `scanPng` accepts every chain of chunks within its bound, and reports its kinds.
use mathlib.Core.Option
use legends_chat.Common.{
  ℕ, zero, suc, ◌+◌, ◌≤◌, ◌≡◌, ◌≢◌, refl, sym, ap, ◌∙◌, true, false, not, ◌||◌, some, List, [],
  length, take, drop, ltb, ◌==◌, nat_eq, list_eq, subst, list_beq_iff, arith, length-drop,
  length-take,
}
use legends_chat.Image.Bytes.{Buffer, codes, subarray, ascii}
use legends_chat.Image.Png.Chunks.{
  IsChunk, Chunks, last, more, name_at, rest_at, chunk_size, chunk_type, chunk_rest, chunk_length,
  collect, IsHeaded, IsPng,
}
use legends_chat.Image.Scan.{
  result, leave, advance, walk, walk_broke, walk_on, max_segments, add_kind,
}
use legends_chat.Image.Png.{
  png_sig, png_kind, PngState, png_chunk, png_step, png_exit, png_finish, png_start, scan_png,
}

-- The state after a chunk of this type whose body has `len` bytes.
abbrev after : PngState → List ℕ → ℕ → PngState
after s type len = record {
  at = s.at + 8 + len + 4;
  segs = s.segs + 1;
  kinds = add_kind (png_kind type) s.kinds;
  saw_ihdr = s.saw_ihdr || s.segs == 0;
}

module _ (buf : Buffer) (s : PngState) {type rest : List ℕ}
    (c : IsChunk (drop s.at buf) type rest) where
  chunk_fits : s.at + 8 + length c.body + 4 ≤ length buf
  chunk_fits = omega (arith, chunk_length c, length-drop s.at buf)

  step_reads : png_step buf s ≡ some (png_chunk buf s (length c.body) type)
  unfolding png_step
  step_reads = ground (arith, chunk_fits, chunk_size c, ap ascii (name_at buf s.at) ∙ chunk_type c)

  chunk_ends : drop (s.at + 8 + length c.body + 4) buf ≡ rest
  chunk_ends = sym (rest_at buf s.at (length c.body)) ∙ chunk_rest c

  step_on :
      type ≢ codes "IEND"
      → (s.segs ≡ 0 → type ≡ codes "IHDR")
      → png_step buf s ≡ some (advance (after s type (length c.body)))
  unfolding png_chunk
  step_on other headed =
      step_reads
      ∙ ground (
        arith,
        chunk_fits,
        c.letters,
        list_beq_iff type (codes "IHDR"),
        list_beq_iff type (codes "IEND"),
      )

  step_last :
      type ≡ codes "IEND"
      → s.segs ≢ 0
      → png_step buf s
        ≡ some (
            leave (record s {
              kinds = add_kind (png_kind type) s.kinds;
              saw_ihdr = s.saw_ihdr || s.segs == 0;
            }))
  unfolding png_chunk
  step_last final unfirst =
      step_reads
      ∙ ground (
        arith,
        chunk_fits,
        c.letters,
        list_beq_iff type (codes "IHDR"),
        list_beq_iff type (codes "IEND"),
      )

walk_complete :
    (n : ℕ) (buf : Buffer) (s : PngState) {bytes : Buffer} {types : List (List ℕ)}
    → Chunks bytes types
    → bytes ≡ drop s.at buf
    → length types ≤ n
    → (s.segs ≡ 0 → IsHeaded types)
    → (s.saw_ihdr || s.segs == 0) ≡ true
    → Option.map png_exit (walk n (png_step buf) s) ≡ some (result (collect s.kinds types))
unfolding png_exit png_finish collect
walk_complete zero buf s (last c final) here room headed seen = absurd (omega arith)
walk_complete zero buf s (more c other chain) here room headed seen = absurd (omega arith)
walk_complete (suc n) buf s (last {type = type} {rest = rest} c final) here room headed seen =
    let c' = subst (λ b. IsChunk b type rest) here c in
    let unfirst : s.segs ≢ 0 = λ first. ground (arith, headed first, final) in
    rw (walk_broke n (png_step buf) s (step_last buf s c' final unfirst)) (rw seen)
walk_complete (suc n) buf s (more {type = type} {rest = rest} c other chain) here room headed seen =
    let c' = subst (λ b. IsChunk b type rest) here c in
    rw (walk_on n (png_step buf) s (step_on buf s c' other headed)) (
      walk_complete n buf (after s type (length c'.body)) chain (sym (chunk_ends buf s c'))
        (omega arith) (λ first. absurd (omega (arith, first))) (rw seen))

sign_test :
    (buf : Buffer)
    → 8 ≤ length buf
    → take 8 buf ≡ png_sig
    → (ltb (length buf) 8 || not (subarray buf 0 8 == png_sig)) ≡ false
sign_test buf long signed = rw ((list_beq_iff (take 8 buf) png_sig).1 signed) (ground arith)

-- Every PNG file of at most `max_segments` chunks is accepted, and the report lists the kinds of
-- metadata of its chunks.
pub scan_png_complete :
    (buf : Buffer) (types : List (List ℕ))
    → IsPng buf types
    → length types ≤ max_segments
    → scan_png buf ≡ some (result (collect [] types))
unfolding scan_png
scan_png_complete buf types png room =
    let long : 8 ≤ length buf = omega (arith, length-take 8 buf, ap length png.signed) in
    let whole =
      walk_complete max_segments buf png_start png.chain refl room (λ _. png.headed) refl in
    rw (sign_test buf long png.signed) whole
