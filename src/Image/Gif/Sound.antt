-- ===== src/Image/Gif/Sound.antt =====
-- `scanGif` accepts chains of blocks only, and reports the kinds of their extensions.
use legends_chat.Common.{
  ℕ, ◌+◌, String, ◌≡◌, refl, sym, ap, ◌∙◌, inl, inr, true, false, Option, some, List, [], length,
  take, drop, get_elem?, ltb, leb, ◌==◌, nat_eq, list_eq, list_beq_iff, arith, Bool-cases,
  Option-cases, subst, or-cases, ◌⊎◌,
}
use legends_chat.Image.Bytes.{Buffer, codes, subarray, ascii}
use legends_chat.Image.Scan.{
  MetadataScan, malformed, result, Step, reject, leave, advance, Exit, rejected, broke, ended, walk,
  walk_rule,
}
use legends_chat.Image.Gif.{
  table_size, GifState, gif_block, gif_step, gif_exit, is_gif_sig, scan_gif,
}
use legends_chat.Image.Gif.Blocks.{Blocks, trailer, collect}
use legends_chat.Image.Gif.Rounds.{Explains, byte_at, gif_extension-Explains, gif_image-Explains}

gif_block-Explains :
    (buf : Buffer) (s : GifState) (b : ℕ) (st : Step GifState)
    → get_elem? buf s.at ≡ some b
    → gif_block buf s b ≡ some st
    → Explains buf s st
unfolding gif_block
gif_block-Explains buf s b st here e = elim (Bool-cases (b == 0x3b)) [
  | inl end ↦ subst (Explains buf s) (let same : leave s ≡ st = ground arith in same) (
    drop (s.at + 1) buf,
    rw (let e : b ≡ 0x3b = ground arith in e) at (byte_at buf s.at here),
    refl,
  )
  | inr more ↦ elim (Bool-cases (b == 0x21)) [
    | inl ext ↦
        gif_extension-Explains buf s st (here ∙ ap some (let e : b ≡ 0x21 = ground arith in e))
          (ground arith)
    | inr other ↦ elim (Bool-cases (b == 0x2c)) [
      | inl frame ↦
          gif_image-Explains buf s st (here ∙ ap some (let e : b ≡ 0x2c = ground arith in e))
            (ground arith)
      | inr unknown ↦
          subst (Explains buf s)
            (let same : reject "gif-block-introducer" ≡ st = ground arith in same) tt
    ]
  ]
]

gif_step-Explains :
    (buf : Buffer) (s : GifState) (st : Step GifState)
    → gif_step buf s ≡ some st
    → Explains buf s st
unfolding gif_step
gif_step-Explains buf s st e = elim (Bool-cases (leb (length buf) s.at)) [
  | inl short ↦
      subst (Explains buf s) (let same : reject "gif-truncated" ≡ st = ground arith in same) tt
  | inr long ↦ elim (Option-cases (get_elem? buf s.at)) [
    | inl unread ↦ absurd (ground arith)
    | inr (b, here) ↦ gif_block-Explains buf s b st here (ground arith)
  ]
]

abbrev Good : Buffer → GifState → Exit GifState → Type 0
Good buf s (rejected _) = Unit
Good buf s (ended _) = Unit
Good buf s (broke s') =
    (ks : List (Option String)) × Blocks (drop s.at buf) ks × (s'.kinds ≡ collect s.kinds ks)

Good-on :
    (buf : Buffer) (s s' : GifState) (x : Exit GifState)
    → Explains buf s (advance s')
    → Good buf s' x
    → Good buf s x
Good-on buf s s' (rejected _) known good = tt
Good-on buf s s' (ended _) known good = tt
Good-on buf s s' (broke t) known (ks, chain, kinds) =
    let (ks', chain', same) = known ks chain in (ks', chain', kinds ∙ sym same)

walk-Good :
    (buf : Buffer) (n : ℕ) (s : GifState) (x : Exit GifState)
    → walk n (gif_step buf) s ≡ some x
    → Good buf s x
unfolding collect
walk-Good buf =
    walk_rule (Good buf) (gif_step buf) (λ s. tt) (λ s reason e. tt)
      (λ s s' e.
        let (rest, end, same) = gif_step-Explains buf s (leave s') e in ([], trailer end, same))
      (λ s s' x e good. Good-on buf s s' x (gif_step-Explains buf s (advance s') e) good)

-- A GIF: the signature, the screen descriptor with its colour table, and a chain of blocks.
pub record IsGif (buf : Buffer) (ks : List (Option String)) : Type 0 where
  pub signed : (ascii (take 6 buf) ≡ codes "GIF87a") ⊎ (ascii (take 6 buf) ≡ codes "GIF89a")
  pub packed : ℕ
  pub descriptor : get_elem? buf 10 ≡ some packed
  pub chain : Blocks (drop (13 + table_size packed) buf) ks

exit_sound :
    (buf : Buffer) (s : GifState) (x : Exit GifState) (r : MetadataScan)
    → Good buf s x
    → gif_exit x ≡ r
    → r.malformed ≡ false
    → (ks : List (Option String)) × Blocks (drop s.at buf) ks × (r ≡ result (collect s.kinds ks))
unfolding gif_exit malformed
exit_sound buf s (rejected reason) r good e fine = absurd (ground arith)
exit_sound buf s (ended _) r good e fine = absurd (ground arith)
exit_sound buf s (broke t) r (ks, chain, kinds) e fine = (ks, chain, sym e ∙ ap result kinds)

gif_signed :
    (sig : List ℕ) → is_gif_sig sig ≡ true → (sig ≡ codes "GIF87a") ⊎ (sig ≡ codes "GIF89a")
unfolding is_gif_sig
gif_signed sig h = elim (or-cases (sig == codes "GIF87a") (sig == codes "GIF89a") h) [
  | inl old ↦ inl ((list_beq_iff sig _).0 old)
  | inr new ↦ inr ((list_beq_iff sig _).0 new)
]

-- A report of `scanGif` that is not "malformed" describes a GIF, and lists the kinds of metadata
-- of its extensions.
pub scan_gif_sound :
    (buf : Buffer) (r : MetadataScan)
    → scan_gif buf ≡ some r
    → r.malformed ≡ false
    → (ks : List (Option String)) × IsGif buf ks × (r ≡ result (collect [] ks))
unfolding scan_gif malformed
scan_gif_sound buf r e fine = elim (Bool-cases (ltb (length buf) 13)) [
  | inl short ↦ absurd (ground arith)
  | inr long ↦ elim (Bool-cases (is_gif_sig (ascii (subarray buf 0 6)))) [
    | inr unsigned ↦ absurd (ground arith)
    | inl signed ↦ elim (Option-cases (get_elem? buf 10)) [
      | inl unread ↦ absurd (ground arith)
      | inr (packed, here) ↦
          let start : GifState = record { at = 13 + table_size packed; kinds = [] } in
          elim (Option-cases (walk (length buf) (gif_step buf) start)) [
            | inl thrown ↦ absurd (ground arith)
            | inr (x, walked) ↦
                let (ks, chain, report) =
                  exit_sound buf start x r (walk-Good buf (length buf) start x walked)
                    (ground arith) fine in
                (
                  ks,
                  record {
                    signed = gif_signed _ signed;
                    packed = packed;
                    descriptor = here;
                    chain = chain;
                  },
                  report,
                )
          ]
    ]
  ]
]
