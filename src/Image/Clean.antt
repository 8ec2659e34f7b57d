-- ===== src/Image/Clean.antt =====
-- What an upload that passes the scan looks like, byte by byte.
use legends_chat.Common.{
  ℕ, String, ◌≡◌, inl, inr, Bool, Among, true, false, not, Option, none, some, List, [], ◌∷◌, ◌++◌,
  arith, includes, some_of, string_eq, ◌==◌, All, Bool-cases, subst, eq_iff, sym, ap, ◌∙◌, nat_eq,
}
use legends_chat.Image.Bytes.{Buffer}
use legends_chat.Image.Scan.{MetadataScan, malformed, result, add_kind, non_blocking_kinds}
use legends_chat.Image.Jpeg.{segment_kind, scan_jpeg}
use legends_chat.Image.Png.{png_kind, scan_png}
use legends_chat.Image.Webp.{webp_kind, scan_webp}
use legends_chat.Image.Gif.{scan_gif}
use legends_chat.Image.Jpeg.Segments
use legends_chat.Image.Jpeg.Sound.{IsJpeg, scan_jpeg_sound}
use legends_chat.Image.Png.Chunks.{IsPng}
use legends_chat.Image.Png.Chunks
use legends_chat.Image.Png.Sound.{scan_png_sound}
use legends_chat.Image.Webp.Chunks as WebpChunks
use legends_chat.Image.Webp.Sound.{IsWebp, scan_webp_sound}
use legends_chat.Image.Gif.Blocks
use legends_chat.Image.Gif.Sound.{IsGif, scan_gif_sound}
use legends_chat.Image.Metadata.{
  IsHarmless, png_metadata, webp_metadata, IsIdentifying, png_kind-Among, webp_kind-Among,
  segment_kind-IsIdentifying,
}
use legends_chat.Image.Sniff.{scan_by_mime, has_image_metadata}
use legends_chat.Image.Fair.{scan_png-Fair, scan_jpeg-Fair, scan_webp-Fair, scan_gif-Fair}
use legends_chat.Image.Safety.{has_image_metadata_total}

abbrev blocks : String → Bool
blocks k = not (includes k non_blocking_kinds)

harmless_of : (k : String) → blocks k ≡ false → k ≡ "icc"
harmless_of k h = ground (arith, eq_iff "icc" k)

passed :
    (k : String) (ks : List String)
    → some_of blocks ks ≡ false
    → includes k ks ≡ true
    → blocks k ≡ false
passed k [] h e = cc
passed k (x ∷ ks) h e = ground (arith, eq_iff x k, passed k ks)

appended :
    (ks : List String) (k : String)
    → some_of blocks (ks ++ k ∷ []) ≡ false
    → (some_of blocks ks ≡ false) × (blocks k ≡ false)
appended [] k h = ground arith
appended (x ∷ ks) k h = ground (arith, appended ks k)

add_kind-IsHarmless :
    (k : Option String) (ks : List String)
    → some_of blocks (add_kind k ks) ≡ false
    → (some_of blocks ks ≡ false) × IsHarmless k
add_kind-IsHarmless none ks h = (h, tt)
add_kind-IsHarmless (some k) ks h = elim (Bool-cases (includes k ks)) [
  | inl old ↦ let clean = rw old at h in (clean, harmless_of k (passed k ks clean old))
  | inr new ↦ let (clean, last) = appended ks k (rw new at h) in (clean, harmless_of k last)
]

png-IsHarmless :
    (ts : List (List ℕ)) (ks : List String)
    → some_of blocks (Chunks.collect ks ts) ≡ false
    → All (λ t. IsHarmless (png_kind t)) ts × (some_of blocks ks ≡ false)
unfolding Chunks.collect
png-IsHarmless [] ks h = (tt, h)
png-IsHarmless (t ∷ ts) ks h =
    let (later, clean) = png-IsHarmless ts (add_kind (png_kind t) ks) h in
    let (before, here) = add_kind-IsHarmless (png_kind t) ks clean in ((here, later), before)

webp-IsHarmless :
    (ts : List (List ℕ)) (ks : List String)
    → some_of blocks (WebpChunks.collect ks ts) ≡ false
    → All (λ t. IsHarmless (webp_kind t)) ts × (some_of blocks ks ≡ false)
unfolding WebpChunks.collect
webp-IsHarmless [] ks h = (tt, h)
webp-IsHarmless (t ∷ ts) ks h =
    let (later, clean) = webp-IsHarmless ts (add_kind (webp_kind t) ks) h in
    let (before, here) = add_kind-IsHarmless (webp_kind t) ks clean in ((here, later), before)

jpeg-IsHarmless :
    (found : List (ℕ × Buffer)) (ks : List String)
    → some_of blocks (Segments.collect ks found) ≡ false
    → All (λ f. IsHarmless (segment_kind f.0 f.1)) found × (some_of blocks ks ≡ false)
unfolding Segments.collect
jpeg-IsHarmless [] ks h = (tt, h)
jpeg-IsHarmless ((m, payload) ∷ found) ks h =
    let (later, clean) = jpeg-IsHarmless found (add_kind (segment_kind m payload) ks) h in
    let (before, here) = add_kind-IsHarmless (segment_kind m payload) ks clean in
    ((here, later), before)

gif-IsHarmless :
    (found : List (Option String)) (ks : List String)
    → some_of blocks (Blocks.collect ks found) ≡ false
    → All IsHarmless found × (some_of blocks ks ≡ false)
unfolding Blocks.collect
gif-IsHarmless [] ks h = (tt, h)
gif-IsHarmless (k ∷ found) ks h =
    let (later, clean) = gif-IsHarmless found (add_kind k ks) h in
    let (before, here) = add_kind-IsHarmless k ks clean in ((here, later), before)

All-map :
    {A : Type 0} {P Q : A → Type 0} → ((a : A) → P a → Q a) → (xs : List A) → All P xs → All Q xs
All-map f [] all = tt
All-map f (x ∷ xs) all = (f x all.0, All-map f xs all.1)

-- A file of one of the four formats, without the metadata of that format. For a JPEG, the other
-- kinds of `segment_kind` count as well; for a GIF, every extension but those of graphics control
-- and of animation, and a colour profile.
pub data IsClean (buf : Buffer) : String → Type 0 where
  png :
      (types : List (List ℕ))
      → IsPng buf types
      → All (λ t. ¬ Among t png_metadata) types
      → IsClean buf "image/png"
  jpeg :
      (found : List (ℕ × Buffer))
      → IsJpeg buf found
      → All (λ f. IsHarmless (segment_kind f.0 f.1) × ¬ IsIdentifying f.0 f.1) found
      → IsClean buf "image/jpeg"
  webp :
      (names : List (List ℕ))
      → IsWebp buf names
      → All (λ t. ¬ Among t webp_metadata) names
      → IsClean buf "image/webp"
  gif :
      (kinds : List (Option String))
      → IsGif buf kinds
      → All IsHarmless kinds
      → IsClean buf "image/gif"

blocks_kinds :
    (r : MetadataScan) (kinds : List String)
    → r ≡ result kinds
    → r.blocking ≡ false
    → some_of blocks kinds ≡ false
unfolding result
blocks_kinds r kinds e h = ap (λ (s : MetadataScan). s.blocking) (sym e) ∙ h

module _ (buf : Buffer) (r : MetadataScan) (clean : r.blocking ≡ false) where
  png-IsClean : scan_png buf ≡ some r → IsClean buf "image/png"
  png-IsClean e =
      let (types, is_png, report) = scan_png_sound buf r e (scan_png-Fair buf r e clean) in
      png types is_png
        (All-map png_kind-Among types (png-IsHarmless types [] (blocks_kinds r _ report clean)).0)

  jpeg-IsClean : scan_jpeg buf ≡ some r → IsClean buf "image/jpeg"
  jpeg-IsClean e =
      let (found, is_jpeg, report) = scan_jpeg_sound buf r e (scan_jpeg-Fair buf r e clean) in
      jpeg found is_jpeg (
        All-map (λ f h. (h, segment_kind-IsIdentifying f.0 f.1 h)) found
          (jpeg-IsHarmless found [] (blocks_kinds r _ report clean)).0)

  webp-IsClean : scan_webp buf ≡ some r → IsClean buf "image/webp"
  webp-IsClean e =
      let (names, is_webp, report) = scan_webp_sound buf r e (scan_webp-Fair buf r e clean) in
      webp names is_webp
        (All-map webp_kind-Among names (webp-IsHarmless names [] (blocks_kinds r _ report clean)).0)

  gif-IsClean : scan_gif buf ≡ some r → IsClean buf "image/gif"
  gif-IsClean e =
      let (kinds, is_gif, report) = scan_gif_sound buf r e (scan_gif-Fair buf r e clean) in
      gif kinds is_gif (gif-IsHarmless kinds [] (blocks_kinds r _ report clean)).0

  by_mime : (mime : String) → scan_by_mime buf mime ≡ some r → IsClean buf mime
  unfolding scan_by_mime malformed
  by_mime mime e = elim (Bool-cases (mime == "image/jpeg")) [
    | inl here ↦ subst (IsClean buf) (sym ((eq_iff _ _).0 here)) (jpeg-IsClean (rw here at e))
    | inr no_jpeg ↦ elim (Bool-cases (mime == "image/png")) [
      | inl here ↦
          subst (IsClean buf) (sym ((eq_iff _ _).0 here)) (png-IsClean (rw (no_jpeg, here) at e))
      | inr no_png ↦ elim (Bool-cases (mime == "image/webp")) [
        | inl here ↦
            subst (IsClean buf) (sym ((eq_iff _ _).0 here))
              (webp-IsClean (rw (no_jpeg, no_png, here) at e))
        | inr no_webp ↦ elim (Bool-cases (mime == "image/gif")) [
          | inl here ↦
              subst (IsClean buf) (sym ((eq_iff _ _).0 here))
                (gif-IsClean (rw (no_jpeg, no_png, no_webp, here) at e))
          | inr no_gif ↦ absurd (unsupported (rw (no_jpeg, no_png, no_webp, no_gif) at e))
        ]
      ]
    ]
  ]
    where
      unsupported : some (malformed "unsupported-container") ≡ some r → ⊥
      unsupported h = ground arith

-- If a scan does not block, whatever the declared type, then the buffer begins with a file of that
-- type and that file has no metadata: a PNG up to IEND with no text and no Exif chunk; a JPEG up to
-- the start of its scan with no Exif segment, comment or vendor data, nor any other kind that
-- `segment_kind` names but a colour profile; a WebP over its RIFF size with no Exif and no XMP chunk;
-- a GIF up to its trailer with no extension that `extension_kind` classes but a colour profile.
pub has_image_metadata-IsClean :
    (buf : Buffer) (mime : String)
    → (has_image_metadata buf mime).blocking ≡ false
    → IsClean buf mime
has_image_metadata-IsClean buf mime clean =
    let (r, scanned, report) = has_image_metadata_total buf mime in
    by_mime buf r (ap (λ (s : MetadataScan). s.blocking) (sym report) ∙ clean) mime scanned
