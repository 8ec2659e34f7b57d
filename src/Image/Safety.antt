-- ===== src/Image/Safety.antt =====
-- Every read of the four walkers is inside the buffer: no scan throws or meets `undefined`.
use mathlib.Core.Option
use legends_chat.Common.{
  ℕ, ◌+◌, ◌≤◌, ◌<◌, String, ◌≡◌, ◌≢◌, refl, inl, inr, Option, none, some, [], ◌∷◌, length, drop,
  get_elem?, ltb, leb, nat_eq, list_eq, string_eq, arith, Bool-cases, Option-cases, length-drop,
  get_elem?_total,
}
use legends_chat.Image.Bytes.{Buffer, be16, be32, le32, read_uint16_be, read_uint32_le, ◌>>=◌}
use legends_chat.Image.Scan.{walk, walk_total, max_segments, MetadataScan, Step, Exit}
use legends_chat.Image.Jpeg.{
  JpegState, jpeg_step, jpeg_marker, jpeg_segment, at_marker, skip_fill, scan_jpeg, jpeg_start,
  jpeg_exit,
}
use legends_chat.Image.Png.{PngState, png_step, scan_png, png_exit, png_start}
use legends_chat.Image.Webp.{WebpState, webp_step, webp_body, scan_webp, webp_exit, webp_start}
use legends_chat.Image.Gif.{
  GifState, gif_step, gif_block, gif_labelled, gif_extension, gif_application, gif_image, scan_gif,
  gif_exit, table_size,
}
use legends_chat.Image.Sniff.{scan_by_mime, has_image_metadata}

be16_total : (bytes : Buffer) → 2 ≤ length bytes → be16 bytes ≢ none
be16_total (a ∷ b ∷ r) h = cc
be16_total _ h = absurd (omega arith)

be32_total : (bytes : Buffer) → 4 ≤ length bytes → be32 bytes ≢ none
be32_total (a ∷ b ∷ c ∷ d ∷ r) h = cc
be32_total _ h = absurd (omega arith)

le32_total : (bytes : Buffer) → 4 ≤ length bytes → le32 bytes ≢ none
le32_total (a ∷ b ∷ c ∷ d ∷ r) h = cc
le32_total _ h = absurd (omega arith)

some_total {ℓ} : {A : Type ℓ} (a : A) → some a ≢ none
some_total a = cc

bind_total {ℓ κ} :
    {A : Type ℓ} {B : Type κ} (m : Option A) (f : A → Option B)
    → m ≢ none
    → ((a : A) → f a ≢ none)
    → (m >>= f) ≢ none
bind_total none f h k = absurd (h refl)
bind_total (some a) f h k = k a

index_total : (buf : Buffer) (i : ℕ) → i < length buf → get_elem? buf i ≢ none
index_total buf i h = let (x, e) = get_elem?_total buf i h in ground arith

map_total {ℓ κ} :
    {A : Type ℓ} {B : Type κ} (f : A → B) (m : Option A) → m ≢ none → Option.map f m ≢ none
map_total f none h = absurd (h refl)
map_total f (some a) h = cc

png_step_total : (buf : Buffer) (s : PngState) → png_step buf s ≢ none
unfolding png_step
png_step_total buf s = elim (Bool-cases (ltb (length buf) (s.at + 8))) [
  | inl short ↦ rw short (cc)
  | inr long ↦
      rw long
        (bind_total _ _ (be32_total _ (ground (arith, length-drop s.at buf))) (λ len. some_total _))
]

webp_step_total :
    (buf : Buffer) (end : ℕ) (s : WebpState) → end ≤ length buf → webp_step buf end s ≢ none
unfolding webp_step
webp_step_total buf end s inside = elim (Bool-cases (ltb s.at end)) [
  | inr out ↦ rw out (cc)
  | inl more ↦ rw more (elim (Bool-cases (ltb end (s.at + 8))) [
    | inl short ↦ rw short (cc)
    | inr long ↦ rw long (
        bind_total _ _ (le32_total _ (ground (arith, length-drop (s.at + 4) buf)))
          (λ len. some_total _))
  ])
]

jpeg_marker_total : (buf : Buffer) (s : JpegState) (i m : ℕ) → jpeg_marker buf s i m ≢ none
unfolding jpeg_marker
jpeg_marker_total buf s i m = elim (Bool-cases (ltb (length buf) (i + 4))) [
  | inl short ↦ rw short (ground arith)
  | inr long ↦
      let read : (read_uint16_be buf (i + 2) >>= λ len. some (jpeg_segment buf s i m len)) ≢ none =
        bind_total _ _ (be16_total (drop (i + 2) buf) (ground (arith, length-drop (i + 2) buf)))
          (λ len. some_total _) in
      rw long (ground (arith, read))
]

at_marker_total :
    (buf : Buffer) (s : JpegState) (found : ℕ × Option ℕ) → at_marker buf s found ≢ none
at_marker_total buf s (i, none) = cc
at_marker_total buf s (i, some m) = jpeg_marker_total buf s i m

jpeg_step_total : (buf : Buffer) (s : JpegState) → jpeg_step buf s ≢ none
unfolding jpeg_step
jpeg_step_total buf s =
    ground
      (arith, at_marker_total buf s (skip_fill (length buf) buf s.at (get_elem? buf (s.at + 1))))

module _ (buf : Buffer) (s : GifState) where
  gif_application_total : (p : ℕ) → gif_application buf s p ≢ none
  unfolding gif_application
  gif_application_total p = elim (Bool-cases (leb (length buf) p)) [
    | inl out ↦ rw out (cc)
    | inr here ↦
        rw here (bind_total _ _ (index_total buf p (ground arith)) (λ id_len. some_total _))
  ]

  gif_extension_total : gif_extension buf s ≢ none
  unfolding gif_extension gif_labelled
  gif_extension_total = elim (Bool-cases (ltb (length buf) (s.at + 2))) [
    | inl out ↦ rw out (cc)
    | inr here ↦ rw here (
        bind_total _ _ (index_total buf (s.at + 1) (ground arith))
          (λ label. ground (arith, gif_application_total (s.at + 2))))
  ]

  gif_image_total : gif_image buf s ≢ none
  unfolding gif_image
  gif_image_total = elim (Bool-cases (ltb (length buf) (s.at + 10))) [
    | inl out ↦ rw out (cc)
    | inr here ↦
        rw here
          (bind_total _ _ (index_total buf (s.at + 9) (ground arith)) (λ lpacked. some_total _))
  ]

  gif_step_total : gif_step buf s ≢ none
  unfolding gif_step gif_block
  gif_step_total = elim (Bool-cases (leb (length buf) s.at)) [
    | inl out ↦ rw out (cc)
    | inr here ↦ rw here (
        bind_total _ _ (index_total buf s.at (ground arith))
          (λ introducer. ground (arith, gif_extension_total, gif_image_total)))
  ]

walked {ℓ} :
    {S : Type 0} {A : Type ℓ} (n : ℕ) (step : S → Option (Step S)) (s : S) (f : Exit S → A)
    → ((s' : S) → step s' ≢ none)
    → Option.map f (walk n step s) ≢ none
walked n step s f safe = map_total f (walk n step s) (walk_total n step s safe)

scan_png_total : (buf : Buffer) → scan_png buf ≢ none
unfolding scan_png
scan_png_total buf =
    ground (arith, walked max_segments (png_step buf) png_start png_exit (png_step_total buf))

scan_jpeg_total : (buf : Buffer) → scan_jpeg buf ≢ none
unfolding scan_jpeg
scan_jpeg_total buf =
    ground (arith, walked max_segments (jpeg_step buf) jpeg_start jpeg_exit (jpeg_step_total buf))

webp_body_total : (buf : Buffer) (size : ℕ) → webp_body buf size ≢ none
unfolding webp_body
webp_body_total buf size = elim (Bool-cases (ltb (length buf) (8 + size))) [
  | inl long ↦ rw long (ground arith)
  | inr fits ↦
      let inside : 8 + size ≤ length buf = ground arith in
      rw fits (
        ground (
          arith,
          walked max_segments (webp_step buf (8 + size)) webp_start (webp_exit (8 + size))
              (λ s. webp_step_total buf (8 + size) s inside),
        ))
]

scan_webp_total : (buf : Buffer) → scan_webp buf ≢ none
unfolding scan_webp
scan_webp_total buf = elim (Bool-cases (ltb (length buf) 12)) [
  | inl short ↦ rw short (some_total _)
  | inr long ↦
      let read : (read_uint32_le buf 4 >>= λ size. webp_body buf size) ≢ none =
        bind_total _ _ (le32_total (drop 4 buf) (ground (arith, length-drop 4 buf)))
          (webp_body_total buf) in
      rw long (ground (arith, read))
]

scan_gif_total : (buf : Buffer) → scan_gif buf ≢ none
unfolding scan_gif
scan_gif_total buf = elim (Bool-cases (ltb (length buf) 13)) [
  | inl short ↦ rw short (some_total _)
  | inr long ↦
      let read : (get_elem? buf 10 >>= λ packed.
      Option.map gif_exit
        (walk (length buf) (gif_step buf) (record { at = 13 + table_size packed; kinds = [] })))
          ≢ none =
        bind_total _ _ (index_total buf 10 (ground arith))
          (λ packed. walked (length buf) (gif_step buf) _ gif_exit (gif_step_total buf)) in
      rw long (ground (arith, read))
]

scan_by_mime_total : (buf : Buffer) (mime : String) → scan_by_mime buf mime ≢ none
unfolding scan_by_mime
scan_by_mime_total buf mime =
    ground (arith, scan_png_total buf, scan_jpeg_total buf, scan_webp_total buf, scan_gif_total buf)

-- For every buffer and every declared type, the scan runs to its end without an exception: the report is the walker's own.
pub has_image_metadata_total :
    (buf : Buffer) (mime : String)
    → (r : MetadataScan) × (scan_by_mime buf mime ≡ some r) × (has_image_metadata buf mime ≡ r)
unfolding has_image_metadata
has_image_metadata_total buf mime = elim (Option-cases (scan_by_mime buf mime)) [
  | inl thrown ↦ absurd (scan_by_mime_total buf mime thrown)
  | inr (r, e) ↦ (r, e, rw e)
]
