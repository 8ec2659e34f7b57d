-- ===== src/Image/Fair.antt =====
-- A report that does not block is not "malformed" either: the scanners fail closed.
use mathlib.Core.Option
use legends_chat.Common.{
  if◌then◌else◌, ◌==◌, list_eq, ℕ, ◌≡◌, ◌+◌, refl, inl, inr, String, Bool, true, false, Option,
  none, some, List, [], arith, Bool-cases, length, ltb, get_elem?,
}
use legends_chat.Image.Bytes.{Buffer, codes, ascii, subarray, read_uint32_le, ◌>>=◌}
use legends_chat.Image.Scan.{MetadataScan, malformed, result, Exit, rejected, broke, ended, walk}
use legends_chat.Image.Jpeg.{JpegState, jpeg_exit, scan_jpeg}
use legends_chat.Image.Png.{PngState, png_exit, png_finish, scan_png}
use legends_chat.Image.Webp.{WebpState, webp_exit, webp_finish, webp_body, scan_webp}
use legends_chat.Image.Gif.{GifState, is_gif_sig, table_size, gif_exit, gif_step, scan_gif}

abbrev pub IsFair : MetadataScan → Type 0
IsFair r = r.blocking ≡ false → r.malformed ≡ false

-- Every report of a scan is fair.
abbrev pub Fair : Option MetadataScan → Type 0
Fair m = (r : MetadataScan) → m ≡ some r → IsFair r

Fair-some : (r : MetadataScan) → IsFair r → Fair (some r)
Fair-some r fair s e clean = ground (arith, fair)

Fair-none : Fair none
Fair-none s e clean = cc

Fair-map {ℓ} :
    {A : Type ℓ} (f : A → MetadataScan) (m : Option A)
    → ((a : A) → IsFair (f a))
    → Fair (Option.map f m)
Fair-map f none fair = Fair-none
Fair-map f (some a) fair = Fair-some (f a) (fair a)

IsFair-malformed : (reason : String) → IsFair (malformed reason)
unfolding malformed
IsFair-malformed reason clean = cc

IsFair-result : (kinds : List String) → IsFair (result kinds)
unfolding result
IsFair-result kinds clean = refl

Fair-if : (b : Bool) (x y : Option MetadataScan) → Fair x → Fair y → Fair (if b then x else y)
Fair-if true x y fx fy = fx
Fair-if false x y fx fy = fy

Fair-bind {ℓ} :
    {A : Type ℓ} (m : Option A) (f : A → Option MetadataScan)
    → ((a : A) → Fair (f a))
    → Fair (m >>= f)
Fair-bind none f fair = Fair-none
Fair-bind (some a) f fair = fair a

png_exit-IsFair : (x : Exit PngState) → IsFair (png_exit x)
unfolding png_exit png_finish
png_exit-IsFair (rejected reason) = IsFair-malformed reason
png_exit-IsFair (broke s) = ground (arith, IsFair-malformed "png-incomplete", IsFair-result s.kinds)
png_exit-IsFair (ended s) = ground (arith, IsFair-malformed "png-incomplete", IsFair-result s.kinds)

jpeg_exit-IsFair : (x : Exit JpegState) → IsFair (jpeg_exit x)
unfolding jpeg_exit
jpeg_exit-IsFair (rejected reason) = IsFair-malformed reason
jpeg_exit-IsFair (broke s) = IsFair-result s.kinds
jpeg_exit-IsFair (ended s) = IsFair-malformed _

gif_exit-IsFair : (x : Exit GifState) → IsFair (gif_exit x)
unfolding gif_exit
gif_exit-IsFair (rejected reason) = IsFair-malformed reason
gif_exit-IsFair (broke s) = IsFair-result s.kinds
gif_exit-IsFair (ended s) = IsFair-malformed _

webp_exit-IsFair : (end : ℕ) (x : Exit WebpState) → IsFair (webp_exit end x)
unfolding webp_exit webp_finish
webp_exit-IsFair end (rejected reason) = IsFair-malformed reason
webp_exit-IsFair end (broke s) =
    ground (arith, IsFair-malformed "webp-chunk-walk", IsFair-result s.kinds)
webp_exit-IsFair end (ended s) =
    ground (arith, IsFair-malformed "webp-chunk-walk", IsFair-result s.kinds)

rejects : (reason : String) → Fair (some (malformed reason))
rejects reason = Fair-some (malformed reason) (IsFair-malformed reason)

pub scan_png-Fair : (buf : Buffer) → Fair (scan_png buf)
unfolding scan_png
scan_png-Fair buf = Fair-if _ _ _ (rejects _) (Fair-map png_exit _ png_exit-IsFair)

pub scan_jpeg-Fair : (buf : Buffer) → Fair (scan_jpeg buf)
unfolding scan_jpeg
scan_jpeg-Fair buf = Fair-if _ _ _ (rejects _) (Fair-map jpeg_exit _ jpeg_exit-IsFair)

pub scan_gif-Fair : (buf : Buffer) → Fair (scan_gif buf)
unfolding scan_gif
scan_gif-Fair buf r e = elim (Bool-cases (ltb (length buf) 13)) [
  | inl short ↦ rejects "gif-truncated" r (rw short at e)
  | inr long ↦ elim (Bool-cases (is_gif_sig (ascii (subarray buf 0 6)))) [
    | inr unsigned ↦ rejects "gif-signature" r (rw (long, unsigned) at e)
    | inl signed ↦
        Fair-bind (get_elem? buf 10)
          (λ packed.
            Option.map gif_exit (
              walk (length buf) (gif_step buf)
                (record { at = 13 + table_size packed; kinds = [] })))
          (λ packed. Fair-map gif_exit _ gif_exit-IsFair) r (rw (long, signed) at e)
  ]
]

webp_body-Fair : (buf : Buffer) (size : ℕ) → Fair (webp_body buf size)
unfolding webp_body
webp_body-Fair buf size =
    Fair-if _ _ _ (rejects _) (Fair-map (webp_exit (8 + size)) _ (webp_exit-IsFair (8 + size)))

pub scan_webp-Fair : (buf : Buffer) → Fair (scan_webp buf)
unfolding scan_webp
scan_webp-Fair buf r e = elim (Bool-cases (ltb (length buf) 12)) [
  | inl short ↦ rejects "webp-truncated" r (rw short at e)
  | inr long ↦ elim (Bool-cases (ascii (subarray buf 0 4) == codes "RIFF")) [
    | inr unsigned ↦ rejects "webp-signature" r (rw (long, unsigned) at e)
    | inl riff ↦ elim (Bool-cases (ascii (subarray buf 8 12) == codes "WEBP")) [
      | inr other ↦ rejects "webp-signature" r (rw (long, riff, other) at e)
      | inl webp ↦
          Fair-bind (read_uint32_le buf 4) (webp_body buf) (webp_body-Fair buf) r
            (rw (long, riff, webp) at e)
    ]
  ]
]
