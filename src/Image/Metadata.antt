-- ===== src/Image/Metadata.antt =====
-- apps/web/lib/image-metadata.ts: what counts as metadata in a PNG, a WebP and a JPEG, said apart
-- from the kinds that the walkers name.
use legends_chat.Common.{
  ℕ, ◌≤◌, String, ◌≡◌, ◌≢◌, refl, sym, subst, inl, inr, true, false, Option, none, some, List, [],
  ◌∷◌, ◌++◌, length, leb, Among, ◌==◌, nat_eq, string_eq, list_eq, eq_iff, arith, apart,
}
use legends_chat.Image.Bytes.{Buffer, codes}
use legends_chat.Image.Jpeg.{segment_kind, app1_kind}
use legends_chat.Image.Png.{png_kind}
use legends_chat.Image.Webp.{webp_kind}

-- No metadata, or a colour profile.
abbrev pub IsHarmless : Option String → Type 0
IsHarmless none = Unit
IsHarmless (some k) = k ≡ "icc"

-- The chunks of text and Exif of a PNG, of Exif and XMP of a WebP.
abbrev pub png_metadata : List (List ℕ)
png_metadata = codes "tEXt" ∷ codes "zTXt" ∷ codes "iTXt" ∷ codes "eXIf" ∷ []

abbrev pub webp_metadata : List (List ℕ)
webp_metadata = codes "EXIF" ∷ codes "XMP " ∷ []

-- A JPEG segment with Exif, a comment or a vendor's data.
pub data IsIdentifying (m : ℕ) (payload : Buffer) : Type 0 where
  exif :
      (rest : Buffer)
      → m ≡ 0xe1
      → payload ≡ codes "Exif" ++ (0 ∷ 0 ∷ rest)
      → IsIdentifying m payload
  comment : m ≡ 0xfe → IsIdentifying m payload
  vendor : 0xe4 ≤ m → m ≤ 0xec → IsIdentifying m payload

not_icc : (k : String) → (k == "icc") ≡ false → k ≢ "icc"
not_icc k h e = apart ((eq_iff k "icc").1 e) h

pub png_kind-Among : (t : List ℕ) → IsHarmless (png_kind t) → ¬ Among t png_metadata
unfolding png_kind
png_kind-Among t h (inl e) = not_icc "text" refl (subst (λ u. IsHarmless (png_kind u)) (sym e) h)
png_kind-Among t h (inr (inl e)) =
    not_icc "ztxt" refl (subst (λ u. IsHarmless (png_kind u)) (sym e) h)
png_kind-Among t h (inr (inr (inl e))) =
    not_icc "itxt" refl (subst (λ u. IsHarmless (png_kind u)) (sym e) h)
png_kind-Among t h (inr (inr (inr (inl e)))) =
    not_icc "exif" refl (subst (λ u. IsHarmless (png_kind u)) (sym e) h)
png_kind-Among t h (inr (inr (inr (inr e)))) = e

pub webp_kind-Among : (t : List ℕ) → IsHarmless (webp_kind t) → ¬ Among t webp_metadata
unfolding webp_kind
webp_kind-Among t h (inl e) = not_icc "exif" refl (subst (λ u. IsHarmless (webp_kind u)) (sym e) h)
webp_kind-Among t h (inr (inl e)) =
    not_icc "xmp" refl (subst (λ u. IsHarmless (webp_kind u)) (sym e) h)
webp_kind-Among t h (inr (inr e)) = e

exif_kind : (rest : Buffer) → app1_kind (codes "Exif" ++ (0 ∷ 0 ∷ rest)) ≡ some "exif"
unfolding app1_kind
exif_kind rest =
    let long : leb 6 (length (codes "Exif" ++ (0 ∷ 0 ∷ rest))) ≡ true = ground arith in rw long refl

pub segment_kind-IsIdentifying :
    (m : ℕ) (payload : Buffer) → IsHarmless (segment_kind m payload) → ¬ IsIdentifying m payload
unfolding segment_kind
segment_kind-IsIdentifying m payload h (exif rest marker e) = not_icc "exif" refl (
    subst IsHarmless (exif_kind rest) (
      subst (λ p. IsHarmless (segment_kind 0xe1 p)) e
        (subst (λ n. IsHarmless (segment_kind n payload)) marker h)))
segment_kind-IsIdentifying m payload h (comment marker) =
    not_icc "comment" refl (subst (λ n. IsHarmless (segment_kind n payload)) marker h)
segment_kind-IsIdentifying m payload h (vendor low high) =
    not_icc "appdata" refl (subst IsHarmless (vendor_kind m payload low high) h)
  where
    vendor_kind : (n : ℕ) (p : Buffer) → 0xe4 ≤ n → n ≤ 0xec → segment_kind n p ≡ some "appdata"
    vendor_kind n p lo hi = ground arith
