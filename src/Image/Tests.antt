-- ===== src/Image/Tests.antt =====
-- apps/web/lib/image-metadata.ts: the scanner run on small files, and the theorems applied to them.
use legends_chat.Common.{
  ℕ, ◌≡◌, refl, ap, String, true, false, Option, some, List, [], ◌∷◌, ◌++◌, drop, arith,
}
use legends_chat.Image.Bytes.{Buffer, codes, ascii}
use legends_chat.Image.Scan.{MetadataScan, malformed, result, walk}
use legends_chat.Image.Jpeg.{
  is_jpeg, is_standalone, skip_fill, app1_kind, app2_kind, app13_kind, segment_kind, jpeg_marker,
  jpeg_segment, jpeg_step, jpeg_exit, scan_jpeg,
}
use legends_chat.Image.Png.{
  png_sig, is_chunk_type, png_kind, png_chunk, png_step, png_exit, png_finish, scan_png,
}
use legends_chat.Image.Webp.{
  webp_kind, webp_next, webp_chunk, webp_step, webp_exit, webp_finish, webp_body, scan_webp,
}
use legends_chat.Image.Gif.{
  is_gif_sig, table_size, skip_sub_blocks, app_kind, label_kind, past_sub_blocks, gif_application,
  gif_labelled, gif_extension, gif_image, gif_block, gif_step, gif_exit, scan_gif,
}
use legends_chat.Image.Sniff.{
  is_jpeg_head, is_png_head, is_gif_head, is_webp_head, sniff_image_mime, scan_by_mime,
  has_image_metadata,
}
use legends_chat.Image.Safety.{has_image_metadata_total}
use legends_chat.Image.Clean.{IsClean, has_image_metadata-IsClean}
use legends_chat.Image.Png.Chunks.{IsChunk, IsPng, last, more}
use legends_chat.Image.Png.Chunks as png_chunks
use legends_chat.Image.Png.Sound.{scan_png_sound}
use legends_chat.Image.Png.Complete.{scan_png_complete}
use legends_chat.Image.Jpeg.Sound.{IsJpeg, scan_jpeg_sound}
use legends_chat.Image.Jpeg.Segments as jpeg_segments
use legends_chat.Image.Webp.Sound.{IsWebp, scan_webp_sound}
use legends_chat.Image.Webp.Chunks as webp_chunks
use legends_chat.Image.Gif.Blocks.{skip_sub_blocks_complete}
use legends_chat.Image.Gif.Blocks as gif_blocks
use legends_chat.Image.Gif.Sound.{IsGif, scan_gif_sound}

abbrev sub_blocks : Buffer
sub_blocks = 2 ∷ 65 ∷ 66 ∷ 0 ∷ []

abbrev png_chunk_of : String → Buffer
png_chunk_of name = 0 ∷ 0 ∷ 0 ∷ 0 ∷ codes name ++ (0 ∷ 0 ∷ 0 ∷ 0 ∷ [])

-- A picture with its size only, and one with Exif.
abbrev bare_png : Buffer
bare_png = png_sig ++ (png_chunk_of "IHDR" ++ png_chunk_of "IEND")

abbrev exif_png : Buffer
exif_png = png_sig ++ (png_chunk_of "IHDR" ++ (png_chunk_of "eXIf" ++ png_chunk_of "IEND"))

-- Start of image, an APP1 segment, and the start of the scan.
abbrev exif_jpeg : Buffer
exif_jpeg = 0xff ∷ 0xd8 ∷ 0xff ∷ 0xe1 ∷ 0 ∷ 8 ∷ codes "Exif" ++ (0 ∷ 0 ∷ 0xff ∷ 0xda ∷ 0 ∷ 2 ∷ [])

abbrev exif_webp : Buffer
exif_webp = codes "RIFF" ++ (12 ∷ 0 ∷ 0 ∷ 0 ∷ codes "WEBPEXIF" ++ (0 ∷ 0 ∷ 0 ∷ 0 ∷ []))

-- A comment extension of one block of two bytes.
abbrev comment_gif : Buffer
comment_gif =
    codes "GIF89a" ++ (1 ∷ 0 ∷ 1 ∷ 0 ∷ 0 ∷ 0 ∷ 0 ∷ 0x21 ∷ 0xfe ∷ 2 ∷ 65 ∷ 66 ∷ 0 ∷ 0x3b ∷ [])

png_bare_test :
    has_image_metadata bare_png "image/png"
    ≡ record { found = false; kinds = []; blocking = false; malformed = false }
unfolding has_image_metadata scan_by_mime scan_png walk png_step png_chunk png_exit png_finish
    png_kind is_chunk_type result malformed
png_bare_test = refl

png_exif_test :
    scan_png exif_png
    ≡ some (record { found = true; kinds = "exif" ∷ []; blocking = true; malformed = false })
unfolding scan_png walk png_step png_chunk png_exit png_finish png_kind is_chunk_type result
    malformed
png_exif_test = refl

jpeg_test :
    scan_jpeg exif_jpeg
    ≡ some (record { found = true; kinds = "exif" ∷ []; blocking = true; malformed = false })
unfolding scan_jpeg is_jpeg walk jpeg_step jpeg_marker jpeg_segment jpeg_exit is_standalone
    skip_fill segment_kind app1_kind app2_kind app13_kind result malformed
jpeg_test = refl

webp_test :
    scan_webp exif_webp
    ≡ some (record { found = true; kinds = "exif" ∷ []; blocking = true; malformed = false })
unfolding scan_webp webp_body walk webp_step webp_chunk webp_next webp_exit webp_finish webp_kind
    result malformed
webp_test = refl

gif_test :
    scan_gif comment_gif
    ≡ some (record { found = true; kinds = "comment" ∷ []; blocking = true; malformed = false })
unfolding scan_gif is_gif_sig table_size walk gif_step gif_block gif_extension gif_labelled
    gif_application gif_image past_sub_blocks skip_sub_blocks app_kind label_kind gif_exit result
    malformed
gif_test = refl

sniff_test :
    (sniff_image_mime bare_png ≡ some "image/png")
    × (sniff_image_mime exif_jpeg ≡ some "image/jpeg")
    × (sniff_image_mime exif_webp ≡ some "image/webp")
    × (sniff_image_mime comment_gif ≡ some "image/gif")
unfolding sniff_image_mime is_jpeg_head is_png_head is_gif_head is_webp_head is_gif_sig
sniff_test = (refl, refl, refl, refl)

bare_clean : (has_image_metadata bare_png "image/png").blocking ≡ false
bare_clean = ap (λ (r : MetadataScan). r.blocking) png_bare_test

has_image_metadata-IsClean_example : IsClean bare_png "image/png"
has_image_metadata-IsClean_example = has_image_metadata-IsClean bare_png "image/png" bare_clean

has_image_metadata_total_example :
    (r : MetadataScan) × (scan_by_mime exif_jpeg "image/jpeg" ≡ some r)
    × (has_image_metadata exif_jpeg "image/jpeg" ≡ r)
has_image_metadata_total_example = has_image_metadata_total exif_jpeg "image/jpeg"

scan_png_sound_example :
    (types : List (List ℕ)) × IsPng exif_png types
    × (record { found = true; kinds = "exif" ∷ []; blocking = true; malformed = false }
        ≡ result (png_chunks.collect [] types))
scan_png_sound_example =
    scan_png_sound exif_png
      (record { found = true; kinds = "exif" ∷ []; blocking = true; malformed = false })
      png_exif_test refl

scan_jpeg_sound_example :
    (found : List (ℕ × Buffer)) × IsJpeg exif_jpeg found
    × (record { found = true; kinds = "exif" ∷ []; blocking = true; malformed = false }
        ≡ result (jpeg_segments.collect [] found))
scan_jpeg_sound_example =
    scan_jpeg_sound exif_jpeg
      (record { found = true; kinds = "exif" ∷ []; blocking = true; malformed = false }) jpeg_test
      refl

scan_webp_sound_example :
    (names : List (List ℕ)) × IsWebp exif_webp names
    × (record { found = true; kinds = "exif" ∷ []; blocking = true; malformed = false }
        ≡ result (webp_chunks.collect [] names))
scan_webp_sound_example =
    scan_webp_sound exif_webp
      (record { found = true; kinds = "exif" ∷ []; blocking = true; malformed = false }) webp_test
      refl

scan_gif_sound_example :
    (ks : List (Option String)) × IsGif comment_gif ks
    × (record { found = true; kinds = "comment" ∷ []; blocking = true; malformed = false }
        ≡ result (gif_blocks.collect [] ks))
scan_gif_sound_example =
    scan_gif_sound comment_gif
      (record { found = true; kinds = "comment" ∷ []; blocking = true; malformed = false }) gif_test
      refl

skip_sub_blocks_complete_example :
    (q : ℕ) × (skip_sub_blocks 5 sub_blocks 0 ≡ some q) × (drop q sub_blocks ≡ [])
skip_sub_blocks_complete_example =
    skip_sub_blocks_complete 5 sub_blocks 0
      (gif_blocks.more 2 (65 ∷ 66 ∷ []) (0 ∷ []) refl refl (omega arith) (gif_blocks.done refl))
      refl (omega arith)

-- A chunk with no body, read off the file.
empty-IsChunk :
    (a b c d : ℕ) (rest : Buffer)
    → is_chunk_type (a ∷ b ∷ c ∷ d ∷ []) ≡ true
    → a ∷ b ∷ c ∷ d ∷ [] ≡ ascii (a ∷ b ∷ c ∷ d ∷ [])
    → IsChunk (0 ∷ 0 ∷ 0 ∷ 0 ∷ a ∷ b ∷ c ∷ d ∷ 0 ∷ 0 ∷ 0 ∷ 0 ∷ rest) (a ∷ b ∷ c ∷ d ∷ []) rest
empty-IsChunk a b c d rest letters decoded = record {
  size = 0 ∷ 0 ∷ 0 ∷ 0 ∷ [];
  name = a ∷ b ∷ c ∷ d ∷ [];
  body = [];
  crc = 0 ∷ 0 ∷ 0 ∷ 0 ∷ [];
  split = refl;
  four_size = refl;
  four_name = refl;
  four_crc = refl;
  counted = refl;
  decoded = decoded;
  letters = letters;
}

second : List ℕ → ℕ
second (a ∷ b ∷ _) = b
second _ = 0

bare-IsPng : IsPng bare_png (codes "IHDR" ∷ codes "IEND" ∷ [])
unfolding is_chunk_type second
bare-IsPng = record {
  signed = refl;
  chain =
      more (empty-IsChunk 73 72 68 82 (png_chunk_of "IEND") refl refl)
        (λ e. let n : 72 ≡ 69 = ap second e in omega (arith, n))
        (last (empty-IsChunk 73 69 78 68 [] refl refl) refl);
  headed = refl;
}

scan_png_complete_example :
    scan_png bare_png ≡ some (result (png_chunks.collect [] (codes "IHDR" ∷ codes "IEND" ∷ [])))
scan_png_complete_example =
    scan_png_complete bare_png (codes "IHDR" ∷ codes "IEND" ∷ []) bare-IsPng (omega arith)
