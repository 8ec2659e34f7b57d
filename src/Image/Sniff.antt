-- ===== src/Image/Sniff.antt =====
-- `sniffImageMime` and `hasImageMetadata` of apps/web/lib/image-metadata.ts
use legends_chat.Common.{
  String, Bool, ◌&&◌, Option, none, some, length, get_elem?, leb, ◌==◌, list_eq, string_eq,
  if◌then◌else◌,
}
use legends_chat.Image.Bytes.{Buffer, codes, subarray, ascii, byte_is}
use legends_chat.Image.Scan.{MetadataScan, malformed}
use legends_chat.Image.Jpeg.{scan_jpeg}
use legends_chat.Image.Png.{png_sig, scan_png}
use legends_chat.Image.Webp.{scan_webp}
use legends_chat.Image.Gif.{is_gif_sig, scan_gif}

unfoldable pub is_jpeg_head : Buffer → Bool
is_jpeg_head buf =
    leb 3 (length buf)
    && byte_is (get_elem? buf 0) 0xff
    && byte_is (get_elem? buf 1) 0xd8
    && byte_is (get_elem? buf 2) 0xff

unfoldable pub is_png_head : Buffer → Bool
is_png_head buf = leb 8 (length buf) && subarray buf 0 8 == png_sig

unfoldable pub is_gif_head : Buffer → Bool
is_gif_head buf = leb 6 (length buf) && is_gif_sig (ascii (subarray buf 0 6))

unfoldable pub is_webp_head : Buffer → Bool
is_webp_head buf =
    leb 12 (length buf)
    && ascii (subarray buf 0 4) == codes "RIFF"
    && ascii (subarray buf 8 12) == codes "WEBP"

unfoldable pub sniff_image_mime : Buffer → Option String
sniff_image_mime buf =
    if is_jpeg_head buf
    then some "image/jpeg"
    else if is_png_head buf
    then some "image/png"
    else if is_gif_head buf
    then some "image/gif"
    else if is_webp_head buf
    then some "image/webp"
    else none

-- The `switch` inside the `try`; `none` is an exception.
unfoldable pub scan_by_mime : Buffer → String → Option MetadataScan
scan_by_mime buf mime =
    if mime == "image/jpeg"
    then scan_jpeg buf
    else if mime == "image/png"
    then scan_png buf
    else if mime == "image/webp"
    then scan_webp buf
    else if mime == "image/gif"
    then scan_gif buf
    else some (malformed "unsupported-container")

abbrev pub or_parse_error : Option MetadataScan → MetadataScan
or_parse_error none = malformed "parse-error"
or_parse_error (some r) = r

unfoldable pub has_image_metadata : Buffer → String → MetadataScan
has_image_metadata buf mime = or_parse_error (scan_by_mime buf mime)
