-- ===== src/Image/Webp.antt =====
-- `scanWebp` of apps/web/lib/image-metadata.ts
pub mod Chunks
pub mod Sound
use mathlib.Core.Option
use legends_chat.Common.{
  ℕ, ◌+◌, ◌%◌, String, Bool, true, false, not, ◌&&◌, ◌||◌, Option, none, some, List, [], length,
  ltb, leb, ◌==◌, nat_eq, list_eq, if◌then◌else◌,
}
use legends_chat.Image.Bytes.{Buffer, codes, subarray, ascii, read_uint32_le, ◌>>=◌}
use legends_chat.Image.Scan.{
  MetadataScan, malformed, result, Step, reject, leave, advance, Exit, rejected, broke, ended, walk,
  max_segments, add_kind,
}

unfoldable pub webp_kind : List ℕ → Option String
webp_kind fourcc =
    if fourcc == codes "EXIF"
    then some "exif"
    else if fourcc == codes "XMP "
    then some "xmp"
    else if fourcc == codes "ICCP"
    then some "icc"
    else none

-- The loop's variables; `segs` counts the rounds, which `walk` does.
pub record WebpState : Type 0 where
  pub at : ℕ
  pub kinds : List String

-- Where the next chunk begins; a body of odd size is padded by a byte.
unfoldable pub webp_next : ℕ → ℕ → ℕ
webp_next i len = if len % 2 == 1 then i + 8 + len + 1 else i + 8 + len

unfoldable pub webp_chunk : ℕ → WebpState → List ℕ → ℕ → Step WebpState
webp_chunk end s fourcc len =
    if ltb end (webp_next s.at len) || ltb (webp_next s.at len) s.at
    then reject "webp-chunk-length"
    else advance (record { at = webp_next s.at len; kinds = add_kind (webp_kind fourcc) s.kinds })

-- `leave` where the loop's condition `i < end` fails.
unfoldable pub webp_step : Buffer → ℕ → WebpState → Option (Step WebpState)
webp_step buf end s =
    if not (ltb s.at end)
    then some (leave s)
    else if ltb end (s.at + 8)
    then some (reject "webp-truncated")
    else (do
      len ← read_uint32_le buf (s.at + 4)
      some (webp_chunk end s (ascii (subarray buf s.at (s.at + 4))) len))

unfoldable pub webp_finish : ℕ → WebpState → MetadataScan
webp_finish end s = if not (s.at == end) then malformed "webp-chunk-walk" else result s.kinds

unfoldable pub webp_exit : ℕ → Exit WebpState → MetadataScan
webp_exit end (rejected reason) = malformed reason
webp_exit end (broke s) = webp_finish end s
webp_exit end (ended s) = webp_finish end s

abbrev pub webp_start : WebpState
webp_start = record { at = 12; kinds = [] }

unfoldable pub webp_body : Buffer → ℕ → Option MetadataScan
webp_body buf riff_size =
    if ltb riff_size 4 || ltb (length buf) (8 + riff_size)
    then some (malformed "webp-riff-size")
    else Option.map (webp_exit (8 + riff_size))
        (walk max_segments (webp_step buf (8 + riff_size)) webp_start)

unfoldable pub scan_webp : Buffer → Option MetadataScan
scan_webp buf =
    if ltb (length buf) 12
    then some (malformed "webp-truncated")
    else if not (ascii (subarray buf 0 4) == codes "RIFF")
    then some (malformed "webp-signature")
    else if not (ascii (subarray buf 8 12) == codes "WEBP")
    then some (malformed "webp-signature")
    else (do riff_size ← read_uint32_le buf 4; webp_body buf riff_size)
