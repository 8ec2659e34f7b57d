-- ===== src/Image/Png.antt =====
-- `scanPng` of apps/web/lib/image-metadata.ts
pub mod Chunks
pub mod Sound
pub mod Complete
use mathlib.Core.Option
use legends_chat.Common.{
  ℕ, ◌+◌, String, Bool, true, false, not, ◌&&◌, ◌||◌, Option, none, some, List, [], ◌∷◌, length,
  ltb, leb, ◌==◌, nat_eq, list_eq, if◌then◌else◌,
}
use legends_chat.Image.Bytes.{Buffer, codes, subarray, ascii, read_uint32_be, ◌>>=◌}
use legends_chat.Image.Scan.{
  MetadataScan, malformed, result, Step, reject, leave, advance, Exit, rejected, broke, ended, walk,
  max_segments, add_kind,
}

abbrev pub png_sig : List ℕ
png_sig = 0x89 ∷ 0x50 ∷ 0x4e ∷ 0x47 ∷ 0x0d ∷ 0x0a ∷ 0x1a ∷ 0x0a ∷ []

abbrev is_letter : ℕ → Bool
is_letter c = leb b'A' c && leb c b'Z' || leb b'a' c && leb c b'z'

-- /^[A-Za-z]{4}$/
unfoldable pub is_chunk_type : List ℕ → Bool
is_chunk_type (a ∷ b ∷ c ∷ d ∷ []) = is_letter a && is_letter b && is_letter c && is_letter d
is_chunk_type _ = false

-- The metadata that a chunk of this type carries.
unfoldable pub png_kind : List ℕ → Option String
png_kind type =
    if type == codes "tEXt"
    then some "text"
    else if type == codes "zTXt"
    then some "ztxt"
    else if type == codes "iTXt"
    then some "itxt"
    else if type == codes "eXIf"
    then some "exif"
    else if type == codes "iCCP"
    then some "icc"
    else none

-- The loop's variables.
pub record PngState : Type 0 where
  pub at : ℕ
  pub segs : ℕ
  pub kinds : List String
  pub saw_ihdr : Bool

-- A round of the loop, once the chunk's length and type are read.
unfoldable pub png_chunk : Buffer → PngState → ℕ → List ℕ → Step PngState
png_chunk buf s len type =
    if not (is_chunk_type type)
    then reject "png-chunk-type"
    else if ltb (length buf) (s.at + 8 + len + 4) || ltb (s.at + 8 + len + 4) s.at
    then reject "png-chunk-length"
    else if s.segs == 0 && not (type == codes "IHDR")
    then reject "png-no-ihdr"
    else if type == codes "IEND"
    then leave (record s {
      kinds = add_kind (png_kind type) s.kinds;
      saw_ihdr = s.saw_ihdr || s.segs == 0;
    })
    else advance (record {
      at = s.at + 8 + len + 4;
      segs = s.segs + 1;
      kinds = add_kind (png_kind type) s.kinds;
      saw_ihdr = s.saw_ihdr || s.segs == 0;
    })

unfoldable pub png_step : Buffer → PngState → Option (Step PngState)
png_step buf s = if ltb (length buf) (s.at + 8) then some (reject "png-truncated") else (do
  len ← read_uint32_be buf s.at
  some (png_chunk buf s len (ascii (subarray buf (s.at + 4) (s.at + 8)))))

unfoldable pub png_finish : Bool → PngState → MetadataScan
png_finish saw_iend s =
    if not s.saw_ihdr || not saw_iend then malformed "png-incomplete" else result s.kinds

unfoldable pub png_exit : Exit PngState → MetadataScan
png_exit (rejected reason) = malformed reason
png_exit (broke s) = png_finish true s
png_exit (ended s) = png_finish false s

abbrev pub png_start : PngState
png_start = record { at = 8; segs = 0; kinds = []; saw_ihdr = false }

unfoldable pub scan_png : Buffer → Option MetadataScan
scan_png buf =
    if ltb (length buf) 8 || not (subarray buf 0 8 == png_sig)
    then some (malformed "png-signature")
    else Option.map png_exit (walk max_segments (png_step buf) png_start)
