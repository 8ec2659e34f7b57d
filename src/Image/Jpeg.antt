-- ===== src/Image/Jpeg.antt =====
-- `scanJpeg` of apps/web/lib/image-metadata.ts
pub mod Segments
pub mod Sound
use mathlib.Core.Option
use legends_chat.Common.{
  ℕ, zero, suc, ◌+◌, String, Bool, true, false, not, ◌&&◌, ◌||◌, Option, none, some, List, [], ◌∷◌,
  ◌++◌, length, take, get_elem?, ltb, leb, ◌==◌, nat_eq, list_eq, if◌then◌else◌,
}
use legends_chat.Image.Bytes.{Buffer, codes, subarray, ascii, byte_is, read_uint16_be, ◌>>=◌}
use legends_chat.Image.Scan.{
  MetadataScan, malformed, result, Step, reject, leave, advance, Exit, rejected, broke, ended, walk,
  max_segments, add_kind,
}

-- `while (m === 0xff && i + 1 < buf.length) { i++; m = buf[i + 1]; }`, over fuel.
unfoldable pub skip_fill : ℕ → Buffer → ℕ → Option ℕ → ℕ × Option ℕ
skip_fill zero buf i m = (i, m)
skip_fill (suc fuel) buf i m =
    let rest = skip_fill fuel buf (i + 1) (get_elem? buf (i + 1 + 1)) in
    if byte_is m 0xff && ltb (i + 1) (length buf) then rest else (i, m)

-- Markers that stand alone, with no length and payload.
unfoldable pub is_standalone : ℕ → Bool
is_standalone m = m == 0xd8 || m == 0xd9 || leb 0xd0 m && leb m 0xd7 || m == 0x01

-- `ascii(payload, n) === text`, where the payload is long enough.
abbrev starts : Buffer → ℕ → List ℕ → Bool
starts payload n text = leb n (length payload) && ascii (take n payload) == text

unfoldable pub app1_kind : Buffer → Option String
app1_kind payload =
    if starts payload 6 (codes "Exif" ++ 0 ∷ 0 ∷ [])
    then some "exif"
    else if leb 29 (length payload)
        && ascii (take 28 payload) == codes "http://ns.adobe.com/xap/1.0/"
        && byte_is (get_elem? payload 28) 0
    then some "xmp"
    else if starts payload 35 (codes "http://ns.adobe.com/xmp/extension/" ++ 0 ∷ [])
    then some "xmp"
    else none

unfoldable pub app2_kind : Buffer → Option String
app2_kind payload =
    if leb 12 (length payload)
      && ascii (take 11 payload) == codes "ICC_PROFILE"
      && byte_is (get_elem? payload 11) 0
    then some "icc"
    else if starts payload 4 (codes "MPF" ++ 0 ∷ [])
    then some "mpf"
    else none

unfoldable pub app13_kind : Buffer → Option String
app13_kind payload =
    if leb 14 (length payload)
      && ascii (take 13 payload) == codes "Photoshop 3.0"
      && byte_is (get_elem? payload 13) 0
    then some "iptc"
    else none

-- The kind of metadata in a segment, by its marker.
unfoldable pub segment_kind : ℕ → Buffer → Option String
segment_kind m payload =
    if m == 0xe1
    then app1_kind payload
    else if m == 0xe2
    then app2_kind payload
    else if m == 0xed
    then app13_kind payload
    else if m == 0xfe
    then some "comment"
    else if leb 0xe4 m && leb m 0xec
    then some "appdata"
    else none

-- The loop's variables; `segs` counts the rounds, which `walk` does.
pub record JpegState : Type 0 where
  pub at : ℕ
  pub kinds : List String

-- The end of a round, at a marker `m` with its length.
unfoldable pub jpeg_segment : Buffer → JpegState → ℕ → ℕ → ℕ → Step JpegState
jpeg_segment buf s i m len =
    if ltb len 2 || ltb (length buf) (i + 2 + len)
    then reject "jpeg-segment-length"
    else advance (record {
      at = i + 2 + len;
      kinds = add_kind (segment_kind m (subarray buf (i + 4) (i + 2 + len))) s.kinds;
    })

-- The round from the marker on, which stands at `i + 1`.
unfoldable pub jpeg_marker : Buffer → JpegState → ℕ → ℕ → Option (Step JpegState)
jpeg_marker buf s i m =
    if is_standalone m
    then some (advance (record s { at = i + 2 }))
    else if m == 0xda
    then some (leave (record s { at = i }))
    else if ltb (length buf) (i + 4)
    then some (reject "jpeg-truncated")
    else (do len ← read_uint16_be buf (i + 2); some (jpeg_segment buf s i m len))

abbrev pub at_marker : Buffer → JpegState → ℕ × Option ℕ → Option (Step JpegState)
at_marker buf s (i, none) = some (reject "jpeg-truncated")
at_marker buf s (i, some m) = jpeg_marker buf s i m

unfoldable pub jpeg_step : Buffer → JpegState → Option (Step JpegState)
jpeg_step buf s =
    if leb (length buf) (s.at + 1)
    then some (reject "jpeg-truncated")
    else if not (byte_is (get_elem? buf s.at) 0xff)
    then some (reject "jpeg-marker-desync")
    else at_marker buf s (skip_fill (length buf) buf s.at (get_elem? buf (s.at + 1)))

unfoldable pub jpeg_exit : Exit JpegState → MetadataScan
jpeg_exit (rejected reason) = malformed reason
jpeg_exit (broke s) = result s.kinds
jpeg_exit (ended s) = malformed "jpeg-no-sos"

abbrev pub jpeg_start : JpegState
jpeg_start = record { at = 2; kinds = [] }

unfoldable pub is_jpeg : Buffer → Bool
is_jpeg buf =
    leb 4 (length buf)
    && byte_is (get_elem? buf 0) 0xff
    && byte_is (get_elem? buf 1) 0xd8
    && byte_is (get_elem? buf 2) 0xff

unfoldable pub scan_jpeg : Buffer → Option MetadataScan
scan_jpeg buf =
    if not (is_jpeg buf)
    then some (malformed "jpeg-signature")
    else Option.map jpeg_exit (walk max_segments (jpeg_step buf) jpeg_start)
