-- ===== src/Image/Gif.antt =====
-- `scanGif` of apps/web/lib/image-metadata.ts
pub mod Blocks
pub mod Rounds
pub mod Sound
use mathlib.Core.Option
use legends_chat.Common.{
  ℕ, zero, suc, ◌+◌, ◌*◌, ◌/◌, ◌%◌, ◌^◌, String, Bool, true, false, not, ◌&&◌, ◌||◌, Option, none,
  some, List, [], ◌∷◌, length, take, get_elem?, ltb, leb, includes, ◌==◌, nat_eq, list_eq,
  if◌then◌else◌,
}
use legends_chat.Image.Bytes.{Buffer, codes, subarray, ascii, ◌>>=◌}
use legends_chat.Image.Scan.{
  MetadataScan, malformed, result, Step, reject, leave, advance, Exit, rejected, broke, ended, walk,
  add_kind,
}

abbrev pub benign_gif_apps : List (List ℕ)
benign_gif_apps = codes "NETSCAPE2.0" ∷ codes "ANIMEXTS1.0" ∷ []

-- The colour table that a packed field announces: `if (packed & 0x80) 3 * (1 << ((packed & 7) + 1))`.
unfoldable pub table_size : ℕ → ℕ
table_size packed = if packed / 128 % 2 == 1 then 3 * 2 ^ (packed % 8 + 1) else 0

-- `skipSubBlocks`, over fuel; `none` is its -1.
unfoldable pub skip_sub_blocks : ℕ → Buffer → ℕ → Option ℕ
skip_sub_blocks zero buf p = none
skip_sub_blocks (suc fuel) buf p = elim (get_elem? buf p) [
  | none ↦ none
  | some zero ↦ some (p + 1)
  | some (suc n) ↦ elim (ltb (length buf) (p + 1 + suc n)) [
    | true ↦ none
    | false ↦ skip_sub_blocks fuel buf (p + 1 + suc n)
  ]
]

-- `appId.startsWith(text)`
abbrev starts_with : List ℕ → List ℕ → Bool
starts_with id text = take (length text) id == text

unfoldable pub app_kind : List ℕ → Option String
app_kind id =
    if starts_with id (codes "XMP Data")
    then some "xmp"
    else if starts_with id (codes "ICCRGBG1")
    then some "icc"
    else if not (includes id benign_gif_apps)
    then some "application"
    else none

-- The kind of an extension that is no application extension, by its label.
unfoldable pub label_kind : ℕ → Option String
label_kind label =
    if label == 0xfe
    then some "comment"
    else if label == 0x01
    then some "plaintext"
    else if not (label == 0xf9)
    then some "extension"
    else none

-- The loop's variables; `blocks` counts the rounds, which `walk` does.
pub record GifState : Type 0 where
  pub at : ℕ
  pub kinds : List String

-- `p = skipSubBlocks(p); if (p < 0) return malformed(…); i = p;`
unfoldable pub past_sub_blocks : Buffer → ℕ → List String → Step GifState
past_sub_blocks buf p kinds = elim (skip_sub_blocks (suc (length buf)) buf p) [
  | none ↦ reject "gif-subblocks"
  | some q ↦ advance (record { at = q; kinds = kinds })
]

-- An application extension, whose identifier's length stands at `p`.
unfoldable pub gif_application : Buffer → GifState → ℕ → Option (Step GifState)
gif_application buf s p = if leb (length buf) p then some (reject "gif-truncated") else (do
  id_len ← get_elem? buf p
  some (
      if ltb (length buf) (p + 1 + id_len)
      then reject "gif-truncated"
      else past_sub_blocks buf p
          (add_kind (app_kind (ascii (subarray buf (p + 1) (p + 1 + id_len)))) s.kinds)))

-- The block at an extension introducer, 0x21.
unfoldable pub gif_labelled : Buffer → GifState → ℕ → Option (Step GifState)
gif_labelled buf s label =
    if label == 0xff
    then gif_application buf s (s.at + 2)
    else some (past_sub_blocks buf (s.at + 2) (add_kind (label_kind label) s.kinds))

unfoldable pub gif_extension : Buffer → GifState → Option (Step GifState)
gif_extension buf s =
    if ltb (length buf) (s.at + 2)
    then some (reject "gif-truncated")
    else (get_elem? buf (s.at + 1) >>= gif_labelled buf s)

-- The block at an image descriptor, 0x2c.
unfoldable pub gif_image : Buffer → GifState → Option (Step GifState)
gif_image buf s = if ltb (length buf) (s.at + 10) then some (reject "gif-truncated") else (do
  lpacked ← get_elem? buf (s.at + 9)
  let p = s.at + 10 + table_size lpacked + 1
  some (if ltb (length buf) p then reject "gif-truncated" else past_sub_blocks buf p s.kinds))

unfoldable pub gif_block : Buffer → GifState → ℕ → Option (Step GifState)
gif_block buf s introducer =
    if introducer == 0x3b
    then some (leave s)
    else if introducer == 0x21
    then gif_extension buf s
    else if introducer == 0x2c
    then gif_image buf s
    else some (reject "gif-block-introducer")

unfoldable pub gif_step : Buffer → GifState → Option (Step GifState)
gif_step buf s =
    if leb (length buf) s.at
    then some (reject "gif-truncated")
    else (get_elem? buf s.at >>= gif_block buf s)

unfoldable pub gif_exit : Exit GifState → MetadataScan
gif_exit (rejected reason) = malformed reason
gif_exit (broke s) = result s.kinds
gif_exit (ended s) = malformed "gif-no-trailer"

unfoldable pub is_gif_sig : List ℕ → Bool
is_gif_sig sig = sig == codes "GIF87a" || sig == codes "GIF89a"

unfoldable pub scan_gif : Buffer → Option MetadataScan
scan_gif buf =
    if ltb (length buf) 13
    then some (malformed "gif-truncated")
    else if not (is_gif_sig (ascii (subarray buf 0 6)))
    then some (malformed "gif-signature")
    else (do
      packed ← get_elem? buf 10
      Option.map gif_exit
          (walk (length buf) (gif_step buf) (record { at = 13 + table_size packed; kinds = [] })))
