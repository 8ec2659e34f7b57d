-- ===== src/Image/Png/Chunks.antt =====
-- The PNG container as a chain of chunks, and what a chunk reads as.
use legends_chat.Common.{
  ℕ, ◌+◌, ◌-◌, ◌≤◌, String, ◌≡◌, ◌≢◌, refl, sym, ap, ◌∙◌, true, some, List, [], ◌∷◌, ◌++◌, length,
  take, drop, nat_eq, list_eq, arith, take-append-drop, drop-drop, length-take, length-drop,
  length-append, take-append, drop-append,
}
use legends_chat.Image.Bytes.{Buffer, codes, subarray, ascii, be32, read_uint32_be}
use legends_chat.Image.Scan.{add_kind}
use legends_chat.Image.Png.{png_sig, is_chunk_type, png_kind}

-- One chunk at the front of `bytes`: size, name, body and checksum. `type` is the name as decoded.
pub record IsChunk (bytes : Buffer) (type : List ℕ) (rest : Buffer) : Type 0 where
  pub size : Buffer
  pub name : Buffer
  pub body : Buffer
  pub crc : Buffer
  pub split : bytes ≡ size ++ (name ++ (body ++ (crc ++ rest)))
  pub four_size : length size ≡ 4
  pub four_name : length name ≡ 4
  pub four_crc : length crc ≡ 4
  pub counted : be32 size ≡ some (length body)
  pub decoded : type ≡ ascii name
  pub letters : is_chunk_type type ≡ true

-- A chain of chunks that ends with the first IEND, and the types in it.
pub data Chunks : Buffer → List (List ℕ) → Type 0 where
  last :
      {bytes type rest : List ℕ}
      → IsChunk bytes type rest
      → type ≡ codes "IEND"
      → Chunks bytes (type ∷ [])
  more :
      {bytes type rest : List ℕ} {types : List (List ℕ)}
      → IsChunk bytes type rest
      → type ≢ codes "IEND"
      → Chunks rest types
      → Chunks bytes (type ∷ types)

body_split : (len : ℕ) (r : Buffer) → r ≡ take len r ++ (take 4 (drop len r) ++ drop 4 (drop len r))
body_split len r =
    sym (ap (λ l. take len r ++ l) (take-append-drop 4 (drop len r)) ∙ take-append-drop len r)

-- A chunk that the scan reads lies there.
read-IsChunk :
    (bytes : Buffer) (len : ℕ)
    → 12 + len ≤ length bytes
    → be32 bytes ≡ some len
    → is_chunk_type (ascii (take 4 (drop 4 bytes))) ≡ true
    → IsChunk bytes (ascii (take 4 (drop 4 bytes))) (drop 4 (drop len (drop 8 bytes)))
read-IsChunk (a ∷ b ∷ c ∷ d ∷ e ∷ f ∷ g ∷ h ∷ r) len fits counted letters = record {
  size = a ∷ b ∷ c ∷ d ∷ [];
  name = e ∷ f ∷ g ∷ h ∷ [];
  body = take len r;
  crc = take 4 (drop len r);
  split = ap (λ l. a ∷ b ∷ c ∷ d ∷ e ∷ f ∷ g ∷ h ∷ l) (body_split len r);
  four_size = refl;
  four_name = refl;
  four_crc = omega (arith, length-take 4 (drop len r), length-drop len r);
  counted = counted ∙ ap some (omega (arith, length-take len r));
  decoded = refl;
  letters = letters;
}
read-IsChunk _ len fits counted letters = absurd (omega arith)

-- The same at a position of the buffer.
pub name_at : (buf : Buffer) (i : ℕ) → subarray buf (i + 4) (i + 8) ≡ take 4 (drop 4 (drop i buf))
name_at buf i =
    ap (λ k. take k (drop (i + 4) buf)) (let e : i + 8 - (i + 4) ≡ 4 = omega arith in e)
    ∙ ap (take 4) (sym (drop-drop 4 i buf))

pub rest_at :
    (buf : Buffer) (i len : ℕ)
    → drop 4 (drop len (drop 8 (drop i buf))) ≡ drop (i + 8 + len + 4) buf
rest_at buf i len =
    ap (λ l. drop 4 (drop len l)) (drop-drop 8 i buf)
    ∙ ap (drop 4) (drop-drop len (i + 8) buf)
    ∙ drop-drop 4 (i + 8 + len) buf

pub IsChunk-at :
    (buf : Buffer) (i len : ℕ)
    → i + 8 + len + 4 ≤ length buf
    → read_uint32_be buf i ≡ some len
    → is_chunk_type (ascii (subarray buf (i + 4) (i + 8))) ≡ true
    → IsChunk (drop i buf) (ascii (subarray buf (i + 4) (i + 8))) (drop (i + 8 + len + 4) buf)
IsChunk-at buf i len fits counted letters =
    rw (name_at buf i, ← rest_at buf i len)
      (read-IsChunk (drop i buf) len (omega (arith, length-drop i buf)) counted
        (rw (name_at buf i) at letters))

-- The kinds that a chain's types add to those found before, in order and without repetition.
unfoldable pub collect : List String → List (List ℕ) → List String
collect kinds [] = kinds
collect kinds (type ∷ types) = collect (add_kind (png_kind type) kinds) types

abbrev pub IsHeaded : List (List ℕ) → Type 0
IsHeaded [] = ⊥
IsHeaded (type ∷ _) = type ≡ codes "IHDR"

-- A PNG file: the signature, and a chain of chunks that begins with IHDR.
pub record IsPng (buf : Buffer) (types : List (List ℕ)) : Type 0 where
  pub signed : take 8 buf ≡ png_sig
  pub chain : Chunks (drop 8 buf) types
  pub headed : IsHeaded types

-- Reading a chunk back.
be32-append : (xs ys : Buffer) → length xs ≡ 4 → be32 (xs ++ ys) ≡ be32 xs
be32-append (a ∷ b ∷ c ∷ d ∷ []) ys h = refl
be32-append (a ∷ b ∷ c ∷ d ∷ e ∷ xs) ys h = absurd (omega arith)
be32-append _ ys h = absurd (omega arith)

drop_past : (n : ℕ) (xs ys : Buffer) → length xs ≡ n → drop n (xs ++ ys) ≡ ys
drop_past n xs ys h = rw (← h) (drop-append xs ys)

take_past : (n : ℕ) (xs ys : Buffer) → length xs ≡ n → take n (xs ++ ys) ≡ xs
take_past n xs ys h = rw (← h) (take-append xs ys)

module _ {bytes type rest : List ℕ} (c : IsChunk bytes type rest) where
  pub chunk_size : be32 bytes ≡ some (length c.body)
  chunk_size = ap be32 c.split ∙ be32-append c.size _ c.four_size ∙ c.counted

  after_size : drop 4 bytes ≡ c.name ++ (c.body ++ (c.crc ++ rest))
  after_size = ap (drop 4) c.split ∙ drop_past 4 c.size _ c.four_size

  after_name : drop 8 bytes ≡ c.body ++ (c.crc ++ rest)
  after_name = sym (drop-drop 4 4 bytes) ∙ ap (drop 4) after_size ∙ drop_past 4 c.name _ c.four_name

  pub chunk_type : ascii (take 4 (drop 4 bytes)) ≡ type
  chunk_type =
      ap (λ l. ascii (take 4 l)) after_size
      ∙ ap ascii (take_past 4 c.name _ c.four_name)
      ∙ sym c.decoded

  pub chunk_rest : drop 4 (drop (length c.body) (drop 8 bytes)) ≡ rest
  chunk_rest =
      ap (λ l. drop 4 (drop (length c.body) l)) after_name
      ∙ ap (drop 4) (drop-append c.body (c.crc ++ rest))
      ∙ drop_past 4 c.crc rest c.four_crc

  pub chunk_length : length bytes ≡ 12 + length c.body + length rest
  chunk_length =
      ap length c.split
      ∙ omega (
        arith,
        length-append c.size (c.name ++ (c.body ++ (c.crc ++ rest))),
        length-append c.name (c.body ++ (c.crc ++ rest)),
        length-append c.body (c.crc ++ rest),
        length-append c.crc rest,
        c.four_size,
        c.four_name,
        c.four_crc,
      )
