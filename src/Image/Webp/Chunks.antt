-- ===== src/Image/Webp/Chunks.antt =====
-- The body of a WebP's RIFF container as a chain of chunks.
use legends_chat.Common.{
  ℕ, zero, suc, ◌+◌, ◌-◌, ◌%◌, ◌≤◌, String, ◌≡◌, refl, sym, ap, ◌∙◌, some, List, [], ◌∷◌, ◌++◌,
  length, take, drop, arith, nat_eq, take-append-drop, drop-drop, length-take, length-drop,
  take-take,
}
use legends_chat.Image.Bytes.{Buffer, subarray, ascii, le32, read_uint32_le}
use legends_chat.Image.Scan.{add_kind}
use legends_chat.Image.Webp.{webp_kind, webp_next}

-- A chunk at the front of `bytes`: name, size, body, and a byte of padding if the size is odd.
pub record IsChunk (bytes : Buffer) (fourcc : List ℕ) (rest : Buffer) : Type 0 where
  pub name : Buffer
  pub size : Buffer
  pub body : Buffer
  pub pad : Buffer
  pub split : bytes ≡ name ++ (size ++ (body ++ (pad ++ rest)))
  pub four_name : length name ≡ 4
  pub four_size : length size ≡ 4
  pub counted : le32 size ≡ some (length body)
  pub padded : length pad ≡ length body % 2
  pub decoded : fourcc ≡ ascii name

-- Chunks that fill `bytes`, and their names.
pub data Chunks : Buffer → List (List ℕ) → Type 0 where
  nil : {bytes : Buffer} → bytes ≡ [] → Chunks bytes []
  cons :
      {bytes fourcc rest : List ℕ} {names : List (List ℕ)}
      → IsChunk bytes fourcc rest
      → Chunks rest names
      → Chunks bytes (fourcc ∷ names)

unfoldable pub collect : List String → List (List ℕ) → List String
collect kinds [] = kinds
collect kinds (name ∷ names) = collect (add_kind (webp_kind name) kinds) names

stretch : (buf : Buffer) (i n : ℕ) → drop i buf ≡ take n (drop i buf) ++ drop (i + n) buf
stretch buf i n =
    sym (take-append-drop n (drop i buf)) ∙ ap (λ l. take n (drop i buf) ++ l) (drop-drop n i buf)

stretch_length : (buf : Buffer) (i n : ℕ) → i + n ≤ length buf → length (take n (drop i buf)) ≡ n
stretch_length buf i n fits = omega (arith, length-take n (drop i buf), length-drop i buf)

-- A read inside the first `end` bytes is a read of the buffer.
read_inside :
    (buf : Buffer) (i n end : ℕ)
    → i + n ≤ end
    → take n (drop i (take end buf)) ≡ take n (drop i buf)
read_inside buf zero n end h = take-take n end buf (omega arith)
read_inside [] (suc i) n zero h = refl
read_inside [] (suc i) n (suc end) h = refl
read_inside (x ∷ buf) (suc i) n zero h = absurd (omega arith)
read_inside (x ∷ buf) (suc i) n (suc end) h = read_inside buf i n end (omega arith)

le32-take : (bytes : Buffer) → le32 (take 4 bytes) ≡ le32 bytes
le32-take [] = refl
le32-take (a ∷ []) = refl
le32-take (a ∷ b ∷ []) = refl
le32-take (a ∷ b ∷ c ∷ []) = refl
le32-take (a ∷ b ∷ c ∷ d ∷ r) = refl

pad_size : (i len : ℕ) → webp_next i len ≡ i + 8 + len + len % 2
unfolding webp_next
pad_size i len = ground arith

-- A chunk that the walker reads in the first `end` bytes lies there.
pub IsChunk-at :
    (buf : Buffer) (end i len : ℕ)
    → end ≤ length buf
    → webp_next i len ≤ end
    → read_uint32_le buf (i + 4) ≡ some len
    → IsChunk
        (drop i (take end buf))
        (ascii (subarray buf i (i + 4)))
        (drop (webp_next i len) (take end buf))
IsChunk-at buf end i len whole fits read =
    let w = take end buf in
    let room : i + 8 + len + len % 2 ≤ end = omega (arith, pad_size i len) in
    let long : length w ≡ end = omega (arith, length-take end buf) in
    let body_size : length (take len (drop (i + 4 + 4) w)) ≡ len =
      stretch_length w (i + 4 + 4) len (omega arith) in
    record {
      name = take 4 (drop i w);
      size = take 4 (drop (i + 4) w);
      body = take len (drop (i + 4 + 4) w);
      pad = take (len % 2) (drop (i + 4 + 4 + len) w);
      split =
          stretch w i 4
          ∙ ap (λ l. take 4 (drop i w) ++ l)
              (stretch w (i + 4) 4
                ∙ ap (λ l. take 4 (drop (i + 4) w) ++ l)
                    (stretch w (i + 4 + 4) len
                      ∙ ap (λ l. take len (drop (i + 4 + 4) w) ++ l)
                          (stretch w (i + 4 + 4 + len) (len % 2)
                            ∙ ap (λ l. take (len % 2) (drop (i + 4 + 4 + len) w) ++ l)
                                (ap (λ k. drop k w) (omega (arith, pad_size i len))))));
      four_name = stretch_length w i 4 (omega arith);
      four_size = stretch_length w (i + 4) 4 (omega arith);
      counted =
          ap le32 (read_inside buf (i + 4) 4 end (omega arith))
          ∙ le32-take (drop (i + 4) buf)
          ∙ read
          ∙ ap some (sym body_size);
      padded =
          stretch_length w (i + 4 + 4 + len) (len % 2) (omega arith)
          ∙ ap (λ k. k % 2) (sym body_size);
      decoded = ap ascii (
          ap (λ k. take k (drop i buf)) (let e : i + 4 - i ≡ 4 = omega arith in e)
          ∙ sym (read_inside buf i 4 end (omega arith)));
    }
