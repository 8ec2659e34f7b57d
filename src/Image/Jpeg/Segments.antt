-- ===== src/Image/Jpeg/Segments.antt =====
-- The JPEG header as a chain of marker segments up to the start of scan, and how the walker's
-- reads see it.
use legends_chat.Common.{
  ℕ, zero, suc, ◌+◌, ◌*◌, ◌≤◌, String, ◌≡◌, ◌≢◌, refl, sym, ap, ◌∙◌, inl, inr, true, false, ◌&&◌,
  ◌↔◌, Option, none, some, List, [], ◌∷◌, ◌++◌, length, drop, get_elem?, ltb, nat_eq, arith,
  Bool-cases, drop-cons, lt_of_get_elem?, get_elem?-none,
}
use legends_chat.Image.Bytes.{Buffer, byte_is}
use legends_chat.Image.Scan.{add_kind}
use legends_chat.Image.Jpeg.{skip_fill, is_standalone, segment_kind}

-- `n` fill bytes before `rest`.
abbrev pub fill : ℕ → Buffer → Buffer
fill zero rest = rest
fill (suc n) rest = 0xff ∷ fill n rest

-- A marker at the front of `bytes`: 0xff once or more, and the marker's byte.
pub record IsMarked (bytes : Buffer) (m : ℕ) (rest : Buffer) : Type 0 where
  pub fills : ℕ
  pub split : bytes ≡ 0xff ∷ fill fills (m ∷ rest)
  pub marker : m ≢ 0xff

-- A segment that has a length: two bytes that count themselves and the payload.
pub record IsSegment (bytes : Buffer) (m : ℕ) (payload rest : Buffer) : Type 0 where
  pub hi : ℕ
  pub lo : ℕ
  pub marked : IsMarked bytes m (hi ∷ lo ∷ (payload ++ rest))
  pub counted : hi * 256 + lo ≡ length payload + 2
  pub carries : is_standalone m ≡ false
  pub unscanned : m ≢ 0xda

-- The chain up to the first start of scan (0xda), with the markers and payloads in it.
pub data Segments : Buffer → List (ℕ × Buffer) → Type 0 where
  scan : {bytes rest : Buffer} → IsMarked bytes 0xda rest → Segments bytes []
  bare :
      {bytes rest : Buffer} {m : ℕ} {found : List (ℕ × Buffer)}
      → IsMarked bytes m rest
      → is_standalone m ≡ true
      → Segments rest found
      → Segments bytes ((m, []) ∷ found)
  segment :
      {bytes payload rest : Buffer} {m : ℕ} {found : List (ℕ × Buffer)}
      → IsSegment bytes m payload rest
      → Segments rest found
      → Segments bytes ((m, payload) ∷ found)

-- The kinds of metadata that the segments add to those found before.
unfoldable pub collect : List String → List (ℕ × Buffer) → List String
collect kinds [] = kinds
collect kinds ((m, payload) ∷ found) = collect (add_kind (segment_kind m payload) kinds) found

-- What the loop over fill bytes finds from index `i`.
pub record Skips (buf : Buffer) (i : ℕ) (m : Option ℕ) (found : ℕ × Option ℕ) : Type 0 where
  pub fills : ℕ
  pub here : found.0 ≡ i + fills
  pub byte : found.1 ≡ get_elem? buf (i + fills + 1)
  pub ends : found.1 ≢ some 0xff
  pub passed : drop (i + 1) buf ≡ fill fills (drop (i + fills + 1) buf)

pub byte_is_iff : (m : Option ℕ) (b : ℕ) → (byte_is m b ≡ true) ↔ (m ≡ some b)
byte_is_iff none b = ground arith
byte_is_iff (some a) b = ground arith

move : (buf : Buffer) {i j : ℕ} → i ≡ j → get_elem? buf i ≡ get_elem? buf j
move buf e = ap (get_elem? buf) e

pub slide : (buf : Buffer) {i j : ℕ} → i ≡ j → drop i buf ≡ drop j buf
slide buf e = ap (λ k. drop k buf) e

pub skip_fill-Skips :
    (fuel : ℕ) (buf : Buffer) (i : ℕ) (m : Option ℕ)
    → m ≡ get_elem? buf (i + 1)
    → length buf ≤ fuel + (i + 1)
    → Skips buf i m (skip_fill fuel buf i m)
unfolding skip_fill
skip_fill-Skips zero buf i m e enough = record {
  fills = 0;
  here = omega arith;
  byte = e ∙ move buf (omega arith);
  ends = ground (arith, get_elem?-none buf (i + 1));
  passed = slide buf (omega arith);
}
skip_fill-Skips (suc fuel) buf i m e enough =
    elim (Bool-cases (byte_is m 0xff && ltb (i + 1) (length buf))) [
      | inr stop ↦ rw stop (record {
        fills = 0;
        here = omega arith;
        byte = e ∙ move buf (omega arith);
        ends =
            λ full. ground (arith, byte_is_iff m 0xff, lt_of_get_elem? buf (i + 1) (sym e ∙ full));
        passed = slide buf (omega arith);
      })
      | inl on ↦
          let full : m ≡ some 0xff = ground (arith, byte_is_iff m 0xff) in
          let rest =
            skip_fill-Skips fuel buf (i + 1) (get_elem? buf (i + 1 + 1)) refl (omega arith) in
          rw on (record {
            fills = suc rest.fills;
            here = rest.here ∙ omega arith;
            byte = rest.byte ∙ move buf (omega arith);
            ends = rest.ends;
            passed =
                drop-cons (i + 1) buf (sym e ∙ full)
                ∙ ap (λ l. 0xff ∷ l)
                    (slide buf {i = suc (i + 1)} (omega arith)
                      ∙ rest.passed
                      ∙ ap (fill rest.fills) (slide buf (omega arith)));
          })
    ]

-- The marker that a round of the walker reads is marked in the buffer.
pub marker_at :
    (buf : Buffer) (i i' m : ℕ)
    → get_elem? buf i ≡ some 0xff
    → Skips buf i (get_elem? buf (i + 1)) (i', some m)
    → IsMarked (drop i buf) m (drop (i' + 2) buf)
marker_at buf i i' m first found = record {
  fills = found.fills;
  split =
      drop-cons i buf first
      ∙ ap (λ l. 0xff ∷ l)
          (slide buf {i = suc i} (omega arith)
            ∙ found.passed
            ∙ ap (fill found.fills) (
                drop-cons (i + found.fills + 1) buf (sym found.byte)
                ∙ ap (λ l. m ∷ l)
                    (slide buf {i = suc (i + found.fills + 1)} (omega (arith, found.here)))));
  marker = λ e. found.ends (ap some e);
}
