-- ===== src/Image/Jpeg/Sound.antt =====
-- `scanJpeg` accepts chains of segments only, and reports their kinds.
use legends_chat.Common.{
  ℕ, ◌+◌, ◌-◌, ◌*◌, ◌≤◌, ◌≡◌, ◌≢◌, ◌⊎◌, refl, sym, ap, ◌∙◌, inl, inr, true, false, ◌||◌, Option,
  none, some, List, [], ◌∷◌, ◌++◌, length, take, drop, get_elem?, ltb, leb, ◌==◌, nat_eq, arith,
  Bool-cases, Option-cases, subst, take-append-drop, drop-drop, length-take, length-drop,
}
use legends_chat.Image.Bytes.{Buffer, subarray, byte_is, be16, read_uint16_be}
use legends_chat.Image.Scan.{
  MetadataScan, malformed, result, Step, reject, leave, advance, Exit, rejected, broke, ended, walk,
  walk_rule, max_segments, add_kind,
}
use legends_chat.Image.Jpeg.{
  skip_fill, is_standalone, segment_kind, JpegState, jpeg_segment, jpeg_marker, at_marker,
  jpeg_step, jpeg_exit, jpeg_start, is_jpeg, scan_jpeg,
}
use legends_chat.Image.Jpeg.Segments.{
  IsMarked, IsSegment, Segments, scan, bare, segment, collect, Skips, skip_fill-Skips, slide,
  marker_at, byte_is_iff,
}

-- What a round of the loop establishes.
abbrev Explains : Buffer → JpegState → Step JpegState → Type 0
Explains buf s (reject _) = Unit
Explains buf s (leave s') =
    (rest : Buffer) × IsMarked (drop s.at buf) 0xda rest × (s'.kinds ≡ s.kinds)
Explains buf s (advance s') =
    ((m : ℕ) × IsMarked (drop s.at buf) m (drop s'.at buf)
      × (is_standalone m ≡ true)
      × (s'.kinds ≡ s.kinds))
    ⊎ ((m : ℕ) × (payload : Buffer) × IsSegment (drop s.at buf) m payload (drop s'.at buf)
        × (s'.kinds ≡ add_kind (segment_kind m payload) s.kinds))

-- The payload of a segment, in the bytes behind its marker.
payload_split :
    (buf : Buffer) (i len hi lo : ℕ) (r : Buffer)
    → drop (i + 2) buf ≡ hi ∷ lo ∷ r
    → 2 ≤ len
    → drop (i + 2) buf ≡ hi ∷ lo ∷ (subarray buf (i + 4) (i + 2 + len) ++ drop (i + 2 + len) buf)
payload_split buf i len hi lo r e two =
    let behind : r ≡ drop (i + 4) buf =
      sym (ap (drop 2) e) ∙ drop-drop 2 (i + 2) buf ∙ slide buf (omega arith) in
    let rest : drop (i + 2 + len - (i + 4)) (drop (i + 4) buf) ≡ drop (i + 2 + len) buf =
      drop-drop (i + 2 + len - (i + 4)) (i + 4) buf ∙ slide buf (omega arith) in
    e
    ∙ ap (λ l. hi ∷ lo ∷ l)
        (behind
          ∙ sym (take-append-drop (i + 2 + len - (i + 4)) (drop (i + 4) buf))
          ∙ ap (λ l. subarray buf (i + 4) (i + 2 + len) ++ l) rest)

be16-some :
    (bytes : Buffer) (len : ℕ)
    → be16 bytes ≡ some len
    → (hi lo : ℕ) × (r : Buffer) × (bytes ≡ hi ∷ lo ∷ r) × (hi * 256 + lo ≡ len)
be16-some [] len e = cc
be16-some (a ∷ []) len e = cc
be16-some (a ∷ b ∷ r) len e = (a, b, r, refl, cc)

jpeg_segment-Explains :
    (buf : Buffer) (s : JpegState) (i m len : ℕ)
    → IsMarked (drop s.at buf) m (drop (i + 2) buf)
    → is_standalone m ≡ false
    → m ≢ 0xda
    → read_uint16_be buf (i + 2) ≡ some len
    → Explains buf s (jpeg_segment buf s i m len)
unfolding jpeg_segment
jpeg_segment-Explains buf s i m len marked carries unscanned read =
    elim (Bool-cases (ltb len 2 || ltb (length buf) (i + 2 + len))) [
      | inl bad ↦ rw bad tt
      | inr fits ↦ rw fits (
          let (hi, lo, r, split, size) = be16-some (drop (i + 2) buf) len read in
          inr (
            m,
            subarray buf (i + 4) (i + 2 + len),
            record {
              hi = hi;
              lo = lo;
              marked = rw (← payload_split buf i len hi lo r split (ground arith)) marked;
              counted =
                  size
                  ∙ ground (
                    arith,
                    length-take (i + 2 + len - (i + 4)) (drop (i + 4) buf),
                    length-drop (i + 4) buf,
                  );
              carries = carries;
              unscanned = unscanned;
            },
            refl,
          ))
    ]

jpeg_marker-Explains :
    (buf : Buffer) (s : JpegState) (i m : ℕ) (st : Step JpegState)
    → IsMarked (drop s.at buf) m (drop (i + 2) buf)
    → jpeg_marker buf s i m ≡ some st
    → Explains buf s st
unfolding jpeg_marker
jpeg_marker-Explains buf s i m st marked e = elim (Bool-cases (is_standalone m)) [
  | inl alone ↦
      subst (Explains buf s)
        (let same : advance (record s { at = i + 2 }) ≡ st = ground arith in same)
        (inl (m, marked, alone, refl))
  | inr carries ↦ elim (Bool-cases (m == 0xda)) [
    | inl sos ↦
        subst (Explains buf s) (let same : leave (record s { at = i }) ≡ st = ground arith in same)
          (drop (i + 2) buf, rw (let e : m ≡ 0xda = ground arith in e) at marked, refl)
    | inr other ↦ elim (Bool-cases (ltb (length buf) (i + 4))) [
      | inl short ↦
          subst (Explains buf s) (let same : reject "jpeg-truncated" ≡ st = ground arith in same) tt
      | inr long ↦ elim (Option-cases (read_uint16_be buf (i + 2))) [
        | inl unread ↦ absurd (ground arith)
        | inr (len, read) ↦
            subst (Explains buf s)
              (let same : jpeg_segment buf s i m len ≡ st = ground arith in same)
              (jpeg_segment-Explains buf s i m len marked carries (ground arith) read)
      ]
    ]
  ]
]

at_marker-Explains :
    (buf : Buffer) (s : JpegState) (found : ℕ × Option ℕ) (st : Step JpegState)
    → get_elem? buf s.at ≡ some 0xff
    → Skips buf s.at (get_elem? buf (s.at + 1)) found
    → at_marker buf s found ≡ some st
    → Explains buf s st
at_marker-Explains buf s (i, none) st first found e =
    subst (Explains buf s) (let same : reject "jpeg-truncated" ≡ st = cc in same) tt
at_marker-Explains buf s (i, some m) st first found e =
    jpeg_marker-Explains buf s i m st (marker_at buf s.at i m first found) e

jpeg_step-Explains :
    (buf : Buffer) (s : JpegState) (st : Step JpegState)
    → jpeg_step buf s ≡ some st
    → Explains buf s st
unfolding jpeg_step
jpeg_step-Explains buf s st e = elim (Bool-cases (leb (length buf) (s.at + 1))) [
  | inl short ↦
      subst (Explains buf s) (let same : reject "jpeg-truncated" ≡ st = ground arith in same) tt
  | inr long ↦ elim (Bool-cases (byte_is (get_elem? buf s.at) 0xff)) [
    | inr desync ↦
        subst (Explains buf s) (let same : reject "jpeg-marker-desync" ≡ st = ground arith in same)
          tt
    | inl first ↦
        let found = skip_fill (length buf) buf s.at (get_elem? buf (s.at + 1)) in
        at_marker-Explains buf s found st ((byte_is_iff _ _).0 first)
          (skip_fill-Skips (length buf) buf s.at (get_elem? buf (s.at + 1)) refl (omega arith))
          (ground arith)
  ]
]

abbrev Good : Buffer → JpegState → Exit JpegState → Type 0
Good buf s (rejected _) = Unit
Good buf s (ended _) = Unit
Good buf s (broke s') =
    (found : List (ℕ × Buffer)) × Segments (drop s.at buf) found
    × (s'.kinds ≡ collect s.kinds found)

standalone_kind : (m : ℕ) → is_standalone m ≡ true → segment_kind m [] ≡ none
unfolding is_standalone segment_kind
standalone_kind m alone = ground arith

Good-on :
    (buf : Buffer) (s s' : JpegState) (x : Exit JpegState)
    → Explains buf s (advance s')
    → Good buf s' x
    → Good buf s x
unfolding collect
Good-on buf s s' (rejected _) known good = tt
Good-on buf s s' (ended _) known good = tt
Good-on buf s s' (broke t) known (found, chain, kinds) = elim known [
  | inl (m, marked, alone, same) ↦ (
    (m, []) ∷ found,
    bare marked alone chain,
    rw (standalone_kind m alone) (kinds ∙ ap (λ k. collect k found) same),
  )
  | inr (m, payload, seg, same) ↦
      ((m, payload) ∷ found, segment seg chain, kinds ∙ ap (λ k. collect k found) same)
]

walk-Good :
    (buf : Buffer) (n : ℕ) (s : JpegState) (x : Exit JpegState)
    → walk n (jpeg_step buf) s ≡ some x
    → Good buf s x
unfolding collect
walk-Good buf =
    walk_rule (Good buf) (jpeg_step buf) (λ s. tt) (λ s reason e. tt)
      (λ s s' e.
        let (rest, marked, same) = jpeg_step-Explains buf s (leave s') e in ([], scan marked, same))
      (λ s s' x e good. Good-on buf s s' x (jpeg_step-Explains buf s (advance s') e) good)

-- A JPEG header: the start of image, and a chain of segments up to the start of scan.
pub record IsJpeg (buf : Buffer) (found : List (ℕ × Buffer)) : Type 0 where
  pub started : take 2 buf ≡ 0xff ∷ 0xd8 ∷ []
  pub chain : Segments (drop 2 buf) found

exit_sound :
    (buf : Buffer) (s : JpegState) (x : Exit JpegState) (r : MetadataScan)
    → Good buf s x
    → jpeg_exit x ≡ r
    → r.malformed ≡ false
    → (found : List (ℕ × Buffer)) × Segments (drop s.at buf) found
      × (r ≡ result (collect s.kinds found))
unfolding jpeg_exit malformed
exit_sound buf s (rejected reason) r good e fine = absurd (ground arith)
exit_sound buf s (ended _) r good e fine = absurd (ground arith)
exit_sound buf s (broke t) r (found, chain, kinds) e fine = (found, chain, sym e ∙ ap result kinds)

start_of_image : (buf : Buffer) → is_jpeg buf ≡ true → take 2 buf ≡ 0xff ∷ 0xd8 ∷ []
unfolding is_jpeg
start_of_image (a ∷ b ∷ r) h = ground (arith, byte_is_iff (some a) 0xff, byte_is_iff (some b) 0xd8)
start_of_image [] h = ground arith
start_of_image (a ∷ []) h = ground arith

-- A report of `scanJpeg` that is not "malformed" describes a JPEG header, and lists the kinds of
-- metadata of its segments.
pub scan_jpeg_sound :
    (buf : Buffer) (r : MetadataScan)
    → scan_jpeg buf ≡ some r
    → r.malformed ≡ false
    → (found : List (ℕ × Buffer)) × IsJpeg buf found × (r ≡ result (collect [] found))
unfolding scan_jpeg malformed
scan_jpeg_sound buf r e fine = elim (Bool-cases (is_jpeg buf)) [
  | inr unsigned ↦ absurd (ground arith)
  | inl signed ↦ elim (Option-cases (walk max_segments (jpeg_step buf) jpeg_start)) [
    | inl thrown ↦ absurd (ground arith)
    | inr (x, walked) ↦
        let (found, chain, report) =
          exit_sound buf jpeg_start x r (walk-Good buf max_segments jpeg_start x walked)
            (ground arith) fine in
        (found, record { started = start_of_image buf signed; chain = chain }, report)
  ]
]
