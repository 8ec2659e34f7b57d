-- ===== src/Image/Bytes.antt =====
-- Node's Buffer as the list of its bytes. A read that Node refuses (ERR_OUT_OF_RANGE), and an
-- index that gives `undefined`, is `none`.
use Prim.Native.Char.{code}
use legends_chat.Common.{
  ℕ, ◌+◌, ◌-◌, ◌*◌, ◌%◌, String, Option, none, some, List, [], ◌∷◌, map, take, drop, Bool, false,
  ◌==◌, nat_eq,
}

abbrev pub Buffer : Type 0
Buffer = List ℕ

-- The code points of a text literal.
abbrev pub codes : String → List ℕ
codes String.[] = []
codes (String.◌∷◌ c s) = code c ∷ codes s

-- `buf.subarray(i, j)`, which clamps both ends.
abbrev pub subarray : Buffer → ℕ → ℕ → Buffer
subarray buf i j = take (j - i) (drop i buf)

-- `toString("ascii")`: Node clears the top bit of every byte.
abbrev pub ascii : Buffer → List ℕ
ascii bytes = map (λ b. b % 128) bytes

abbrev pub be16 : Buffer → Option ℕ
be16 (a ∷ b ∷ _) = some (a * 256 + b)
be16 _ = none

abbrev pub be32 : Buffer → Option ℕ
be32 (a ∷ b ∷ c ∷ d ∷ _) = some (((a * 256 + b) * 256 + c) * 256 + d)
be32 _ = none

abbrev pub le32 : Buffer → Option ℕ
le32 (a ∷ b ∷ c ∷ d ∷ _) = some (((d * 256 + c) * 256 + b) * 256 + a)
le32 _ = none

-- `buf[i] === b`; `undefined` is equal to no number.
abbrev pub byte_is : Option ℕ → ℕ → Bool
byte_is none b = false
byte_is (some a) b = a == b

-- `readUInt16BE(i)`, `readUInt32BE(i)`, `readUInt32LE(i)`
abbrev pub read_uint16_be : Buffer → ℕ → Option ℕ
read_uint16_be buf i = be16 (drop i buf)

abbrev pub read_uint32_be : Buffer → ℕ → Option ℕ
read_uint32_be buf i = be32 (drop i buf)

abbrev pub read_uint32_le : Buffer → ℕ → Option ℕ
read_uint32_le buf i = le32 (drop i buf)

infixl 5 ◌>>=◌
abbrev pub ◌>>=◌ {ℓ κ} : {A : Type ℓ} {B : Type κ} → Option A → (A → Option B) → Option B
none >>= f = none
some a >>= f = f a
