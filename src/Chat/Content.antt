-- ===== src/Chat/Content.antt =====
-- apps/ws/src/messages.ts: how a message's text and attachments are stored. JSON and the cipher of
-- packages/crypto are parameters. A JSON number is a natural here; the code only compares one with 1.
use legends_chat.Common.{
  ℕ, ◌≡◌, refl, String, Bool, true, false, Option, none, some, ◌==◌, nat_eq, string_eq,
  if◌then◌else◌,
}
use legends_chat.Chat.Tables.{
  RowId, Bytes, Json, number, text, array, object, Items, nil, item, Fields, done, field,
}

-- JSON.parse (`none` is an exception) and JSON.stringify; `encryptMessage`, at the randomness of its
-- nonce, by the id of the key, with the topic as associated data; `decryptMessage`.
pub record Codec : Type 0 where
  pub parse : String → Option Json
  pub stringify : Json → String
  pub encrypt : ℕ → RowId → String → RowId → Bytes × Bytes
  pub decrypt : RowId → Bytes → Bytes → RowId → Option String

pub record Content : Type 0 where
  pub body : String
  pub attachments : Items

abbrev pub has_items : Items → Bool
has_items nil = false
has_items (item j js) = true

-- `{ v: 1, t: text, a: attachments }`
abbrev pub envelope : String → Items → Json
envelope t a = object (field "v" (number 1) (field "t" (text t) (field "a" (array a) done)))

unfoldable pub encode_content : Codec → String → Items → String
encode_content codec t a = if has_items a then codec.stringify (envelope t a) else t

abbrev pub property : String → Fields → Option Json
property name done = none
property name (field key j fields) = if key == name then some j else property name fields

abbrev pub is_one : Option Json → Bool
is_one (some (number n)) = n == 1
is_one _ = false

abbrev pub text_of : Option Json → String
text_of (some (text t)) = t
text_of _ = ""

abbrev pub items_of : Option Json → Items
items_of (some (array a)) = a
items_of _ = nil

abbrev pub plain : String → Content
plain raw = record { body = raw; attachments = nil }

abbrev pub decoded : Option Json → String → Content
decoded (some (object fields)) raw =
    if is_one (property "v" fields)
    then record {
      body = text_of (property "t" fields);
      attachments = items_of (property "a" fields);
    }
    else plain raw
decoded _ raw = plain raw

unfoldable pub decode_content : Codec → String → Content
decode_content codec raw = decoded (codec.parse raw) raw

-- What a text decodes to is itself, unless it parses as an object whose `v` is 1.
abbrev pub IsPlain : Codec → String → Type 0
IsPlain codec t = decoded (codec.parse t) t ≡ plain t

pub decode-encode :
    (codec : Codec) (t : String) (a : Items)
    → (a ≡ nil → IsPlain codec t)
    → codec.parse (codec.stringify (envelope t a)) ≡ some (envelope t a)
    → decode_content codec (encode_content codec t a) ≡ record { body = t; attachments = a }
unfolding decode_content encode_content
decode-encode codec t nil is_plain law = is_plain refl
decode-encode codec t (item j js) is_plain law = rw law refl

-- A text that is sent without attachments may itself parse as an envelope. It is stored as it is,
-- and read back as the content that it spells: other text, and attachments nobody checked.
pub decode-encode_forged :
    (codec : Codec) (t shown : String) (a : Items)
    → codec.parse t ≡ some (envelope shown a)
    → decode_content codec (encode_content codec t nil) ≡ record { body = shown; attachments = a }
unfolding decode_content encode_content
decode-encode_forged codec t shown a forged = rw forged refl
