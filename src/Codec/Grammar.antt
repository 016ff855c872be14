-- ===== src/Codec/Grammar.antt =====
-- The grammar of the JSON texts that `stringifyCanonical` of packages/protocol/src/serialization.ts may
-- write and `JSON.parse` may read, without white space between the tokens: what value a text denotes.
use Prim.Native.Char.{Char, code}
use Prim.Native.String.{String, slice, ◌++◌ as text_append}
use Prim.Native.Nat.{◌*◌}
use hunsu.Base.{ℕ, ◌+◌, ◌≤◌, ◌<◌, ◌≡◌, ◌≢◌, template, join, List, [], ◌∷◌, ◌++◌, true, false}
use hunsu.Text.{decimal}
use hunsu.Protocol.{natural, other_number}
use hunsu.Codec.Values.{
  Unknown, Items, Fields, null, boolean, string, number, array, object, no_items, item, no_fields,
  field,
}

abbrev pub hex_digit : ℕ → String
hex_digit d = slice "0123456789abcdef" d (d + 1)

abbrev pub one : Char → String
one c = String.◌∷◌ c String.[]

-- One character inside the quotation marks.
pub data CharText : Char → String → Type 0 where
  plain : (c : Char) → 32 ≤ code c → code c ≢ 34 → code c ≢ 92 → CharText c (one c)
  quotation_mark : (c : Char) → code c ≡ 34 → CharText c "\\\""
  backslash : (c : Char) → code c ≡ 92 → CharText c "\\\\"
  backspace : (c : Char) → code c ≡ 8 → CharText c "\\b"
  form_feed : (c : Char) → code c ≡ 12 → CharText c "\\f"
  line_feed : (c : Char) → code c ≡ 10 → CharText c "\\n"
  carriage_return : (c : Char) → code c ≡ 13 → CharText c "\\r"
  tab : (c : Char) → code c ≡ 9 → CharText c "\\t"
  unicode :
      (c : Char) (high low : ℕ)
      → high < 16
      → low < 16
      → code c ≡ 16 * high + low
      → CharText c (template ("\\u00" ∷ hex_digit high ∷ hex_digit low ∷ []))

-- The characters of a text, one after the other.
pub data StringText : String → String → Type 0 where
  none_left : StringText String.[] ""
  one_more :
      (c : Char) (text piece body : String)
      → CharText c piece
      → StringText text body
      → StringText (String.◌∷◌ c text) (text_append piece body)

pub data QuotedText : String → String → Type 0 where
  quoted :
      (text body : String)
      → StringText text body
      → QuotedText text (template ("\"" ∷ body ∷ "\"" ∷ []))

-- An object is an unordered collection: its properties stand in the text in any order.
mutual
  pub data Denotes : String → Unknown → Type 0 where
    null_text : Denotes "null" null
    true_text : Denotes "true" (boolean true)
    false_text : Denotes "false" (boolean false)
    string_text : (text body : String) → QuotedText text body → Denotes body (string text)
    natural_text : (n : ℕ) → Denotes (decimal n) (number (natural n))
    number_text : (text : String) → Denotes text (number (other_number text))
    array_text :
        (texts : List String) (items : Items)
        → DenoteItems texts items
        → Denotes (template ("[" ∷ join "," texts ∷ "]" ∷ [])) (array items)
    object_text :
        (texts : List String) (fields : Fields)
        → DenoteFields texts fields
        → Denotes (template ("{" ∷ join "," texts ∷ "}" ∷ [])) (object fields)

  pub data DenoteItems : List String → Items → Type 0 where
    no_texts : DenoteItems [] no_items
    item_text :
        (text : String) (texts : List String) (value : Unknown) (items : Items)
        → Denotes text value
        → DenoteItems texts items
        → DenoteItems (text ∷ texts) (item value items)

  pub data DenoteFields : List String → Fields → Type 0 where
    no_members : DenoteFields [] no_fields
    member :
        (before after : List String) (key key_text text : String) (value : Unknown)
        (fields : Fields)
        → QuotedText key key_text
        → Denotes text value
        → DenoteFields (before ++ after) fields
        → DenoteFields
            (before ++ (template (key_text ∷ ":" ∷ text ∷ []) ∷ after))
            (field key value fields)

-- A document is a text and the end of its line.
pub data IsDocumentOf : Unknown → String → Type 0 where
  line :
      (value : Unknown) (text : String)
      → Denotes text value
      → IsDocumentOf value (template (text ∷ "\n" ∷ []))
