-- ===== src/Codec/Canonical.antt =====
-- packages/protocol/src/serialization.ts: `decodeCanonicalJsonValue` and `stringifyCanonical`.
use Prim.Native.Nat.{◌/◌, ◌%◌}
use Prim.Native.Char.{Char, code}
use Prim.Native.String.{String, slice, ◌++◌ as text_append}
use hunsu.Base.{ℕ, suc, ◌+◌, ltb, nat_eq, template, join, List, [], ◌∷◌, if◌then◌else◌}
use hunsu.Text.{decimal, utf16, units_before}
use hunsu.Protocol.{
  ◌>>=◌, ok, CanonicalJsonValue, JsonItems, JsonFields, JsonNumber, natural, other_number,
}
use hunsu.Codec.Values.{
  Unknown, Items, Fields, undefined, null, boolean, string, number, negative_zero, not_finite,
  array, object, no_items, item, no_fields, field, Decoded, invalid, at, at_index,
}

unfoldable mutual
  pub decode_canonical_json_value : Unknown → String → Decoded CanonicalJsonValue
  decode_canonical_json_value undefined path =
      invalid path "value must contain only canonical JSON data"
  decode_canonical_json_value null path = ok CanonicalJsonValue.null
  decode_canonical_json_value (boolean b) path = ok (CanonicalJsonValue.boolean b)
  decode_canonical_json_value (string text) path = ok (CanonicalJsonValue.string text)
  decode_canonical_json_value (number n) path = ok (CanonicalJsonValue.number n)
  decode_canonical_json_value negative_zero path =
      invalid path "canonical JSON numbers must be finite and cannot be negative zero"
  decode_canonical_json_value not_finite path =
      invalid path "canonical JSON numbers must be finite and cannot be negative zero"
  decode_canonical_json_value (array items) path =
      decode_canonical_items items path 0 >>= λ values. ok (CanonicalJsonValue.array values)
  decode_canonical_json_value (object fields) path =
      decode_canonical_fields fields path >>= λ values. ok (CanonicalJsonValue.object values)

  pub decode_canonical_items : Items → String → ℕ → Decoded JsonItems
  decode_canonical_items no_items path index = ok JsonItems.no_items
  decode_canonical_items (item value items) path index =
      let rest = decode_canonical_items items path (suc index) in
      decode_canonical_json_value value (at_index path index) >>= λ first.
      rest >>= λ values. ok (JsonItems.item first values)

  pub decode_canonical_fields : Fields → String → Decoded JsonFields
  decode_canonical_fields no_fields path = ok JsonFields.no_fields
  decode_canonical_fields (field key value fields) path =
      let rest = decode_canonical_fields fields path in
      decode_canonical_json_value value (at path key) >>= λ first.
      rest >>= λ values. ok (JsonFields.field key first values)

-- A canonical value is a value.
unfoldable mutual
  pub unknown_of : CanonicalJsonValue → Unknown
  unknown_of CanonicalJsonValue.null = null
  unknown_of (CanonicalJsonValue.boolean b) = boolean b
  unknown_of (CanonicalJsonValue.string text) = string text
  unknown_of (CanonicalJsonValue.number n) = number n
  unknown_of (CanonicalJsonValue.array items) = array (unknown_items items)
  unknown_of (CanonicalJsonValue.object fields) = object (unknown_fields fields)

  pub unknown_items : JsonItems → Items
  unknown_items JsonItems.no_items = no_items
  unknown_items (JsonItems.item value items) = item (unknown_of value) (unknown_items items)

  pub unknown_fields : JsonFields → Fields
  unknown_fields JsonFields.no_fields = no_fields
  unknown_fields (JsonFields.field key value fields) =
      field key (unknown_of value) (unknown_fields fields)

abbrev hex_digit : ℕ → String
hex_digit d = slice "0123456789abcdef" d (d + 1)

-- What `JSON.stringify` writes for one character.
abbrev pub escape : Char → String
escape c =
    let one = String.◌∷◌ c String.[] in
    let n = code c in
    if nat_eq n 34
    then "\\\""
    else if nat_eq n 92
    then "\\\\"
    else if nat_eq n 8
    then "\\b"
    else if nat_eq n 12
    then "\\f"
    else if nat_eq n 10
    then "\\n"
    else if nat_eq n 13
    then "\\r"
    else if nat_eq n 9
    then "\\t"
    else if ltb n 32
    then template ("\\u00" ∷ hex_digit (n / 16) ∷ hex_digit (n % 16) ∷ [])
    else one

abbrev pub escape_all : String → String
escape_all String.[] = ""
escape_all (String.◌∷◌ c text) = let rest = escape_all text in text_append (escape c) rest

-- `JSON.stringify` of a string
unfoldable pub quote : String → String
quote text = template ("\"" ∷ escape_all text ∷ "\"" ∷ [])

abbrev pub stringify_number : JsonNumber → String
stringify_number (natural n) = decimal n
stringify_number (other_number text) = text

-- A property that has been written, under its key.
abbrev pub insert_entry : String → String → List (String × String) → List (String × String)
insert_entry key text [] = (key, text) ∷ []
insert_entry key text ((other, written) ∷ entries) =
    let rest = insert_entry key text entries in
    if units_before (utf16 other) (utf16 key)
    then (other, written) ∷ rest
    else (key, text) ∷ (other, written) ∷ entries

abbrev pub entry_texts : List (String × String) → List String
entry_texts [] = []
entry_texts ((key, text) ∷ entries) = template (quote key ∷ ":" ∷ text ∷ []) ∷ entry_texts entries

unfoldable mutual
  pub stringify_canonical : CanonicalJsonValue → String
  stringify_canonical CanonicalJsonValue.null = "null"
  stringify_canonical (CanonicalJsonValue.boolean b) = if b then "true" else "false"
  stringify_canonical (CanonicalJsonValue.string text) = quote text
  stringify_canonical (CanonicalJsonValue.number n) = stringify_number n
  stringify_canonical (CanonicalJsonValue.array items) =
      template ("[" ∷ join "," (stringify_items items) ∷ "]" ∷ [])
  stringify_canonical (CanonicalJsonValue.object fields) =
      template ("{" ∷ join "," (entry_texts (sorted_entries fields)) ∷ "}" ∷ [])

  pub stringify_items : JsonItems → List String
  stringify_items JsonItems.no_items = []
  stringify_items (JsonItems.item value items) = stringify_canonical value ∷ stringify_items items

  -- The properties in the order of their keys.
  pub sorted_entries : JsonFields → List (String × String)
  sorted_entries JsonFields.no_fields = []
  sorted_entries (JsonFields.field key value fields) =
      insert_entry key (stringify_canonical value) (sorted_entries fields)
