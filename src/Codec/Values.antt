-- ===== src/Codec/Values.antt =====
-- packages/protocol/src/serialization.ts: values of the type `unknown`, and the helpers of its
-- decoders.
use hunsu.Base.{
  ℕ, suc, String, Bool, true, false, not, template, join, List, [], ◌∷◌, ◌==◌, if◌then◌else◌, ⊤,
}
use hunsu.Lists.{filter, includes, is_empty}
use hunsu.Text.{decimal, utf16, units_before}
use hunsu.Protocol.{Result, ok, err, ◌>>=◌, ◌>>◌, JsonNumber}

-- A value whose type is not known: what `JSON.parse` gives, and `undefined` for a missing property.
mutual
  pub data Unknown : Type 0 where
    undefined null : Unknown
    boolean : Bool → Unknown
    string : String → Unknown
    number : JsonNumber → Unknown
    negative_zero not_finite : Unknown
    array : Items → Unknown
    object : Fields → Unknown

  pub data Items : Type 0 where
    no_items : Items
    item : Unknown → Items → Items

  -- The own properties of an object, in the order of `Object.keys`.
  pub data Fields : Type 0 where
    no_fields : Fields
    field : String → Unknown → Fields → Fields

pub record ProtocolCodecError : Type 0 where
  pub path : String
  pub message : String

abbrev pub Decoded {ℓ} : Type ℓ → Type ℓ
Decoded Value = Result Value ProtocolCodecError

abbrev pub invalid {ℓ} : {Value : Type ℓ} → String → String → Decoded Value
invalid path message = err (record { path = path; message = message })

-- `${path}.${key}`
abbrev pub at : String → String → String
at path key = template (path ∷ "." ∷ key ∷ [])

-- `${path}[${index}]`
abbrev pub at_index : String → ℕ → String
at_index path index = template (path ∷ "[" ∷ decimal index ∷ "]" ∷ [])

unfoldable pub keys_of : Fields → List String
keys_of no_fields = []
keys_of (field key value fields) = key ∷ keys_of fields

-- `value[key]`
unfoldable pub property : String → Fields → Unknown
property key no_fields = undefined
property key (field other value fields) =
    let rest = property key fields in if other == key then value else rest

-- `value[key]` where a value of any type may stand
abbrev pub property_of : String → Unknown → Unknown
property_of key (object fields) = property key fields
property_of key _ = undefined

-- `isRecord`
abbrev pub is_record : Unknown → Bool
is_record (object _) = true
is_record _ = false

-- `value === text`
abbrev pub is_text : Unknown → String → Bool
is_text (string other) text = other == text
is_text _ text = false

-- `typeof value === "string"`
abbrev pub is_string : Unknown → Bool
is_string (string _) = true
is_string _ = false

abbrev pub insert_key : String → List String → List String
insert_key key [] = key ∷ []
insert_key key (first ∷ keys) =
    let rest = insert_key key keys in
    if units_before (utf16 first) (utf16 key) then first ∷ rest else key ∷ first ∷ keys

-- `keys.sort()`
unfoldable pub sort_keys : List String → List String
sort_keys [] = []
sort_keys (key ∷ keys) = insert_key key (sort_keys keys)

abbrev pub reject_keys : String → String → List String → Decoded ⊤
reject_keys path message keys =
    if is_empty keys then ok tt else invalid path (template (message ∷ join ", " keys ∷ []))

unfoldable pub exact_record : Unknown → String → List String → Decoded Fields
unfolding keys_of
exact_record (object fields) path keys = do
  reject_keys path "unsupported keys: "
      (sort_keys (filter (λ (key : String). not (includes keys key)) (keys_of fields)))
  reject_keys path "missing keys: "
      (filter (λ (key : String). not (includes (keys_of fields) key)) keys)
  ok fields
exact_record _ path keys = invalid path "value must be an object"

module _ {ℓ} {Value : Type ℓ} (decode : Unknown → String → Decoded Value) where
  -- The loop of `decodeArray`, from an index on.
  abbrev pub decode_items : String → ℕ → Items → Decoded (List Value)
  decode_items path index no_items = ok []
  decode_items path index (item value items) =
      let rest = decode_items path (suc index) items in
      decode value (at_index path index) >>= λ first. rest >>= λ values. ok (first ∷ values)

  unfoldable pub decode_array : Unknown → String → Decoded (List Value)
  decode_array (array items) path = decode_items path 0 items
  decode_array _ path = invalid path "value must be an array"

-- `oneOf`
unfoldable pub one_of : Unknown → List String → String → Decoded String
one_of (string text) values path =
    if includes values text
    then ok text
    else invalid path (template ("value must be one of " ∷ join ", " values ∷ []))
one_of _ values path = invalid path (template ("value must be one of " ∷ join ", " values ∷ []))
