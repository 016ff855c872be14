-- ===== src/Codec/RoundTrip/Canonical.antt =====
-- `decodeCanonicalJsonValue` of packages/protocol/src/serialization.ts on canonical values.
use hunsu.Base.{◌≡◌, refl, ℕ, suc, String}
use hunsu.Protocol.{ok, CanonicalJsonValue, JsonItems, JsonFields}
use hunsu.Codec.Values.{at, at_index}
use hunsu.Codec.Canonical.{
  decode_canonical_json_value, decode_canonical_items, decode_canonical_fields, unknown_of,
  unknown_items, unknown_fields,
}

mutual
  unfolding decode_canonical_json_value unknown_of

  pub decode_canonical_json_value-unknown_of :
      (v : CanonicalJsonValue) (path : String)
      → decode_canonical_json_value (unknown_of v) path ≡ ok v
  decode_canonical_json_value-unknown_of CanonicalJsonValue.null path = refl
  decode_canonical_json_value-unknown_of (CanonicalJsonValue.boolean b) path = refl
  decode_canonical_json_value-unknown_of (CanonicalJsonValue.string text) path = refl
  decode_canonical_json_value-unknown_of (CanonicalJsonValue.number n) path = refl
  decode_canonical_json_value-unknown_of (CanonicalJsonValue.array items) path =
      rw (decode_canonical_items-unknown_items items path 0) refl
  decode_canonical_json_value-unknown_of (CanonicalJsonValue.object fields) path =
      rw (decode_canonical_fields-unknown_fields fields path) refl

  pub decode_canonical_items-unknown_items :
      (items : JsonItems) (path : String) (index : ℕ)
      → decode_canonical_items (unknown_items items) path index ≡ ok items
  decode_canonical_items-unknown_items JsonItems.no_items path index = refl
  decode_canonical_items-unknown_items (JsonItems.item value items) path index =
      rw
        (
          decode_canonical_json_value-unknown_of value (at_index path index),
          decode_canonical_items-unknown_items items path (suc index),
        )
        refl

  pub decode_canonical_fields-unknown_fields :
      (fields : JsonFields) (path : String)
      → decode_canonical_fields (unknown_fields fields) path ≡ ok fields
  decode_canonical_fields-unknown_fields JsonFields.no_fields path = refl
  decode_canonical_fields-unknown_fields (JsonFields.field key value fields) path =
      rw
        (
          decode_canonical_json_value-unknown_of value (at path key),
          decode_canonical_fields-unknown_fields fields path,
        )
        refl
