-- ===== src/Codec/Fields.antt =====
-- packages/protocol/src/serialization.ts: `primitive` on the constructors of
-- packages/protocol/src/primitives.ts, as decoders of single fields.
use hunsu.Base.{ℕ, String, Bool, List, if◌then◌else◌, ⊤}
use hunsu.Protocol.{ok, err}
use hunsu.Codec.Values.{Unknown, Fields, Decoded, invalid, at, property}
use hunsu.Codec.Makers.{
  Made, Dates, make_id, make_sha256, make_prefixed_digest, make_git_sha, make_git_tree_path,
  make_git_ref, make_git_branch_name, make_repository_owner, make_repository_name,
  make_iso_timestamp, make_non_empty_text, make_runner_type_origin, make_runner_type_key,
  make_runner_schema_version, make_base64_payload, make_non_negative_integer, make_non_empty_array,
  make_at_least_two, goal_prefix, runner_prefix, node_plan_prefix, node_payload_prefix,
  runner_type_prefix,
}

abbrev pub Decoder {ℓ} : Type ℓ → Type ℓ
Decoder Value = Unknown → String → Decoded Value

-- `primitive`
abbrev pub primitive {ℓ} : {Value : Type ℓ} → Made Value → String → Decoded Value
primitive (ok value) path = ok value
primitive (err error) path = invalid path error.message

-- A guard with an early return.
abbrev pub require : Bool → String → String → Decoded ⊤
require test path message = if test then ok tt else invalid path message

-- `decode(record.value[key], `${path}.${key}`)`
abbrev pub at_key {ℓ} : {Value : Type ℓ} → Decoder Value → String → Fields → String → Decoded Value
at_key decode key fields path = decode (property key fields) (at path key)

abbrev pub decode_id : String → Decoder String
decode_id name value path = primitive (make_id name value) path

abbrev pub decode_sha256 : String → Decoder String
decode_sha256 name value path = primitive (make_sha256 name value) path

abbrev pub decode_digest : String → String → Decoder String
decode_digest prefix name value path = primitive (make_prefixed_digest prefix value name) path

abbrev pub decode_goal_digest : Decoder String
decode_goal_digest = decode_digest goal_prefix "goalDigest"

abbrev pub decode_runner_digest : Decoder String
decode_runner_digest = decode_digest runner_prefix "runnerDigest"

abbrev pub decode_plan_digest : Decoder String
decode_plan_digest = decode_digest node_plan_prefix "nodePlanDigest"

abbrev pub decode_payload_digest : Decoder String
decode_payload_digest = decode_digest node_payload_prefix "nodePayloadDigest"

abbrev pub decode_integrity : Decoder String
decode_integrity value path = primitive (make_prefixed_digest runner_type_prefix value path) path

abbrev pub decode_git_sha : Decoder String
decode_git_sha value path = primitive (make_git_sha value path) path

abbrev pub decode_tree_path : Decoder String
decode_tree_path value path = primitive (make_git_tree_path value path) path

abbrev pub decode_ref : Decoder String
decode_ref value path = primitive (make_git_ref value path) path

abbrev pub decode_branch : Decoder String
decode_branch value path = primitive (make_git_branch_name value path) path

abbrev pub decode_owner : Decoder String
decode_owner value path = primitive (make_repository_owner value) path

abbrev pub decode_repository_name : Decoder String
decode_repository_name value path = primitive (make_repository_name value) path

abbrev pub decode_timestamp : ⦃dates : Dates⦄ → Decoder String
decode_timestamp value path = primitive (make_iso_timestamp value path) path

abbrev pub decode_text : Decoder String
decode_text value path = primitive (make_non_empty_text value path) path

-- A text whose constructor has a field name of its own.
abbrev pub decode_named_text : String → Decoder String
decode_named_text name value path = primitive (make_non_empty_text value name) path

abbrev pub decode_origin : Decoder String
decode_origin value path = primitive (make_runner_type_origin value path) path

abbrev pub decode_type_key : Decoder String
decode_type_key value path = primitive (make_runner_type_key value path) path

abbrev pub decode_version : Decoder String
decode_version value path = primitive (make_runner_schema_version value path) path

abbrev pub decode_base64 : Decoder String
decode_base64 value path = primitive (make_base64_payload value path) path

abbrev pub decode_natural : Decoder ℕ
decode_natural value path = primitive (make_non_negative_integer value path) path

module _ {ℓ} {A : Type ℓ} where
  abbrev pub require_some : List A → String → Decoded (List A)
  require_some values path = primitive (make_non_empty_array values path) path

  abbrev pub require_two : List A → String → Decoded (List A)
  require_two values path = primitive (make_at_least_two values path) path
