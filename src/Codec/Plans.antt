-- ===== src/Codec/Plans.antt =====
-- packages/protocol/src/serialization.ts: decoders of Goals, Runner Values, Node Plans and payloads.
use hunsu.Base.{
  String, Bool, ◌&&◌, not, ◌==◌, ltb, nat_eq, map, Option, none, some, List, [], ◌∷◌, template, ⊤,
}
use hunsu.Lists.{find, all_unique}
use hunsu.Text.{decimal, text_length}
use hunsu.Protocol.{
  Result, ok, err, ◌>>=◌, ◌>>◌, CanonicalJsonValue, GoalValue, RunnerTypeLock, RunnerValue,
  runner_value_schema, NodePlan, node_plan_schema, NodePayload, node_payload_schema,
  NodePayloadEnvelope, Digests, compute_goal_digest, max_node_payload_decoded_bytes,
  max_node_payload_encoded_bytes,
}
use hunsu.Codec.Values.{Decoded, invalid, at, property, is_text, exact_record, decode_array}
use hunsu.Codec.Fields.{
  Decoder, require, require_some, at_key, decode_id, decode_named_text, decode_text, decode_natural,
  decode_origin, decode_type_key, decode_version, decode_integrity, decode_git_sha,
  decode_payload_digest, decode_base64,
}
use hunsu.Codec.Canonical.{decode_canonical_json_value, stringify_canonical}

abbrev pub goal_keys : List String
goal_keys =
    "key" ∷ "title" ∷ "desiredOutcome" ∷ "acceptanceCriteria" ∷ "constraints" ∷ "priority" ∷ []

unfoldable pub decode_goal_value : Decoder GoalValue
decode_goal_value value path = do
  fields ← exact_record value path goal_keys
  key ← at_key (decode_id "goalKey") "key" fields path
  title ← at_key (decode_named_text "title") "title" fields path
  desired_outcome ← at_key (decode_named_text "desiredOutcome") "desiredOutcome" fields path
  criteria ← at_key (decode_array decode_text) "acceptanceCriteria" fields path
  acceptance_criteria ← require_some criteria (at path "acceptanceCriteria")
  require (all_unique acceptance_criteria) (at path "acceptanceCriteria")
      "acceptance criteria must be unique"
  constraints ← at_key (decode_array decode_text) "constraints" fields path
  require (all_unique constraints) (at path "constraints") "constraints must be unique"
  priority ← at_key decode_natural "priority" fields path
  ok (record {
    key = key;
    title = title;
    desired_outcome = desired_outcome;
    acceptance_criteria = acceptance_criteria;
    constraints = constraints;
    priority = priority;
  })

abbrev pub lock_keys : List String
lock_keys = "origin" ∷ "key" ∷ "schemaVersion" ∷ "integrity" ∷ []

unfoldable pub decode_runner_type_lock : Decoder RunnerTypeLock
decode_runner_type_lock value path = do
  fields ← exact_record value path lock_keys
  origin ← at_key decode_origin "origin" fields path
  key ← at_key decode_type_key "key" fields path
  schema_version ← at_key decode_version "schemaVersion" fields path
  integrity ← at_key decode_integrity "integrity" fields path
  ok (record { origin = origin; key = key; schema_version = schema_version; integrity = integrity })

pub record RunnerValueDecodeError : Type 0 where
  pub path : String
  pub message : String

-- A registered type. Its `decode` is the code of the registry, or of a plugin.
pub record RunnerValueTypeDecoder : Type 0 where
  pub lock : RunnerTypeLock
  pub decode : CanonicalJsonValue → String → Result CanonicalJsonValue RunnerValueDecodeError

abbrev pub RunnerValueTypeRegistry : Type 0
RunnerValueTypeRegistry = List RunnerValueTypeDecoder

unfoldable pub same_runner_type : RunnerTypeLock → RunnerTypeLock → Bool
same_runner_type left right =
    left.origin == right.origin
    && (left.key == right.key
        && (left.schema_version == right.schema_version && left.integrity == right.integrity))

abbrev pub find_runner_type :
    RunnerValueTypeRegistry → RunnerTypeLock → Option RunnerValueTypeDecoder
find_runner_type runner_types lock =
    find (λ (candidate : RunnerValueTypeDecoder). same_runner_type candidate.lock lock) runner_types

abbrev as_codec_error :
    Result CanonicalJsonValue RunnerValueDecodeError → Decoded CanonicalJsonValue
as_codec_error (ok value) = ok value
as_codec_error (err error) = invalid error.path error.message

-- The type's own decoder has to return the value that it is given.
abbrev pub check_runner_payload :
    Option RunnerValueTypeDecoder → CanonicalJsonValue → String → Decoded ⊤
check_runner_payload none payload path =
    invalid (at path "type") "Runner type lock is not registered exactly"
check_runner_payload (some decoder) payload path = do
  decoded ← as_codec_error (decoder.decode payload (at path "value"))
  require (stringify_canonical decoded == stringify_canonical payload) (at path "value")
      "Runner type decoder must validate without normalizing the payload"

abbrev pub runner_keys : List String
runner_keys = "schema" ∷ "type" ∷ "name" ∷ "value" ∷ []

abbrev pub plan_keys : List String
plan_keys = "schema" ∷ "nextGoals" ∷ "how" ∷ []

abbrev pub payload_keys : List String
payload_keys = "schema" ∷ "projectId" ∷ "commitSha" ∷ "treeSha" ∷ "plan" ∷ []

module _ (runner_types : RunnerValueTypeRegistry) where
  unfoldable pub decode_runner_value : Decoder RunnerValue
  decode_runner_value value path = do
    fields ← exact_record value path runner_keys
    require (is_text (property "schema" fields) runner_value_schema) (at path "schema")
        "schema must be hunsu.runner-value.v1"
    lock ← at_key decode_runner_type_lock "type" fields path
    name ← at_key decode_text "name" fields path
    payload ← at_key decode_canonical_json_value "value" fields path
    check_runner_payload (find_runner_type runner_types lock) payload path
    ok (record { schema = runner_value_schema; lock = lock; name = name; value = payload })

module _ ⦃digests : Digests⦄ (runner_types : RunnerValueTypeRegistry) where
  unfoldable pub decode_node_plan : Decoder NodePlan
  decode_node_plan value path = do
    fields ← exact_record value path plan_keys
    require (is_text (property "schema" fields) node_plan_schema) (at path "schema")
        "schema must be hunsu.node-plan.v1"
    next_goals ← at_key (decode_array decode_goal_value) "nextGoals" fields path
    require (all_unique (map (λ (goal : GoalValue). goal.key) next_goals)) (at path "nextGoals")
        "Goal keys must be unique within a Node"
    require (all_unique (map compute_goal_digest next_goals)) (at path "nextGoals")
        "Goal values must have unique canonical digests within a Node"
    how ← at_key (decode_runner_value runner_types) "how" fields path
    ok (record { schema = node_plan_schema; next_goals = next_goals; how = how })

  unfoldable pub decode_node_payload : Decoder NodePayload
  decode_node_payload value path = do
    fields ← exact_record value path payload_keys
    require (is_text (property "schema" fields) node_payload_schema) (at path "schema")
        "schema must be hunsu.node-payload.v1"
    project_id ← at_key (decode_id "projectId") "projectId" fields path
    commit_sha ← at_key decode_git_sha "commitSha" fields path
    tree_sha ← at_key decode_git_sha "treeSha" fields path
    plan ← at_key decode_node_plan "plan" fields path
    ok (record {
      schema = node_payload_schema;
      project_id = project_id;
      commit_sha = commit_sha;
      tree_sha = tree_sha;
      plan = plan;
    })

abbrev pub node_payload_envelope_schema : String
node_payload_envelope_schema = "hunsu.node-payload-envelope.v1"

abbrev pub node_payload_codec : String
node_payload_codec = "canonical-json+deterministic-gzip+base64"

abbrev pub envelope_keys : List String
envelope_keys = "schema" ∷ "codec" ∷ "decodedSize" ∷ "encodedSize" ∷ "digest" ∷ "data" ∷ []

unfoldable pub decode_node_payload_envelope : Decoder NodePayloadEnvelope
decode_node_payload_envelope value path = do
  fields ← exact_record value path envelope_keys
  require (is_text (property "schema" fields) node_payload_envelope_schema) (at path "schema")
      (template ("schema must be " ∷ node_payload_envelope_schema ∷ []))
  require (is_text (property "codec" fields) node_payload_codec) (at path "codec")
      (template ("codec must be " ∷ node_payload_codec ∷ []))
  decoded_size ← at_key decode_natural "decodedSize" fields path
  require (not (ltb max_node_payload_decoded_bytes decoded_size)) (at path "decodedSize") (
      template
        ("decoded payload exceeds " ∷ decimal max_node_payload_decoded_bytes ∷ " bytes" ∷ []))
  encoded_size ← at_key decode_natural "encodedSize" fields path
  require (not (ltb max_node_payload_encoded_bytes encoded_size)) (at path "encodedSize") (
      template
        ("encoded payload exceeds " ∷ decimal max_node_payload_encoded_bytes ∷ " bytes" ∷ []))
  digest ← at_key decode_payload_digest "digest" fields path
  contents ← at_key decode_base64 "data" fields path
  require (nat_eq encoded_size (text_length contents)) (at path "encodedSize")
      "encodedSize must equal the base64 payload byte length"
  ok (record {
    schema = node_payload_envelope_schema;
    codec = node_payload_codec;
    decoded_size = decoded_size;
    encoded_size = encoded_size;
    digest = digest;
    contents = contents;
  })
