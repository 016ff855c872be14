-- ===== src/Codec/Valid.antt =====
-- packages/protocol/src/primitives.ts and packages/protocol/src/serialization.ts: which Goals, Runner
-- Values, Node Plans and payloads are well formed.
pub mod Records
pub mod Nodes
pub mod Runs
pub mod Coaching
pub mod Alternatives
pub mod Events
pub mod States
use hunsu.Base.{◌≡◌, ℕ, String, Bool, true, false, not, ◌==◌, ltb, nat_eq, map, Option, some, List}
use hunsu.Lists.{All, all_unique, is_empty}
use hunsu.Text.{is_safe_integer, text_length}
use hunsu.Protocol.{
  ok, CanonicalJsonValue, GoalValue, RunnerTypeLock, RunnerValue, runner_value_schema, NodePlan,
  node_plan_schema, NodePayload, node_payload_schema, NodePayloadEnvelope, Digests,
  compute_goal_digest, max_node_payload_decoded_bytes, max_node_payload_encoded_bytes,
}
use hunsu.Codec.Makers.{
  is_identifier, is_filled, is_origin, is_type_key, is_semantic_version, is_prefixed_digest,
  is_git_sha, is_base64, runner_type_prefix, node_payload_prefix,
}
use hunsu.Codec.Canonical.{stringify_canonical}
use hunsu.Codec.Plans.{
  RunnerValueTypeDecoder, RunnerValueTypeRegistry, find_runner_type, node_payload_envelope_schema,
  node_payload_codec,
}

-- A text with a character that is not space.
abbrev pub IsFilled : String → Type 0
IsFilled text = is_filled text ≡ true

abbrev pub IsIdentifier : String → Type 0
IsIdentifier text = is_identifier text ≡ true

abbrev pub IsGitSha : String → Type 0
IsGitSha text = is_git_sha text ≡ true

pub record IsGoalValue (g : GoalValue) : Type 0 where
  pub key : is_identifier g.key ≡ true
  pub title : IsFilled g.title
  pub desired_outcome : IsFilled g.desired_outcome
  pub criteria : All IsFilled g.acceptance_criteria
  pub has_criteria : is_empty g.acceptance_criteria ≡ false
  pub unique_criteria : all_unique g.acceptance_criteria ≡ true
  pub constraints : All IsFilled g.constraints
  pub unique_constraints : all_unique g.constraints ≡ true
  pub priority : is_safe_integer g.priority ≡ true

pub record IsRunnerTypeLock (l : RunnerTypeLock) : Type 0 where
  pub origin : is_origin l.origin ≡ true
  pub key : is_type_key l.key ≡ true
  pub schema_version : is_semantic_version l.schema_version ≡ true
  pub integrity : is_prefixed_digest runner_type_prefix l.integrity ≡ true

-- The type is registered, and its decoder takes the value, at every path, as it is.
pub record IsRunnerValue (runner_types : RunnerValueTypeRegistry) (r : RunnerValue) : Type 0 where
  pub schema : r.schema ≡ runner_value_schema
  pub lock : IsRunnerTypeLock r.lock
  pub name : IsFilled r.name
  pub decoder : RunnerValueTypeDecoder
  pub registered : find_runner_type runner_types r.lock ≡ some decoder
  pub decoded : String → CanonicalJsonValue
  pub decodes : (path : String) → decoder.decode r.value path ≡ ok (decoded path)
  pub same_text :
      (path : String) → (stringify_canonical (decoded path) == stringify_canonical r.value) ≡ true

pub record IsNodePlan ⦃digests : Digests⦄ (runner_types : RunnerValueTypeRegistry) (p : NodePlan)
    : Type 0 where
  pub schema : p.schema ≡ node_plan_schema
  pub goals : All IsGoalValue p.next_goals
  pub unique_keys : all_unique (map (λ (goal : GoalValue). goal.key) p.next_goals) ≡ true
  pub unique_digests : all_unique (map compute_goal_digest p.next_goals) ≡ true
  pub how : IsRunnerValue runner_types p.how

pub record IsNodePayload ⦃digests : Digests⦄ (runner_types : RunnerValueTypeRegistry)
    (p : NodePayload) : Type 0 where
  pub schema : p.schema ≡ node_payload_schema
  pub project_id : is_identifier p.project_id ≡ true
  pub commit_sha : is_git_sha p.commit_sha ≡ true
  pub tree_sha : is_git_sha p.tree_sha ≡ true
  pub plan : IsNodePlan runner_types p.plan

pub record IsNodePayloadEnvelope (e : NodePayloadEnvelope) : Type 0 where
  pub schema : e.schema ≡ node_payload_envelope_schema
  pub codec : e.codec ≡ node_payload_codec
  pub decoded_safe : is_safe_integer e.decoded_size ≡ true
  pub decoded_bounded : ltb max_node_payload_decoded_bytes e.decoded_size ≡ false
  pub encoded_safe : is_safe_integer e.encoded_size ≡ true
  pub encoded_bounded : ltb max_node_payload_encoded_bytes e.encoded_size ≡ false
  pub digest : is_prefixed_digest node_payload_prefix e.digest ≡ true
  pub contents : is_base64 e.contents ≡ true
  pub measured : nat_eq e.encoded_size (text_length e.contents) ≡ true
