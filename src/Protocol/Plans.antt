-- ===== src/Protocol/Plans.antt =====
-- packages/protocol/src/model.ts: Projects, Goals, Runner Values and Node Plans.
use hunsu.Base.{String, ℕ, Bool, List}
use hunsu.Protocol.Primitives.{
  ProjectId, WorkspaceId, RepositoryOwner, RepositoryName, GitRef, ProjectTitle, GitCommitSha,
  IsoTimestamp, GoalKey, GoalTitle, DesiredOutcome, AcceptanceCriterion, GoalConstraint,
  NonNegativeInteger, RunnerTypeOrigin, RunnerTypeKey, RunnerSchemaVersion, RunnerTypeIntegrity,
  NonEmptyText, GitTreeSha, NodePayloadDigest, Base64Payload,
}

-- `as const` strings of the schemas
abbrev pub runner_value_schema : String
runner_value_schema = "hunsu.runner-value.v1"

abbrev pub node_plan_schema : String
node_plan_schema = "hunsu.node-plan.v1"

abbrev pub node_payload_schema : String
node_payload_schema = "hunsu.node-payload.v1"

unfoldable pub max_node_payload_decoded_bytes : ℕ
max_node_payload_decoded_bytes = 1_048_576

unfoldable pub max_node_payload_encoded_bytes : ℕ
max_node_payload_encoded_bytes = 1_572_864

-- A finite number by the text that `JSON.stringify` gives it: `natural` when that is decimal digits
-- alone, which is so for integers from 0 up and below 1e21, and `other_number` in all other cases.
pub data JsonNumber : Type 0 where
  natural : ℕ → JsonNumber
  other_number : String → JsonNumber

mutual
  pub data CanonicalJsonValue : Type 0 where
    null : CanonicalJsonValue
    boolean : Bool → CanonicalJsonValue
    string : String → CanonicalJsonValue
    number : JsonNumber → CanonicalJsonValue
    array : JsonItems → CanonicalJsonValue
    object : JsonFields → CanonicalJsonValue

  pub data JsonItems : Type 0 where
    no_items : JsonItems
    item : CanonicalJsonValue → JsonItems → JsonItems

  pub data JsonFields : Type 0 where
    no_fields : JsonFields
    field : String → CanonicalJsonValue → JsonFields → JsonFields

pub record GitHubRepositoryRef : Type 0 where
  pub owner : RepositoryOwner
  pub name : RepositoryName

pub record Project : Type 0 where
  pub id : ProjectId
  pub workspace_id : WorkspaceId
  pub repository : GitHubRepositoryRef
  pub base_ref : GitRef
  pub title : ProjectTitle
  pub root_node_sha : GitCommitSha
  pub created_at : IsoTimestamp

pub record GoalValue : Type 0 where
  pub key : GoalKey
  pub title : GoalTitle
  pub desired_outcome : DesiredOutcome
  pub acceptance_criteria : List AcceptanceCriterion
  pub constraints : List GoalConstraint
  pub priority : NonNegativeInteger

pub record RunnerTypeLock : Type 0 where
  pub origin : RunnerTypeOrigin
  pub key : RunnerTypeKey
  pub schema_version : RunnerSchemaVersion
  pub integrity : RunnerTypeIntegrity

pub record RunnerValue : Type 0 where
  pub schema : String
  pub lock : RunnerTypeLock
  pub name : NonEmptyText
  pub value : CanonicalJsonValue

pub record NodePlan : Type 0 where
  pub schema : String
  pub next_goals : List GoalValue
  pub how : RunnerValue

pub record NodePayload : Type 0 where
  pub schema : String
  pub project_id : ProjectId
  pub commit_sha : GitCommitSha
  pub tree_sha : GitTreeSha
  pub plan : NodePlan

-- `contents` is the field `data`.
pub record NodePayloadEnvelope : Type 0 where
  pub schema : String
  pub codec : String
  pub decoded_size : NonNegativeInteger
  pub encoded_size : NonNegativeInteger
  pub digest : NodePayloadDigest
  pub contents : Base64Payload
