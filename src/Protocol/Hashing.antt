-- ===== src/Protocol/Hashing.antt =====
-- What the engine takes from packages/protocol/src/serialization.ts: the digests of canonical JSON
-- and the length of the canonical text in bytes. The engine only compares their values, so they
-- stand behind an interface.
use hunsu.Base.{ℕ}
use hunsu.Protocol.Primitives.{GoalDigest, RunnerDigest, NodePlanDigest, NodePayloadDigest}
use hunsu.Protocol.Plans.{GoalValue, RunnerValue, NodePlan, NodePayload}

pub record Digests : Type 0 where
  pub goal_digest_of : GoalValue → GoalDigest
  pub runner_digest_of : RunnerValue → RunnerDigest
  pub plan_digest_of : NodePlan → NodePlanDigest
  pub payload_digest_of : NodePayload → NodePayloadDigest
  pub payload_bytes_of : NodePayload → ℕ

module _ ⦃digests : Digests⦄ where
  abbrev pub compute_goal_digest : GoalValue → GoalDigest
  compute_goal_digest = digests.goal_digest_of

  abbrev pub compute_runner_digest : RunnerValue → RunnerDigest
  compute_runner_digest = digests.runner_digest_of

  abbrev pub compute_node_plan_digest : NodePlan → NodePlanDigest
  compute_node_plan_digest = digests.plan_digest_of

  abbrev pub compute_node_payload_digest : NodePayload → NodePayloadDigest
  compute_node_payload_digest = digests.payload_digest_of

  abbrev pub canonical_utf8_byte_length : NodePayload → ℕ
  canonical_utf8_byte_length = digests.payload_bytes_of
