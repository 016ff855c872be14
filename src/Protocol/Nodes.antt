-- ===== src/Protocol/Nodes.antt =====
-- packages/protocol/src/model.ts: Nodes, and the ref that keeps a Node's commit alive.
use hunsu.Base.{[], ◌∷◌, template, Bool, true, false}
use hunsu.Protocol.Primitives.{
  ProjectId, GitCommitSha, GitTreeSha, GitRef, NonEmptyText, NodePlanDigest, NodePayloadDigest,
  IsoTimestamp, RunId, GoalDigest, CoachingProposalId,
}
use hunsu.Protocol.Plans.{NodePlan, NodePayload, node_payload_schema}

pub record NodeBase : Type 0 where
  pub project_id : ProjectId
  pub commit_sha : GitCommitSha
  pub tree_sha : GitTreeSha
  pub managed_ref : GitRef
  pub commit_title : NonEmptyText
  pub plan : NodePlan
  pub plan_digest : NodePlanDigest
  pub payload_digest : NodePayloadDigest
  pub registered_at : IsoTimestamp

abbrev pub RootNode : Type 0
RootNode = NodeBase

pub record RunChildNode : Type 0 where
  pub base : NodeBase
  pub open base use *
  pub parent_sha : GitCommitSha
  pub run_id : RunId
  pub consumed_goal_digest : GoalDigest

pub record CoachingChildNode : Type 0 where
  pub base : NodeBase
  pub open base use *
  pub parent_sha : GitCommitSha
  pub proposal_id : CoachingProposalId

pub data Node : Type 0 where
  root : RootNode → Node
  run_child : RunChildNode → Node
  coaching_child : CoachingChildNode → Node

-- The fields that every kind of Node has.
abbrev pub node_base : Node → NodeBase
node_base (root n) = n
node_base (run_child n) = n.base
node_base (coaching_child n) = n.base

abbrev pub is_root : Node → Bool
is_root (root _) = true
is_root (run_child _) = false
is_root (coaching_child _) = false

-- `nodePayloadFor` of packages/protocol/src/serialization.ts
unfoldable pub node_payload_for : NodeBase → NodePayload
node_payload_for node = record {
  schema = node_payload_schema;
  project_id = node.project_id;
  commit_sha = node.commit_sha;
  tree_sha = node.tree_sha;
  plan = node.plan;
}

unfoldable pub managed_node_ref : ProjectId → GitCommitSha → GitRef
managed_node_ref project_id commit_sha =
    template ("refs/tags/hunsu/node/" ∷ project_id ∷ "/" ∷ commit_sha ∷ [])
