-- ===== src/Codec/Valid/Nodes.antt =====
-- packages/protocol/src/serialization.ts: well-formed Nodes.
use hunsu.Base.{◌≡◌, true}
use hunsu.Protocol.{
  Digests, NodeBase, RunChildNode, CoachingChildNode, Node, root, run_child, coaching_child,
}
use hunsu.Codec.Makers.{
  Dates, is_identifier, is_timestamp, is_git_sha, is_git_ref, is_prefixed_digest, goal_prefix,
  node_plan_prefix, node_payload_prefix,
}
use hunsu.Codec.Plans.{RunnerValueTypeRegistry}
use hunsu.Codec.Valid.{IsFilled, IsNodePlan}

pub record IsNodeBase ⦃dates : Dates⦄ ⦃digests : Digests⦄ (runner_types : RunnerValueTypeRegistry)
    (x : NodeBase) : Type 0 where
  pub project_id : is_identifier x.project_id ≡ true
  pub commit_sha : is_git_sha x.commit_sha ≡ true
  pub tree_sha : is_git_sha x.tree_sha ≡ true
  pub managed_ref : is_git_ref x.managed_ref ≡ true
  pub commit_title : IsFilled x.commit_title
  pub plan : IsNodePlan runner_types x.plan
  pub plan_digest : is_prefixed_digest node_plan_prefix x.plan_digest ≡ true
  pub payload_digest : is_prefixed_digest node_payload_prefix x.payload_digest ≡ true
  pub registered_at : is_timestamp x.registered_at ≡ true

pub record IsRunChildNode ⦃dates : Dates⦄ ⦃digests : Digests⦄
    (runner_types : RunnerValueTypeRegistry) (x : RunChildNode) : Type 0 where
  pub base : IsNodeBase runner_types x.base
  pub parent_sha : is_git_sha x.parent_sha ≡ true
  pub run_id : is_identifier x.run_id ≡ true
  pub consumed_goal_digest : is_prefixed_digest goal_prefix x.consumed_goal_digest ≡ true

pub record IsCoachingChildNode ⦃dates : Dates⦄ ⦃digests : Digests⦄
    (runner_types : RunnerValueTypeRegistry) (x : CoachingChildNode) : Type 0 where
  pub base : IsNodeBase runner_types x.base
  pub parent_sha : is_git_sha x.parent_sha ≡ true
  pub proposal_id : is_identifier x.proposal_id ≡ true

module _ ⦃dates : Dates⦄ ⦃digests : Digests⦄ (runner_types : RunnerValueTypeRegistry) where
  abbrev pub IsNode : Node → Type 0
  IsNode (root n) = IsNodeBase runner_types n
  IsNode (run_child n) = IsRunChildNode runner_types n
  IsNode (coaching_child n) = IsCoachingChildNode runner_types n
