-- ===== src/Codec/Nodes.antt =====
-- packages/protocol/src/serialization.ts: `decodeNode`.
use hunsu.Base.{String, not, List, [], ◌∷◌, if◌then◌else◌}
use hunsu.Protocol.{ok, ◌>>=◌, Digests, NodeBase, Node, root, run_child, coaching_child}
use hunsu.Codec.Values.{Fields, Decoded, invalid, at, exact_record}
use hunsu.Codec.Makers.{Dates}
use hunsu.Codec.Fields.{
  Decoder, at_key, decode_id, decode_text, decode_git_sha, decode_ref, decode_goal_digest,
  decode_plan_digest, decode_payload_digest, decode_timestamp,
}
use hunsu.Codec.Plans.{RunnerValueTypeRegistry, decode_node_plan}
use hunsu.Codec.Records.{is_tagged, has_tag}

abbrev pub node_keys : List String → List String
node_keys child_keys =
    "type" ∷ "projectId" ∷ "commitSha" ∷ "treeSha" ∷ "managedRef" ∷ "commitTitle" ∷ "plan"
    ∷ "planDigest" ∷ "payloadDigest" ∷ "registeredAt" ∷ child_keys

module _ ⦃dates : Dates⦄ ⦃digests : Digests⦄ (runner_types : RunnerValueTypeRegistry) where
  -- The fields that every Node has.
  unfoldable pub decode_node_base : Fields → String → Decoded NodeBase
  decode_node_base fields path = do
    project_id ← at_key (decode_id "projectId") "projectId" fields path
    commit_sha ← at_key decode_git_sha "commitSha" fields path
    tree_sha ← at_key decode_git_sha "treeSha" fields path
    managed_ref ← at_key decode_ref "managedRef" fields path
    commit_title ← at_key decode_text "commitTitle" fields path
    plan ← at_key (decode_node_plan runner_types) "plan" fields path
    plan_digest ← at_key decode_plan_digest "planDigest" fields path
    payload_digest ← at_key decode_payload_digest "payloadDigest" fields path
    registered_at ← at_key decode_timestamp "registeredAt" fields path
    ok (record {
      project_id = project_id;
      commit_sha = commit_sha;
      tree_sha = tree_sha;
      managed_ref = managed_ref;
      commit_title = commit_title;
      plan = plan;
      plan_digest = plan_digest;
      payload_digest = payload_digest;
      registered_at = registered_at;
    })

  unfoldable pub decode_root : Decoder Node
  decode_root value path = do
    fields ← exact_record value path (node_keys [])
    base ← decode_node_base fields path
    ok (root base)

  unfoldable pub decode_run_child : Decoder Node
  decode_run_child value path = do
    fields ← exact_record value path (node_keys ("parentSha" ∷ "runId" ∷ "consumedGoalDigest" ∷ []))
    base ← decode_node_base fields path
    parent_sha ← at_key decode_git_sha "parentSha" fields path
    run_id ← at_key (decode_id "runId") "runId" fields path
    consumed_goal_digest ← at_key decode_goal_digest "consumedGoalDigest" fields path
    ok (
        run_child (record {
          base = base;
          parent_sha = parent_sha;
          run_id = run_id;
          consumed_goal_digest = consumed_goal_digest;
        }))

  unfoldable pub decode_coaching_child : Decoder Node
  decode_coaching_child value path = do
    fields ← exact_record value path (node_keys ("parentSha" ∷ "proposalId" ∷ []))
    base ← decode_node_base fields path
    parent_sha ← at_key decode_git_sha "parentSha" fields path
    proposal_id ← at_key (decode_id "coachingProposalId") "proposalId" fields path
    ok (coaching_child (record { base = base; parent_sha = parent_sha; proposal_id = proposal_id }))

  unfoldable pub decode_node : Decoder Node
  decode_node value path =
      if not (is_tagged "type" value)
      then invalid path "Node must be a typed object"
      else if has_tag "type" value "root"
      then decode_root value path
      else if has_tag "type" value "run_child"
      then decode_run_child value path
      else if has_tag "type" value "coaching_child"
      then decode_coaching_child value path
      else invalid (at path "type") "unsupported Node type"
