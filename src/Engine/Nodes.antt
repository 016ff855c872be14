-- ===== src/Engine/Nodes.antt =====
-- packages/core/src/engine.ts: Node Plans, Node content, and what a new Node has to satisfy.
use hunsu.Base.{
  String, ℕ, List, [], ◌∷◌, Bool, template, ◌||◌, ◌&&◌, ◌==◌, ◌!=◌, not, map, ltb, nat_eq, ⊤,
  if◌then◌else◌,
}
use hunsu.Text.{text_length}
use hunsu.Lists.{any, filter, length, is_empty, all_unique}
use hunsu.Protocol.{
  Result, ok, err, ◌>>=◌, ◌>>◌, Digests, compute_goal_digest, compute_node_plan_digest,
  compute_node_payload_digest, canonical_utf8_byte_length, NodePlan, node_plan_schema, GoalValue,
  GoalDigest, GitCommitSha, IsoTimestamp, NodePayload, NodePayloadEnvelope, Node, NodeBase, root,
  run_child, coaching_child, node_base, is_root, node_payload_for, managed_node_ref, Project,
  ProjectState, max_node_payload_decoded_bytes, max_node_payload_encoded_bytes,
}
use hunsu.Engine.Errors.{
  Outcome, failure, refuse_if, refuse_duplicate_if, map_void, invariant_violation,
  ProjectIntegrityBoundary,
}
use hunsu.Engine.Lookup.{find_project, find_node, is_node}

-- The loop of `validatePlan`.
unfoldable pub validate_goals : List GoalValue → Outcome ⊤
validate_goals [] = ok tt
validate_goals (goal ∷ goals) =
    let rest = validate_goals goals in
    refuse_if (is_empty goal.acceptance_criteria || not (all_unique goal.acceptance_criteria))
      invariant_violation "Every Goal must contain unique non-empty acceptance criteria"
    >> rest

abbrev pub is_within : ℕ → ℕ → Bool
is_within limit size = not (ltb limit size)

abbrev verified : Result ⊤ String → Outcome ⊤
verified (ok _) = ok tt
verified (err message) =
    failure invariant_violation
      (template ("Node payload envelope verification failed: " ∷ message ∷ []))

module _ ⦃digests : Digests⦄ where
  abbrev pub has_digest : GoalDigest → GoalValue → Bool
  has_digest digest goal = compute_goal_digest goal == digest

  unfoldable pub validate_plan : NodePlan → Outcome ⊤
  unfolding validate_goals
  validate_plan plan = do
    refuse_if (plan.schema != node_plan_schema) invariant_violation
        "Node plan schema must be hunsu.node-plan.v1"
    refuse_if (not (all_unique (map (λ (goal : GoalValue). goal.key) plan.next_goals)))
        invariant_violation "Node Goal keys must be unique"
    refuse_if (not (all_unique (map compute_goal_digest plan.next_goals))) invariant_violation
        "Node Goal digests must be unique"
    validate_goals plan.next_goals

  -- The size tests, the last but one step of `validateNodeContent`.
  unfoldable pub validate_payload_sizes : NodePayload → NodePayloadEnvelope → Outcome ⊤
  validate_payload_sizes decoded payload = do
    let decoded_size = canonical_utf8_byte_length decoded
    refuse_if
        (not (nat_eq payload.decoded_size decoded_size)
          || ltb max_node_payload_decoded_bytes decoded_size)
        invariant_violation "Node payload decoded size is invalid"
    refuse_if
        (not (nat_eq payload.encoded_size (text_length payload.contents))
          || ltb max_node_payload_encoded_bytes payload.encoded_size)
        invariant_violation "Node payload encoded size is invalid"

  unfoldable pub validate_node_content :
      NodeBase → NodePayloadEnvelope → IsoTimestamp → ProjectIntegrityBoundary → Outcome ⊤
  validate_node_content node payload recorded_at integrity = do
    validate_plan node.plan
    refuse_if (node.plan_digest != compute_node_plan_digest node.plan) invariant_violation
        "Node plan digest does not match its canonical plan"
    refuse_if (node.managed_ref != managed_node_ref node.project_id node.commit_sha)
        invariant_violation "Node managed ref does not match its Project and commit SHA"
    refuse_if (node.registered_at != recorded_at) invariant_violation
        "Node registration timestamp must match its registration event"
    let decoded = node_payload_for node
    let digest = compute_node_payload_digest decoded
    refuse_if (node.payload_digest != digest || payload.digest != digest) invariant_violation
        "Node payload digest does not match its canonical decoded payload"
    validate_payload_sizes decoded payload
    verified (integrity.verify_node_payload decoded payload)

  -- The `else` branch of `validateNewNode`, for a Node with a parent.
  unfoldable pub validate_parent : ProjectState → NodeBase → GitCommitSha → Outcome ⊤
  validate_parent s node parent_sha = do
    refuse_if (parent_sha == node.commit_sha) invariant_violation "Node cannot be its own parent"
    map_void (find_node s node.project_id parent_sha)

  -- The test on `node.type` in `validateNewNode`.
  unfoldable pub validate_place : ProjectState → Project → Node → Outcome ⊤
  unfolding validate_parent
  validate_place s project (root node) = do
    refuse_if (any (λ n. (node_base n).project_id == node.project_id && is_root n) s.nodes)
        invariant_violation "Project already has a root Node"
    refuse_if (node.commit_sha != project.root_node_sha) invariant_violation
        "Root Node must match the Project root SHA"
  validate_place s project (run_child node) = validate_parent s node.base node.parent_sha
  validate_place s project (coaching_child node) = validate_parent s node.base node.parent_sha

  unfoldable pub validate_new_node :
      ProjectState
      → Node
      → NodePayloadEnvelope
      → IsoTimestamp
      → ProjectIntegrityBoundary
      → Outcome ⊤
  validate_new_node s node payload recorded_at integrity = do
    let base = node_base node
    project ← find_project s base.project_id
    refuse_duplicate_if (any (is_node base.project_id base.commit_sha) s.nodes) "Node"
        base.commit_sha
    validate_place s project node
    validate_node_content base payload recorded_at integrity

  unfoldable pub inherit_run_child_plan : NodePlan → GoalDigest → Outcome NodePlan
  inherit_run_child_plan source consumed_goal_digest =
      if nat_eq (length (filter (has_digest consumed_goal_digest) source.next_goals)) 1
      then ok (record {
        schema = node_plan_schema;
        next_goals = filter (λ goal. not (has_digest consumed_goal_digest goal)) source.next_goals;
        how = source.how;
      })
      else failure invariant_violation "A Run must digest exactly one Goal from its source Node"
