-- ===== src/Acceptance/Frame.antt =====
-- What the tests of a new Node in packages/core/src/engine.ts read of a state.
use hunsu.Base.{◌≡◌}
use hunsu.Protocol.{
  Digests, ProjectState, ProjectId, GitCommitSha, Node, root, run_child, coaching_child,
  NodePayloadEnvelope, IsoTimestamp, Project,
}
use hunsu.Engine.Errors.{ProjectIntegrityBoundary}
use hunsu.Engine.Lookup.{find_node, find_project}
use hunsu.Engine.Nodes.{validate_new_node, validate_place}

module _ (s t : ProjectState) (nodes : t.nodes ≡ s.nodes) where
  pub find_node_frame :
      (project_id : ProjectId) (sha : GitCommitSha)
      → find_node t project_id sha ≡ find_node s project_id sha
  unfolding find_node
  find_node_frame project_id sha = rw nodes

  module _ ⦃digests : Digests⦄ where
    validate_place_frame :
        (project : Project) (node : Node)
        → validate_place t project node ≡ validate_place s project node
    unfolding validate_place
    validate_place_frame project (root node) = rw nodes
    validate_place_frame project (run_child node) =
        rw (find_node_frame node.project_id node.parent_sha)
    validate_place_frame project (coaching_child node) =
        rw (find_node_frame node.project_id node.parent_sha)

    pub validate_new_node_frame :
        t.projects ≡ s.projects
        → (node : Node) (payload : NodePayloadEnvelope) (at : IsoTimestamp)
          (integrity : ProjectIntegrityBoundary)
        → validate_new_node t node payload at integrity
          ≡ validate_new_node s node payload at integrity
    unfolding validate_new_node find_project
    validate_new_node_frame projects node payload at integrity =
        simp (nodes, projects, validate_place_frame)
