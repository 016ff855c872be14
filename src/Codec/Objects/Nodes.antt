-- ===== src/Codec/Objects/Nodes.antt =====
-- packages/protocol/src/model.ts: Nodes as objects.
use hunsu.Base.{String, List, [], ◌∷◌, ◌++◌}
use hunsu.Protocol.{CanonicalJsonValue, NodeBase, Node, root, run_child, coaching_child}
use hunsu.Codec.Objects.{string, object_of, plan_object}

abbrev base_entries : NodeBase → List (String × CanonicalJsonValue)
base_entries x =
    ("projectId", string x.project_id)
    ∷ ("commitSha", string x.commit_sha)
    ∷ ("treeSha", string x.tree_sha)
    ∷ ("managedRef", string x.managed_ref)
    ∷ ("commitTitle", string x.commit_title)
    ∷ ("plan", plan_object x.plan)
    ∷ ("planDigest", string x.plan_digest)
    ∷ ("payloadDigest", string x.payload_digest)
    ∷ ("registeredAt", string x.registered_at)
    ∷ []

unfoldable pub node_object : Node → CanonicalJsonValue
node_object (root n) = object_of (("type", string "root") ∷ base_entries n)
node_object (run_child n) = object_of (
    ("type", string "run_child") ∷ base_entries n.base
    ++ ("parentSha", string n.parent_sha)
      ∷ ("runId", string n.run_id)
      ∷ ("consumedGoalDigest", string n.consumed_goal_digest)
      ∷ [])
node_object (coaching_child n) = object_of (
    ("type", string "coaching_child") ∷ base_entries n.base
    ++ ("parentSha", string n.parent_sha) ∷ ("proposalId", string n.proposal_id) ∷ [])
