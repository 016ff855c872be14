-- ===== src/Codec/RoundTrip/Nodes.antt =====
-- Nodes: what `decodeNode` of packages/protocol/src/serialization.ts reads back.
use hunsu.Base.{◌≡◌, refl, String, ◌==◌}
use hunsu.Protocol.{ok, Digests, Node, root, run_child, coaching_child}
use hunsu.Codec.Values.{exact_record, keys_of, property, sort_keys}
use hunsu.Codec.Makers.{Dates}
use hunsu.Codec.Plans.{RunnerValueTypeRegistry}
use hunsu.Codec.Nodes.{
  decode_node, decode_root, decode_run_child, decode_coaching_child, decode_node_base,
}
use hunsu.Codec.Canonical.{unknown_of}
use hunsu.Codec.Objects.Nodes.{node_object}
use hunsu.Codec.Valid.Nodes.{IsNode}
use hunsu.Codec.RoundTrip.Plans.{decode_node_plan-plan_object}

module _ ⦃dates : Dates⦄ ⦃digests : Digests⦄ (runner_types : RunnerValueTypeRegistry) where
  pub decode_node-node_object :
      (x : Node)
      → IsNode runner_types x
      → (path : String) → decode_node runner_types (unknown_of (node_object x)) path ≡ ok x
  unfolding unknown_of decode_node node_object decode_root decode_run_child decode_coaching_child
      decode_node_base exact_record keys_of property sort_keys ◌==◌
  decode_node-node_object (root n) v path =
      rw
        (
          v.project_id,
          v.commit_sha,
          v.tree_sha,
          v.managed_ref,
          v.commit_title,
          decode_node_plan-plan_object runner_types n.plan v.plan,
          v.plan_digest,
          v.payload_digest,
          v.registered_at,
        )
        refl
  decode_node-node_object (run_child n) v path =
      rw
        (
          v.base.project_id,
          v.base.commit_sha,
          v.base.tree_sha,
          v.base.managed_ref,
          v.base.commit_title,
          decode_node_plan-plan_object runner_types n.base.plan v.base.plan,
          v.base.plan_digest,
          v.base.payload_digest,
          v.base.registered_at,
          v.parent_sha,
          v.run_id,
          v.consumed_goal_digest,
        )
        refl
  decode_node-node_object (coaching_child n) v path =
      rw
        (
          v.base.project_id,
          v.base.commit_sha,
          v.base.tree_sha,
          v.base.managed_ref,
          v.base.commit_title,
          decode_node_plan-plan_object runner_types n.base.plan v.base.plan,
          v.base.plan_digest,
          v.base.payload_digest,
          v.base.registered_at,
          v.parent_sha,
          v.proposal_id,
        )
        refl
