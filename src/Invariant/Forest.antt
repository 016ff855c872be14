-- ===== src/Invariant/Forest.antt =====
-- Lists of Nodes in which a parent comes before its children, for the Nodes that
-- packages/core/src/engine.ts registers one after the other.
use hunsu.Base.{
  ◌≡◌, arith, Bool, true, ◌&&◌, not, List, [], ◌∷◌, ◌++◌, append_assoc, append-nil, ◌==◌,
}
use hunsu.Lists.{any, push}
use hunsu.Protocol.{Node, root, run_child, coaching_child, node_base, is_root, ProjectId}
use hunsu.Engine.Lookup.{is_node}

abbrev pub is_root_in : ProjectId → Node → Bool
is_root_in project_id m = (node_base m).project_id == project_id && is_root m

-- A root is the first of its Project, and a child stands behind its parent.
abbrev pub has_place : List Node → Node → Bool
has_place earlier (root n) = not (any (is_root_in n.project_id) earlier)
has_place earlier (run_child n) = any (is_node n.project_id n.parent_sha) earlier
has_place earlier (coaching_child n) = any (is_node n.project_id n.parent_sha) earlier

abbrev pub is_new : List Node → Node → Bool
is_new earlier n = not (any (is_node (node_base n).project_id (node_base n).commit_sha) earlier)

abbrev pub grows_from : List Node → List Node → Bool
grows_from earlier [] = true
grows_from earlier (n ∷ ns) =
    is_new earlier n && (has_place earlier n && grows_from (push earlier n) ns)

pub grows_from-push :
    (earlier ns : List Node) (n : Node)
    → grows_from earlier ns ≡ true
    → is_new (earlier ++ ns) n ≡ true
    → has_place (earlier ++ ns) n ≡ true
    → grows_from earlier (push ns n) ≡ true
grows_from-push earlier [] n h new place = ground (arith, append-nil earlier)
grows_from-push earlier (m ∷ ns) n h new place =
    ground (arith, grows_from-push (push earlier m) ns n, append_assoc earlier (m ∷ []) ns)
