-- ===== src/Engine/Graph.antt =====
-- packages/core/src/engine.ts: `validateNodeGraph`, which climbs from every Node to its root. The
-- value `true` that it returns is the unit value here.
use hunsu.Base.{
  ℕ, zero, suc, List, [], ◌∷◌, Bool, false, not, ◌==◌, template, Option, none, some, map,
  if◌then◌else◌, ⊤,
}
use hunsu.Lists.{find, filter, length, includes, push, all_unique}
use hunsu.Protocol.{
  ok, err, GitCommitSha, Node, root, run_child, coaching_child, node_base, is_root, Project,
  ProjectId, ProjectState,
}
use hunsu.Engine.Errors.{Outcome, failure, invariant_violation}

-- The result, or `none` when the fuel is used up.
abbrev pub Climb : Type 0
Climb = Option (Outcome ⊤)

abbrev pub parent_sha_of : Node → Option GitCommitSha
parent_sha_of (root _) = none
parent_sha_of (run_child n) = some n.parent_sha
parent_sha_of (coaching_child n) = some n.parent_sha

abbrev pub sha_of : Node → GitCommitSha
sha_of n = (node_base n).commit_sha

abbrev pub has_sha : GitCommitSha → Node → Bool
has_sha sha n = sha_of n == sha

abbrev pub in_project : ProjectId → Node → Bool
in_project id n = (node_base n).project_id == id

-- `if (!next) return failure(...)`, or go on with the Node that is found
abbrev pub onward : GitCommitSha → (Node → Climb) → Option Node → Climb
onward sha continue_at none =
    some (
      failure invariant_violation (template ("Node " ∷ sha ∷ " has no parent in its Project" ∷ [])))
onward sha continue_at (some next) = continue_at next

-- One turn of the `while` loop at a Node whose parent is given, `none` for a root.
abbrev pub climb_step :
    List Node → List GitCommitSha → GitCommitSha → (Node → Climb) → Option GitCommitSha → Climb
climb_step nodes visited sha continue_at none = some (ok tt)
climb_step nodes visited sha continue_at (some parent_sha) =
    if includes visited sha
    then some (failure invariant_violation "Node Graph contains a cycle")
    else onward sha continue_at (find (has_sha parent_sha) nodes)

-- The `while` loop; `visited` holds the commits in the order of the visits.
unfoldable pub climb : ℕ → List Node → List GitCommitSha → Node → Climb
climb zero nodes visited cursor = none
climb (suc fuel) nodes visited cursor =
    climb_step nodes visited (sha_of cursor) (climb fuel nodes (push visited (sha_of cursor)))
      (parent_sha_of cursor)

-- The body of the loop over the Nodes of a Project.
abbrev pub check_parent : ℕ → List Node → Node → Option GitCommitSha → Climb
check_parent fuel nodes n none = some (ok tt)
check_parent fuel nodes n (some parent_sha) =
    if parent_sha == sha_of n
    then some (failure invariant_violation "Node cannot be its own parent")
    else onward (sha_of n) (climb fuel nodes (sha_of n ∷ [])) (find (has_sha parent_sha) nodes)

-- An early return ends a loop.
abbrev pub unless_failed : Climb → Climb → Climb
unless_failed none rest = none
unless_failed (some (ok _)) rest = rest
unless_failed (some (err e)) rest = some (err e)

-- Each climb visits every Node of the Project once at most.
unfoldable pub check_nodes : List Node → List Node → Climb
unfolding climb
check_nodes nodes [] = some (ok tt)
check_nodes nodes (n ∷ rest) =
    unless_failed (check_parent (suc (length nodes)) nodes n (parent_sha_of n))
      (check_nodes nodes rest)

-- `roots.length === 1 && roots[0]!.commitSha === project.rootNodeSha`
abbrev pub is_declared_root : Project → List Node → Bool
is_declared_root project [] = false
is_declared_root project (n ∷ []) = sha_of n == project.root_node_sha
is_declared_root project (_ ∷ _ ∷ _) = false

unfoldable pub check_project : List Node → Project → Climb
check_project all_nodes project =
    let nodes = filter (in_project project.id) all_nodes in
    if not (all_unique (map sha_of nodes))
    then some (
        failure invariant_violation
          (template ("Project " ∷ project.id ∷ " contains duplicate Node SHAs" ∷ [])))
    else if not (is_declared_root project (filter is_root nodes))
    then some (
        failure invariant_violation (
          template ("Project " ∷ project.id ∷ " must contain exactly its declared root Node" ∷ [])))
    else check_nodes nodes nodes

unfoldable pub check_projects : List Node → List Project → Climb
check_projects all_nodes [] = some (ok tt)
check_projects all_nodes (project ∷ rest) =
    unless_failed (check_project all_nodes project) (check_projects all_nodes rest)

unfoldable pub validate_node_graph : ProjectState → Climb
validate_node_graph s = check_projects s.nodes s.projects
