-- ===== src/Engine/Divergence.antt =====
-- packages/core/src/engine.ts: `unresolvedDivergenceCount`. A `Map` from cohort keys to sets of
-- commits is an association list in insertion order.
use hunsu.Base.{
  ℕ, ◌+◌, String, List, [], ◌∷◌, ◌++◌, Bool, false, not, ◌&&◌, ◌||◌, ◌==◌, map, ltb, if◌then◌else◌,
}
use hunsu.Lists.{every, filter, length, includes, set_from, set_of}
use hunsu.Protocol.{
  GitCommitSha, Node, root, run_child, coaching_child, RunChildNode, ProjectId, ProjectState,
  AlternativeComparison, ComparisonKind,
}
use hunsu.Engine.Comparisons.{comparison_cohort_key}
use hunsu.Engine.Decisions.{selected_shas, rejected_shas}

-- `oneSelected`, on the candidates that are selected and not rejected
abbrev pub is_only_one_left : List GitCommitSha → List GitCommitSha → List GitCommitSha → Bool
is_only_one_left node_shas rejected (candidate ∷ []) =
    every (λ sha. sha == candidate || includes rejected sha) node_shas
is_only_one_left node_shas rejected _ = false

unfoldable pub is_candidate_cohort_resolved :
    List GitCommitSha → List GitCommitSha → List GitCommitSha → Bool
is_candidate_cohort_resolved node_shas selected rejected =
    every (includes rejected) node_shas
    || is_only_one_left node_shas rejected
        (filter (λ sha. includes selected sha && not (includes rejected sha)) node_shas)

-- The two filters on `node.type` and `node.projectId`.
abbrev pub run_child_of : ProjectId → Node → List RunChildNode
run_child_of project_id (root _) = []
run_child_of project_id (run_child n) = if n.project_id == project_id then n ∷ [] else []
run_child_of project_id (coaching_child _) = []

unfoldable pub run_children : ProjectId → List Node → List RunChildNode
run_children project_id [] = []
run_children project_id (n ∷ ns) = run_child_of project_id n ++ run_children project_id ns

-- A cohort of two at least that is not resolved counts one.
abbrev pub unresolved : List GitCommitSha → List GitCommitSha → List GitCommitSha → ℕ
unresolved selected rejected node_shas =
    if ltb (length node_shas) 2 || is_candidate_cohort_resolved node_shas selected rejected
    then 0
    else 1

unfoldable pub total : List ℕ → ℕ
total [] = 0
total (n ∷ ns) = n + total ns

abbrev pub siblings_of : List RunChildNode → GitCommitSha → List GitCommitSha
siblings_of children parent_sha =
    map (λ (n : RunChildNode). n.commit_sha)
      (filter (λ (n : RunChildNode). n.parent_sha == parent_sha) children)

-- `coachedCohorts.set(key, nodeShas)`, with the commits of the comparison added to those under the key
unfoldable pub add_cohort :
    String
    → List GitCommitSha
    → List (String × List GitCommitSha)
    → List (String × List GitCommitSha)
add_cohort key node_shas [] = (key, set_of node_shas) ∷ []
add_cohort key node_shas ((other, shas) ∷ cohorts) =
    let rest = add_cohort key node_shas cohorts in
    if other == key then (other, set_from shas node_shas) ∷ cohorts else (other, shas) ∷ rest

abbrev pub is_coached : ProjectId → AlternativeComparison → ComparisonKind → Bool
is_coached project_id c (ComparisonKind.sibling_runs _) = false
is_coached project_id c (ComparisonKind.coached_how_experiment _ _) = c.project_id == project_id

unfoldable pub coached_cohorts :
    ProjectId
    → List (String × List GitCommitSha)
    → List AlternativeComparison
    → List (String × List GitCommitSha)
coached_cohorts project_id cohorts [] = cohorts
coached_cohorts project_id cohorts (c ∷ cs) =
    coached_cohorts project_id
      (if is_coached project_id c c.kind
        then add_cohort (comparison_cohort_key c) c.node_shas cohorts
        else cohorts)
      cs

unfoldable pub unresolved_divergence_count : ProjectState → ProjectId → ℕ
unfolding is_candidate_cohort_resolved
unresolved_divergence_count s project_id =
    let children = run_children project_id s.nodes in
    let parents = set_of (map (λ (n : RunChildNode). n.parent_sha) children) in
    let selected = selected_shas project_id s.decisions in
    let rejected = rejected_shas project_id s.decisions in
    total
      (map (λ parent_sha. unresolved selected rejected (siblings_of children parent_sha)) parents)
    + total (
        map (λ cohort. unresolved selected rejected cohort.1)
          (coached_cohorts project_id [] s.comparisons))
