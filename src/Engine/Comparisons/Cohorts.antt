-- ===== src/Engine/Comparisons/Cohorts.antt =====
-- packages/core/src/engine.ts: cohort keys, and building and checking a comparison.
use hunsu.Base.{String, [], ◌∷◌, Bool, ◌&&◌, ◌==◌, ◌!=◌, not, template, ⊤}
use hunsu.Lists.{any, every, includes}
use hunsu.Protocol.{
  ok, ◌>>=◌, ◌>>◌, Digests, GitCommitSha, ProjectState, AlternativeComparison, ComparisonKind,
  CompareAlternatives, ComparisonRequest,
}
use hunsu.Engine.Errors.{Outcome, refuse_if, refuse_duplicate_if, invariant_violation}
use hunsu.Engine.Coaching.{is_comparison}
use hunsu.Engine.Comparisons.Resolution.{
  CompletedRunComparisonCandidate, Candidates, all_candidates, resolve_completed_run_candidates,
  validate_coached_how_experiment_candidates, validate_comparison_findings,
}

unfoldable pub kind_cohort_key : String → ComparisonKind → String
kind_cohort_key project_id (ComparisonKind.sibling_runs parent_node_sha) =
    template ("sibling_runs:" ∷ project_id ∷ ":" ∷ parent_node_sha ∷ [])
kind_cohort_key project_id (ComparisonKind.coached_how_experiment anchor_node_sha goal_digest) =
    template
      ("coached_how_experiment:" ∷ project_id ∷ ":" ∷ anchor_node_sha ∷ ":" ∷ goal_digest ∷ [])

abbrev pub comparison_cohort_key : AlternativeComparison → String
comparison_cohort_key c = kind_cohort_key c.project_id c.kind

-- `existing.nodeShas.some(nodeSha => comparison.nodeShas.includes(nodeSha))`
abbrev pub overlaps : AlternativeComparison → AlternativeComparison → Bool
overlaps existing comparison = any (includes comparison.node_shas) existing.node_shas

-- The existing comparisons that the loop in `validateComparisonCohortOverlap` refuses.
abbrev pub clashes : AlternativeComparison → AlternativeComparison → Bool
clashes comparison existing =
    existing.project_id == comparison.project_id
    && (overlaps existing comparison
        && comparison_cohort_key existing != comparison_cohort_key comparison)

unfoldable pub validate_comparison_cohort_overlap : ProjectState → AlternativeComparison → Outcome ⊤
validate_comparison_cohort_overlap s comparison =
    refuse_if (any (clashes comparison) s.comparisons) invariant_violation
      "Overlapping alternative comparisons must use the same explicit cohort key"

-- `candidates.every(candidate => candidate.node.parentSha === parentSha)`
abbrev pub share_parent : GitCommitSha → Candidates → Bool
share_parent parent_sha candidates =
    every (λ (c : CompletedRunComparisonCandidate). c.node.parent_sha == parent_sha)
      (all_candidates candidates)

abbrev pub comparison_of : CompareAlternatives → ComparisonKind → AlternativeComparison
comparison_of command kind = record {
  kind = kind;
  id = command.comparison_id;
  project_id = command.project_id;
  node_shas = command.node_shas;
  findings = command.findings;
  summary = command.summary;
  recorded_at = command.meta.requested_at;
}

module _ ⦃digests : Digests⦄ where
  -- The switch on `comparisonType`.
  unfoldable pub comparison_kind :
      ProjectState → CompareAlternatives → Candidates → ComparisonRequest → Outcome ComparisonKind
  comparison_kind s command candidates ComparisonRequest.sibling_runs = do
    let parent_node_sha = candidates.first.node.parent_sha
    refuse_if (not (share_parent parent_node_sha candidates)) invariant_violation
        "Compared sibling Run alternatives must have one shared parent"
    ok (ComparisonKind.sibling_runs parent_node_sha)
  comparison_kind s command candidates (ComparisonRequest.coached_how_experiment anchor_node_sha) =
      do
        goal_digest ←
            validate_coached_how_experiment_candidates s command.project_id anchor_node_sha
              candidates
        ok (ComparisonKind.coached_how_experiment anchor_node_sha goal_digest)

  unfoldable pub build_comparison :
      ProjectState → CompareAlternatives → Outcome AlternativeComparison
  build_comparison s command = do
    refuse_duplicate_if (any (is_comparison command.comparison_id) s.comparisons) "Comparison"
        command.comparison_id
    candidates ← resolve_completed_run_candidates s command.project_id command.node_shas
    validate_comparison_findings command.node_shas command.findings
    kind ← comparison_kind s command candidates command.comparison_type
    validate_comparison_cohort_overlap s (comparison_of command kind)
    ok (comparison_of command kind)

  -- The switch on `comparison.type`, but for the overlap test that both cases end in.
  unfoldable pub validate_comparison_kind :
      ProjectState → AlternativeComparison → Candidates → ComparisonKind → Outcome ⊤
  validate_comparison_kind s comparison candidates (ComparisonKind.sibling_runs parent_node_sha) =
      refuse_if (not (share_parent parent_node_sha candidates)) invariant_violation
        "Sibling Run comparison must contain completed result Nodes under its declared parent"
  validate_comparison_kind s comparison candidates
        (ComparisonKind.coached_how_experiment anchor_node_sha declared) =
      do
        goal_digest ←
            validate_coached_how_experiment_candidates s comparison.project_id anchor_node_sha
              candidates
        refuse_if (goal_digest != declared) invariant_violation
            "Coached How experiment Goal digest does not match its completed Runs"

  unfoldable pub validate_comparison : ProjectState → AlternativeComparison → Outcome ⊤
  validate_comparison s comparison = do
    refuse_duplicate_if (any (is_comparison comparison.id) s.comparisons) "Comparison" comparison.id
    candidates ← resolve_completed_run_candidates s comparison.project_id comparison.node_shas
    validate_comparison_findings comparison.node_shas comparison.findings
    validate_comparison_kind s comparison candidates comparison.kind
    validate_comparison_cohort_overlap s comparison
