-- ===== src/Engine/Comparisons/Resolution.antt =====
-- packages/core/src/engine.ts: the completed Runs behind the Nodes of a comparison.
use hunsu.Base.{
  String, List, [], ◌∷◌, Bool, true, false, ◌||◌, ◌&&◌, ◌==◌, ◌!=◌, not, nat_eq, Option, none, some,
  ⊤, map,
}
use hunsu.Lists.{any, every, filter, find, length, all_unique, includes}
use hunsu.Protocol.{
  ok, ◌>>=◌, ◌>>◌, Digests, compute_goal_digest, compute_runner_digest, compute_node_plan_digest,
  GitCommitSha, ProjectId, GoalDigest, Node, NodeBase, node_base, RunChildNode, CoachingChildNode,
  root, run_child, coaching_child, ProjectState, CompletedRun, CoachingProposal,
  CoachingProposalDecision, confirmed, rejected, FindingSummary, ComparisonFinding, NodePlan,
}
use hunsu.Engine.Errors.{Outcome, failure, refuse_if, invariant_violation}
use hunsu.Engine.Lookup.{find_node, find_completed_run}
use hunsu.Engine.Nodes.{has_digest}

pub record CompletedRunComparisonCandidate : Type 0 where
  pub node : RunChildNode
  pub run : CompletedRun
  pub source : Node

-- At least two candidates, so that `candidates[0]!` is there.
pub record Candidates : Type 0 where
  pub first : CompletedRunComparisonCandidate
  pub others : List CompletedRunComparisonCandidate

abbrev pub all_candidates : Candidates → List CompletedRunComparisonCandidate
all_candidates c = c.first ∷ c.others

abbrev as_run_child : Node → Outcome RunChildNode
as_run_child (run_child node) = ok node
as_run_child _ =
    failure invariant_violation "Only completed Run result Nodes can be compared as alternatives"

module _ ⦃digests : Digests⦄ where
  -- One round of the loop in `resolveCompletedRunCandidates`.
  unfoldable pub resolve_candidate :
      ProjectState → ProjectId → GitCommitSha → Outcome CompletedRunComparisonCandidate
  resolve_candidate s project_id sha = do
    found ← find_node s project_id sha
    node ← as_run_child found
    run ← find_completed_run s node.run_id
    refuse_if
        (run.project_id != project_id
          || (run.source_node_sha != node.parent_sha
              || (run.result_node_sha != node.commit_sha
                  || run.goal_digest != node.consumed_goal_digest)))
        invariant_violation
        "Comparison candidate must bind an actual completed Run to its source and result Node"
    source ← find_node s project_id run.source_node_sha
    let plan = (node_base source).plan
    refuse_if
        (not (nat_eq (length (filter (has_digest run.goal_digest) plan.next_goals)) 1)
          || compute_goal_digest run.goal != run.goal_digest)
        invariant_violation
        "Comparison candidate Run must bind one canonical Goal from its source Node"
    refuse_if
        (run.runner_digest != compute_runner_digest run.runner
          || run.runner_digest != compute_runner_digest plan.how)
        invariant_violation "Comparison candidate Run must bind the exact How from its source Node"
    ok (record { node = node; run = run; source = source })

  unfoldable pub resolve_each :
      ProjectState → ProjectId → List GitCommitSha → Outcome (List CompletedRunComparisonCandidate)
  resolve_each s project_id [] = ok []
  resolve_each s project_id (sha ∷ shas) = do
    candidate ← resolve_candidate s project_id sha
    rest ← resolve_each s project_id shas
    ok (candidate ∷ rest)

  unfoldable pub resolve_completed_run_candidates :
      ProjectState → ProjectId → List GitCommitSha → Outcome Candidates
  resolve_completed_run_candidates s project_id (sha ∷ another ∷ shas) = do
    refuse_if (not (all_unique (sha ∷ another ∷ shas))) invariant_violation
        "Comparison Node SHAs must be unique"
    first ← resolve_candidate s project_id sha
    others ← resolve_each s project_id (another ∷ shas)
    ok (record { first = first; others = others })
  resolve_completed_run_candidates s project_id _ =
      failure invariant_violation "An alternative comparison requires at least two result Nodes"

  -- `proposal.sourceNodeSha !== … || …` for the proposal that is found
  abbrev pub is_foreign_proposal : GitCommitSha → String → Option CoachingProposal → Bool
  is_foreign_proposal anchor_sha source_plan_digest none = true
  is_foreign_proposal anchor_sha source_plan_digest (some proposal) =
      proposal.source_node_sha != anchor_sha
      || (proposal.proposed_plan_digest != source_plan_digest
          || compute_node_plan_digest proposal.proposed_plan != proposal.proposed_plan_digest)

  abbrev pub is_confirmation : CoachingChildNode → CoachingProposalDecision → Bool
  is_confirmation source (rejected _) = false
  is_confirmation source (confirmed d) =
      d.proposal_id == source.proposal_id && d.child_node_sha == source.commit_sha

  abbrev foreign_source : Outcome ⊤
  foreign_source =
      failure invariant_violation
        "Coached How experiment sources must be the anchor or its direct Coaching children"

  -- The block under `source.commitSha !== anchor.value.commitSha`.
  unfoldable pub validate_coached_source : ProjectState → ProjectId → NodeBase → Node → Outcome ⊤
  validate_coached_source s project_id anchor (coaching_child source) = do
    refuse_if (source.parent_sha != anchor.commit_sha) invariant_violation
        "Coached How experiment sources must be the anchor or its direct Coaching children"
    refuse_if (source.tree_sha != anchor.tree_sha) invariant_violation
        "Coached How experiment source must preserve the anchor tree SHA"
    refuse_if
        (is_foreign_proposal anchor.commit_sha (compute_node_plan_digest source.plan) (
            find
              (λ (p : CoachingProposal). p.project_id == project_id && p.id == source.proposal_id)
              s.coaching_proposals)
          || not (any (is_confirmation source) s.coaching_proposal_decisions))
        invariant_violation
        "Coached How experiment source must come from a directly confirmed Coaching proposal"
  validate_coached_source s project_id anchor (root source) = foreign_source
  validate_coached_source s project_id anchor (run_child source) = foreign_source

  abbrev source_unless_anchor : ProjectState → ProjectId → NodeBase → Node → Bool → Outcome ⊤
  source_unless_anchor s project_id anchor source true = ok tt
  source_unless_anchor s project_id anchor source false =
      validate_coached_source s project_id anchor source

  -- One round of the last loop of `validateCoachedHowExperimentCandidates`.
  unfoldable pub validate_experiment_source : ProjectState → ProjectId → NodeBase → Node → Outcome ⊤
  validate_experiment_source s project_id anchor source = do
    let base = node_base source
    refuse_if (base.plan_digest != compute_node_plan_digest base.plan) invariant_violation
        "Coached How experiment source must have a valid canonical Node Plan digest"
    source_unless_anchor s project_id anchor source (base.commit_sha == anchor.commit_sha)
    let plan_with_anchor_how : NodePlan = record {
      schema = base.plan.schema;
      next_goals = base.plan.next_goals;
      how = anchor.plan.how;
    }
    refuse_if
        (compute_node_plan_digest plan_with_anchor_how != compute_node_plan_digest anchor.plan)
        invariant_violation
        "Coached How experiment source plans must be byte-identical except for How"

  unfoldable pub validate_experiment_sources :
      ProjectState → ProjectId → NodeBase → List CompletedRunComparisonCandidate → Outcome ⊤
  validate_experiment_sources s project_id anchor [] = ok tt
  validate_experiment_sources s project_id anchor (candidate ∷ rest) = do
    validate_experiment_source s project_id anchor candidate.source
    validate_experiment_sources s project_id anchor rest

  unfoldable pub validate_coached_how_experiment_candidates :
      ProjectState → ProjectId → GitCommitSha → Candidates → Outcome GoalDigest
  validate_coached_how_experiment_candidates s project_id anchor_sha candidates = do
    found ← find_node s project_id anchor_sha
    let anchor = node_base found
    let all = all_candidates candidates
    refuse_if
        (not (
          all_unique
            (map (λ (c : CompletedRunComparisonCandidate). (node_base c.source).commit_sha) all)))
        invariant_violation
        "A Coached How experiment requires one completed Run result per distinct source Node"
    let goal_digest = candidates.first.run.goal_digest
    refuse_if
        (not
          (every (λ (c : CompletedRunComparisonCandidate). c.run.goal_digest == goal_digest) all))
        invariant_violation "Coached How experiment Runs must digest the same canonical Goal"
    refuse_if (anchor.plan_digest != compute_node_plan_digest anchor.plan) invariant_violation
        "Coached How experiment anchor must have a valid canonical Node Plan digest"
    validate_experiment_sources s project_id anchor all
    ok goal_digest

-- `summaryShas` of one finding against the compared Nodes
abbrev pub is_incomplete_finding : List GitCommitSha → List GitCommitSha → Bool
is_incomplete_finding node_shas summary_shas =
    not (nat_eq (length summary_shas) (length node_shas))
    || (not (all_unique summary_shas) || any (λ sha. not (includes summary_shas sha)) node_shas)

unfoldable pub validate_comparison_findings : List GitCommitSha → List ComparisonFinding → Outcome ⊤
validate_comparison_findings node_shas [] = ok tt
validate_comparison_findings node_shas (finding ∷ findings) =
    let rest = validate_comparison_findings node_shas findings in
    refuse_if
      (is_incomplete_finding node_shas
        (map (λ (item : FindingSummary). item.node_sha) finding.summaries))
      invariant_violation
      "Every comparison finding must summarize every included result Node exactly once"
    >> rest
