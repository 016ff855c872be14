-- ===== src/Engine/Decisions.antt =====
-- packages/core/src/engine.ts: selecting and rejecting compared alternatives.
use hunsu.Base.{
  String, List, [], ◌∷◌, Bool, false, ◌&&◌, ◌==◌, not, Option, none, some, ⊤, if◌then◌else◌, ◌++◌,
}
use hunsu.Lists.{any, find, filter, includes, is_empty, all_unique}
use hunsu.Protocol.{
  ok, ◌>>=◌, ◌>>◌, GitCommitSha, ProjectId, ComparisonId, ProjectState, DomainActor,
  AlternativeComparison, AlternativeDecision, selection, rejection, SelectionDecision,
  RejectionDecision, SelectAlternative, RejectAlternatives,
}
use hunsu.Engine.Errors.{Outcome, not_found, refuse_if, invariant_violation, invalid_transition}
use hunsu.Engine.Lookup.{is_rejected_node}
use hunsu.Engine.Journal.{validate_decision_id}
use hunsu.Engine.Projects.{require_user}
use hunsu.Engine.Comparisons.{comparison_cohort_key}

abbrev pub is_comparison_in : ProjectId → ComparisonId → AlternativeComparison → Bool
is_comparison_in project_id id c = c.project_id == project_id && c.id == id

unfoldable pub find_comparison :
    ProjectState → ProjectId → ComparisonId → Option AlternativeComparison
find_comparison s project_id id = find (is_comparison_in project_id id) s.comparisons

abbrev pub comparison_or_not_found :
    Option AlternativeComparison → ComparisonId → Outcome AlternativeComparison
comparison_or_not_found none id = not_found "Comparison" id
comparison_or_not_found (some comparison) id = ok comparison

-- `prior !== undefined && comparisonCohortKey(prior) === cohortKey`
abbrev pub has_cohort_key : String → Option AlternativeComparison → Bool
has_cohort_key key none = false
has_cohort_key key (some prior) = comparison_cohort_key prior == key

-- The two filters on `state.decisions` in `validateSelectionDecision`.
abbrev pub selects_in_cohort : ProjectState → ProjectId → String → AlternativeDecision → Bool
selects_in_cohort s project_id key (rejection _) = false
selects_in_cohort s project_id key (selection d) =
    d.project_id == project_id && has_cohort_key key (find_comparison s project_id d.comparison_id)

unfoldable pub validate_selection_decision :
    ProjectState → SelectionDecision → DomainActor → Outcome ⊤
validate_selection_decision s decision actor = do
  require_user actor "Alternative selection requires explicit user confirmation"
  validate_decision_id s decision.id
  comparison ←
      comparison_or_not_found (find_comparison s decision.project_id decision.comparison_id)
        decision.comparison_id
  refuse_if (not (includes comparison.node_shas decision.selected_node_sha)) invariant_violation
      "Selected Node was not part of the comparison"
  refuse_if (is_rejected_node s decision.project_id decision.selected_node_sha) invalid_transition
      "Rejected Node cannot be selected"
  refuse_if
      (not (
        is_empty (
          filter (selects_in_cohort s decision.project_id (comparison_cohort_key comparison))
            s.decisions)))
      invalid_transition "Alternative cohort already has a selected future"

abbrev pub selection_of : SelectAlternative → SelectionDecision
selection_of command = record {
  id = command.decision_id;
  project_id = command.project_id;
  comparison_id = command.comparison_id;
  selected_node_sha = command.selected_node_sha;
  rationale = command.rationale;
  decided_at = command.meta.requested_at;
}

unfoldable pub build_selection : ProjectState → SelectAlternative → Outcome SelectionDecision
build_selection s command = do
  validate_selection_decision s (selection_of command) command.meta.actor
  ok (selection_of command)

-- The items that the `flatMap` over `state.decisions` gives for one decision.
abbrev pub selected_of : ProjectId → AlternativeDecision → List GitCommitSha
selected_of project_id (rejection _) = []
selected_of project_id (selection d) =
    if d.project_id == project_id then d.selected_node_sha ∷ [] else []

abbrev pub rejected_of : ProjectId → AlternativeDecision → List GitCommitSha
rejected_of project_id (selection _) = []
rejected_of project_id (rejection d) =
    if d.project_id == project_id then d.rejected_node_shas else []

-- The members of `selected` and of `rejected`.
unfoldable pub selected_shas : ProjectId → List AlternativeDecision → List GitCommitSha
selected_shas project_id [] = []
selected_shas project_id (d ∷ ds) = selected_of project_id d ++ selected_shas project_id ds

unfoldable pub rejected_shas : ProjectId → List AlternativeDecision → List GitCommitSha
rejected_shas project_id [] = []
rejected_shas project_id (d ∷ ds) = rejected_of project_id d ++ rejected_shas project_id ds

unfoldable pub validate_rejection_decision :
    ProjectState → RejectionDecision → DomainActor → Outcome ⊤
validate_rejection_decision s decision actor = do
  require_user actor "Alternative rejection requires explicit user confirmation"
  validate_decision_id s decision.id
  comparison ←
      comparison_or_not_found (find_comparison s decision.project_id decision.comparison_id)
        decision.comparison_id
  refuse_if (not (all_unique decision.rejected_node_shas)) invariant_violation
      "Rejected Node SHAs must be unique"
  refuse_if (any (λ sha. not (includes comparison.node_shas sha)) decision.rejected_node_shas)
      invariant_violation "Rejected Node was not part of the comparison"
  let selected = selected_shas decision.project_id s.decisions
  refuse_if (any (includes selected) decision.rejected_node_shas) invalid_transition
      "Selected Node cannot be rejected"
  refuse_if (any (is_rejected_node s decision.project_id) decision.rejected_node_shas)
      invalid_transition "Node is already rejected"

abbrev pub rejection_of : RejectAlternatives → RejectionDecision
rejection_of command = record {
  id = command.decision_id;
  project_id = command.project_id;
  comparison_id = command.comparison_id;
  rejected_node_shas = command.rejected_node_shas;
  rationale = command.rationale;
  decided_at = command.meta.requested_at;
}

unfoldable pub build_rejection : ProjectState → RejectAlternatives → Outcome RejectionDecision
build_rejection s command = do
  validate_rejection_decision s (rejection_of command) command.meta.actor
  ok (rejection_of command)
