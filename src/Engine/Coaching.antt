-- ===== src/Engine/Coaching.antt =====
-- packages/core/src/engine.ts: Coach reviews, Coaching proposals, their confirmation and rejection.
use hunsu.Base.{Bool, true, ◌||◌, ◌==◌, ◌!=◌, Option, none, some, ⊤, if◌then◌else◌}
use hunsu.Lists.{any, find}
use hunsu.Protocol.{
  ok, ◌>>=◌, ◌>>◌, Digests, compute_node_plan_digest, compute_node_payload_digest, GitCommitSha,
  IsoTimestamp, ProjectId, NodePayloadEnvelope, node_base, node_payload_for, CoachingChildNode,
  coaching_child, ProjectState, run_base, DomainActor, CommandMetadata, CoachReview,
  CoachReviewTarget, CoachingProposal, CoachingProposalId, CoachingProposalDecision, confirmed,
  rejected, disposed_proposal_id, ConfirmedCoachingProposalDecision,
  RejectedCoachingProposalDecision, ConfirmCoachingProposal, RejectCoachingProposal,
  AlternativeComparison, ComparisonId,
}
use hunsu.Engine.Errors.{
  Outcome, failure, not_found, refuse_if, refuse_duplicate_if, map_void, invariant_violation,
  invalid_transition, ProjectIntegrityBoundary,
}
use hunsu.Engine.Lookup.{find_project, find_node, find_run, is_rejected_node}
use hunsu.Engine.Journal.{validate_decision_id}
use hunsu.Engine.Projects.{require_user, require_coach}
use hunsu.Engine.Nodes.{validate_plan, validate_new_node}

abbrev pub is_comparison : ComparisonId → AlternativeComparison → Bool
is_comparison id c = c.id == id

abbrev pub is_proposal : CoachingProposalId → CoachingProposal → Bool
is_proposal id p = p.id == id

abbrev pub is_disposition_of : CoachingProposalId → CoachingProposalDecision → Bool
is_disposition_of id d = disposed_proposal_id d == id

abbrev review_of_comparison : ProjectId → ComparisonId → Option AlternativeComparison → Outcome ⊤
review_of_comparison project_id id none = not_found "Comparison" id
review_of_comparison project_id id (some comparison) =
    refuse_if (comparison.project_id != project_id) invariant_violation
      "Review target belongs to another Project"

-- The three kinds of target.
unfoldable pub validate_review_target : ProjectState → ProjectId → CoachReviewTarget → Outcome ⊤
validate_review_target s project_id (CoachReviewTarget.node sha) =
    map_void (find_node s project_id sha)
validate_review_target s project_id (CoachReviewTarget.run id) = do
  run ← find_run s id
  refuse_if ((run_base run).project_id != project_id) invariant_violation
      "Review target belongs to another Project"
validate_review_target s project_id (CoachReviewTarget.comparison id) =
    review_of_comparison project_id id (find (is_comparison id) s.comparisons)

unfoldable pub validate_coach_review : ProjectState → CoachReview → DomainActor → Outcome ⊤
validate_coach_review s review actor = do
  require_coach actor "Coach reviews must be authored by a Coach actor"
  refuse_duplicate_if (any (λ (item : CoachReview). item.id == review.id) s.coach_reviews)
      "Coach review" review.id
  project ← find_project s review.project_id
  validate_review_target s review.project_id review.target

abbrev pub open_proposal :
    ProjectState → CoachingProposalId → Option CoachingProposal → Outcome CoachingProposal
open_proposal s id none = not_found "Coaching proposal" id
open_proposal s id (some proposal) =
    if any (is_disposition_of id) s.coaching_proposal_decisions
    then failure invalid_transition "Coaching proposal already has a disposition"
    else ok proposal

unfoldable pub find_open_coaching_proposal :
    ProjectState → CoachingProposalId → DomainActor → Outcome CoachingProposal
find_open_coaching_proposal s id actor = do
  require_user actor "Coaching proposal disposition requires explicit user confirmation"
  open_proposal s id (find (is_proposal id) s.coaching_proposals)

unfoldable pub find_confirmable_coaching_proposal :
    ProjectState → CoachingProposalId → DomainActor → Outcome CoachingProposal
find_confirmable_coaching_proposal s id actor = do
  proposal ← find_open_coaching_proposal s id actor
  refuse_if (is_rejected_node s proposal.project_id proposal.source_node_sha) invalid_transition
      "Rejected Nodes cannot be coached"
  ok proposal

unfoldable pub build_coaching_rejection :
    ProjectState → RejectCoachingProposal → Outcome RejectedCoachingProposalDecision
build_coaching_rejection s command = do
  proposal ← find_open_coaching_proposal s command.proposal_id command.meta.actor
  validate_decision_id s command.decision_id
  ok (record {
    id = command.decision_id;
    proposal_id = command.proposal_id;
    reason = command.reason;
    decided_at = command.meta.requested_at;
  })

module _ ⦃digests : Digests⦄ where
  unfoldable pub validate_coaching_proposal :
      ProjectState → CoachingProposal → DomainActor → Outcome ⊤
  validate_coaching_proposal s proposal actor = do
    require_coach actor "Coaching proposals must be authored by a Coach actor"
    refuse_duplicate_if (any (is_proposal proposal.id) s.coaching_proposals) "Coaching proposal"
        proposal.id
    source ← find_node s proposal.project_id proposal.source_node_sha
    let base = node_base source
    refuse_if (is_rejected_node s proposal.project_id base.commit_sha) invalid_transition
        "Rejected Nodes cannot be coached"
    refuse_if
        (base.payload_digest != proposal.source_payload_digest
          || compute_node_payload_digest (node_payload_for base) != proposal.source_payload_digest)
        invariant_violation "Coaching proposal source payload digest does not match the source Node"
    refuse_if
        (base.plan_digest != proposal.source_plan_digest
          || compute_node_plan_digest base.plan != proposal.source_plan_digest)
        invariant_violation "Coaching proposal source digest does not match the source Node plan"
    validate_plan proposal.proposed_plan
    refuse_if (compute_node_plan_digest proposal.proposed_plan != proposal.proposed_plan_digest)
        invariant_violation "Coaching proposal digest does not match its proposed plan"
    refuse_if (proposal.proposed_plan_digest == proposal.source_plan_digest) invariant_violation
        "Coaching proposal must change the Node plan"

  unfoldable pub validate_coaching_proposal_command :
      ProjectState → CoachingProposal → CommandMetadata → Outcome ⊤
  validate_coaching_proposal_command s proposal meta = do
    refuse_if (proposal.expected_state_sha != meta.expected_state_sha) invariant_violation
        "Coaching proposal expected state SHA must match its command CAS boundary"
    validate_coaching_proposal s proposal meta.actor

  unfoldable pub validate_coaching_child :
      ProjectState
      → CoachingProposal
      → CoachingChildNode
      → NodePayloadEnvelope
      → IsoTimestamp
      → ProjectIntegrityBoundary
      → Outcome ⊤
  validate_coaching_child s proposal node payload recorded_at integrity = do
    source ← find_node s proposal.project_id proposal.source_node_sha
    refuse_if
        (node.project_id != proposal.project_id
          || (node.parent_sha != proposal.source_node_sha || node.proposal_id != proposal.id))
        invariant_violation
        "Coaching child Node must bind to the confirmed proposal and source Node"
    refuse_if (node.tree_sha != (node_base source).tree_sha) invariant_violation
        "Coaching child commit must preserve the source tree SHA"
    refuse_if (compute_node_plan_digest node.plan != proposal.proposed_plan_digest)
        invariant_violation "Coaching child plan must exactly match the confirmed proposal"
    validate_new_node s (coaching_child node) payload recorded_at integrity

  unfoldable pub build_coaching_confirmation :
      ProjectState
      → ConfirmCoachingProposal
      → ProjectIntegrityBoundary
      → Outcome ConfirmedCoachingProposalDecision
  build_coaching_confirmation s command integrity = do
    proposal ← find_confirmable_coaching_proposal s command.proposal_id command.meta.actor
    validate_decision_id s command.decision_id
    validate_coaching_child s proposal command.node command.payload command.meta.requested_at
        integrity
    ok (record {
      id = command.decision_id;
      proposal_id = command.proposal_id;
      child_node_sha = command.node.commit_sha;
      reason = command.reason;
      decided_at = command.meta.requested_at;
    })

  -- `!decision || decision.status !== "confirmed" || decision.childNodeSha !== sha`
  abbrev pub is_unconfirmed : Option CoachingProposalDecision → GitCommitSha → Bool
  is_unconfirmed none sha = true
  is_unconfirmed (some (rejected _)) sha = true
  is_unconfirmed (some (confirmed d)) sha = d.child_node_sha != sha

  abbrev pub proposal_or_not_found :
      Option CoachingProposal → CoachingProposalId → Outcome CoachingProposal
  proposal_or_not_found none id = not_found "Coaching proposal" id
  proposal_or_not_found (some proposal) id = ok proposal

  unfoldable pub validate_coaching_child_event :
      ProjectState
      → CoachingChildNode
      → NodePayloadEnvelope
      → IsoTimestamp
      → ProjectIntegrityBoundary
      → Outcome ⊤
  validate_coaching_child_event s node payload recorded_at integrity = do
    proposal ←
        proposal_or_not_found (find (is_proposal node.proposal_id) s.coaching_proposals)
          node.proposal_id
    refuse_if
        (is_unconfirmed (find (is_disposition_of node.proposal_id) s.coaching_proposal_decisions)
          node.commit_sha)
        invalid_transition "Coaching child registration requires its confirmed proposal decision"
    validate_coaching_child s proposal node payload recorded_at integrity
