-- ===== src/Protocol/Coaching.antt =====
-- packages/protocol/src/model.ts: Coach reviews, Coaching proposals and their dispositions.
use hunsu.Base.{List}
use hunsu.Protocol.Primitives.{
  ProjectId, GitCommitSha, NonEmptyText, IsoTimestamp, RunId, ComparisonId, CoachReviewId,
  CoachingProposalId, NodePayloadDigest, NodePlanDigest, EvidenceSummary, Reason, DecisionId,
}
use hunsu.Protocol.Plans.{NodePlan}

pub data CoachReviewTarget : Type 0 where
  node : GitCommitSha → CoachReviewTarget
  run : RunId → CoachReviewTarget
  comparison : ComparisonId → CoachReviewTarget

pub record CoachReview : Type 0 where
  pub id : CoachReviewId
  pub project_id : ProjectId
  pub target : CoachReviewTarget
  pub assessment : NonEmptyText
  pub recommendations : List NonEmptyText
  pub recorded_at : IsoTimestamp

pub record CoachingProposal : Type 0 where
  pub id : CoachingProposalId
  pub project_id : ProjectId
  pub source_node_sha : GitCommitSha
  pub source_payload_digest : NodePayloadDigest
  pub source_plan_digest : NodePlanDigest
  pub proposed_plan : NodePlan
  pub proposed_plan_digest : NodePlanDigest
  pub expected_state_sha : GitCommitSha
  pub summary : EvidenceSummary
  pub rationale : Reason
  pub proposed_at : IsoTimestamp

pub record ConfirmedCoachingProposalDecision : Type 0 where
  pub id : DecisionId
  pub proposal_id : CoachingProposalId
  pub child_node_sha : GitCommitSha
  pub reason : Reason
  pub decided_at : IsoTimestamp

pub record RejectedCoachingProposalDecision : Type 0 where
  pub id : DecisionId
  pub proposal_id : CoachingProposalId
  pub reason : Reason
  pub decided_at : IsoTimestamp

-- The tag is the field `status`.
pub data CoachingProposalDecision : Type 0 where
  confirmed : ConfirmedCoachingProposalDecision → CoachingProposalDecision
  rejected : RejectedCoachingProposalDecision → CoachingProposalDecision

abbrev pub disposition_id : CoachingProposalDecision → DecisionId
disposition_id (confirmed d) = d.id
disposition_id (rejected d) = d.id

abbrev pub disposed_proposal_id : CoachingProposalDecision → CoachingProposalId
disposed_proposal_id (confirmed d) = d.proposal_id
disposed_proposal_id (rejected d) = d.proposal_id
