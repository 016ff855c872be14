-- ===== src/Codec/Valid/Coaching.antt =====
-- packages/protocol/src/serialization.ts: well-formed Coach reviews, Coaching proposals and decisions.
use hunsu.Base.{◌≡◌, true}
use hunsu.Lists.{All}
use hunsu.Protocol.{
  Digests, CoachReviewTarget, node, run, comparison, CoachReview, CoachingProposal,
  ConfirmedCoachingProposalDecision, RejectedCoachingProposalDecision, CoachingProposalDecision,
  confirmed, rejected,
}
use hunsu.Codec.Makers.{
  Dates, is_identifier, is_timestamp, is_git_sha, is_prefixed_digest, node_plan_prefix,
  node_payload_prefix,
}
use hunsu.Codec.Plans.{RunnerValueTypeRegistry}
use hunsu.Codec.Valid.{IsFilled, IsIdentifier, IsGitSha, IsNodePlan}

abbrev pub IsCoachReviewTarget : CoachReviewTarget → Type 0
IsCoachReviewTarget (node sha) = IsGitSha sha
IsCoachReviewTarget (run id) = IsIdentifier id
IsCoachReviewTarget (comparison id) = IsIdentifier id

pub record IsCoachReview ⦃dates : Dates⦄ (x : CoachReview) : Type 0 where
  pub id : is_identifier x.id ≡ true
  pub project_id : is_identifier x.project_id ≡ true
  pub target : IsCoachReviewTarget x.target
  pub assessment : IsFilled x.assessment
  pub recommendations : All IsFilled x.recommendations
  pub recorded_at : is_timestamp x.recorded_at ≡ true

pub record IsCoachingProposal ⦃dates : Dates⦄ ⦃digests : Digests⦄
    (runner_types : RunnerValueTypeRegistry) (x : CoachingProposal) : Type 0 where
  pub id : is_identifier x.id ≡ true
  pub project_id : is_identifier x.project_id ≡ true
  pub source_node_sha : is_git_sha x.source_node_sha ≡ true
  pub source_payload_digest : is_prefixed_digest node_payload_prefix x.source_payload_digest ≡ true
  pub source_plan_digest : is_prefixed_digest node_plan_prefix x.source_plan_digest ≡ true
  pub proposed_plan : IsNodePlan runner_types x.proposed_plan
  pub proposed_plan_digest : is_prefixed_digest node_plan_prefix x.proposed_plan_digest ≡ true
  pub expected_state_sha : is_git_sha x.expected_state_sha ≡ true
  pub summary : IsFilled x.summary
  pub rationale : IsFilled x.rationale
  pub proposed_at : is_timestamp x.proposed_at ≡ true

pub record IsConfirmedCoachingProposalDecision ⦃dates : Dates⦄
    (x : ConfirmedCoachingProposalDecision) : Type 0 where
  pub id : is_identifier x.id ≡ true
  pub proposal_id : is_identifier x.proposal_id ≡ true
  pub child_node_sha : is_git_sha x.child_node_sha ≡ true
  pub reason : IsFilled x.reason
  pub decided_at : is_timestamp x.decided_at ≡ true

pub record IsRejectedCoachingProposalDecision ⦃dates : Dates⦄ (x : RejectedCoachingProposalDecision)
    : Type 0 where
  pub id : is_identifier x.id ≡ true
  pub proposal_id : is_identifier x.proposal_id ≡ true
  pub reason : IsFilled x.reason
  pub decided_at : is_timestamp x.decided_at ≡ true

module _ ⦃dates : Dates⦄ where
  abbrev pub IsCoachingProposalDecision : CoachingProposalDecision → Type 0
  IsCoachingProposalDecision (confirmed d) = IsConfirmedCoachingProposalDecision d
  IsCoachingProposalDecision (rejected d) = IsRejectedCoachingProposalDecision d
