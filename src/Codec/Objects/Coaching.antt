-- ===== src/Codec/Objects/Coaching.antt =====
-- packages/protocol/src/model.ts: Coach reviews, Coaching proposals and decisions as objects.
use hunsu.Base.{[], ◌∷◌}
use hunsu.Protocol.{
  CanonicalJsonValue, CoachReviewTarget, node, run, comparison, CoachReview, CoachingProposal,
  CoachingProposalDecision, confirmed, rejected,
}
use hunsu.Codec.Objects.{string, object_of, array_of, plan_object}

unfoldable pub review_target_object : CoachReviewTarget → CanonicalJsonValue
review_target_object (node sha) = object_of (("type", string "node") ∷ ("nodeSha", string sha) ∷ [])
review_target_object (run id) = object_of (("type", string "run") ∷ ("runId", string id) ∷ [])
review_target_object (comparison id) =
    object_of (("type", string "comparison") ∷ ("comparisonId", string id) ∷ [])

unfoldable pub coach_review_object : CoachReview → CanonicalJsonValue
coach_review_object x = object_of (
    ("id", string x.id)
    ∷ ("projectId", string x.project_id)
    ∷ ("target", review_target_object x.target)
    ∷ ("assessment", string x.assessment)
    ∷ ("recommendations", array_of string x.recommendations)
    ∷ ("recordedAt", string x.recorded_at)
    ∷ [])

unfoldable pub coaching_proposal_object : CoachingProposal → CanonicalJsonValue
coaching_proposal_object x = object_of (
    ("id", string x.id)
    ∷ ("projectId", string x.project_id)
    ∷ ("sourceNodeSha", string x.source_node_sha)
    ∷ ("sourcePayloadDigest", string x.source_payload_digest)
    ∷ ("sourcePlanDigest", string x.source_plan_digest)
    ∷ ("proposedPlan", plan_object x.proposed_plan)
    ∷ ("proposedPlanDigest", string x.proposed_plan_digest)
    ∷ ("expectedStateSha", string x.expected_state_sha)
    ∷ ("summary", string x.summary)
    ∷ ("rationale", string x.rationale)
    ∷ ("proposedAt", string x.proposed_at)
    ∷ [])

unfoldable pub coaching_decision_object : CoachingProposalDecision → CanonicalJsonValue
coaching_decision_object (confirmed x) = object_of (
    ("status", string "confirmed")
    ∷ ("id", string x.id)
    ∷ ("proposalId", string x.proposal_id)
    ∷ ("childNodeSha", string x.child_node_sha)
    ∷ ("reason", string x.reason)
    ∷ ("decidedAt", string x.decided_at)
    ∷ [])
coaching_decision_object (rejected x) = object_of (
    ("status", string "rejected")
    ∷ ("id", string x.id)
    ∷ ("proposalId", string x.proposal_id)
    ∷ ("reason", string x.reason)
    ∷ ("decidedAt", string x.decided_at)
    ∷ [])
