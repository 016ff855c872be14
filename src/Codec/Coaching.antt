-- ===== src/Codec/Coaching.antt =====
-- packages/protocol/src/serialization.ts: decoders of Coach reviews, Coaching proposals and decisions.
use hunsu.Base.{String, not, [], ◌∷◌, if◌then◌else◌}
use hunsu.Protocol.{
  ok, ◌>>=◌, Digests, CoachReviewTarget, node, run, comparison, CoachReview, CoachingProposal,
  CoachingProposalDecision, confirmed, rejected,
}
use hunsu.Codec.Values.{Fields, Decoded, invalid, at, is_record, exact_record, decode_array}
use hunsu.Codec.Makers.{Dates}
use hunsu.Codec.Fields.{
  Decoder, at_key, decode_id, decode_text, decode_git_sha, decode_plan_digest,
  decode_payload_digest, decode_timestamp,
}
use hunsu.Codec.Plans.{RunnerValueTypeRegistry, decode_node_plan}
use hunsu.Codec.Records.{has_tag}

unfoldable pub decode_review_target : Decoder CoachReviewTarget
decode_review_target value path =
    if not (is_record value)
    then invalid path "review target must be a typed object"
    else if has_tag "type" value "node"
    then exact_record value path ("type" ∷ "nodeSha" ∷ [])
      >>= (λ fields. at_key decode_git_sha "nodeSha" fields path >>= λ sha. ok (node sha))
    else if has_tag "type" value "run"
    then exact_record value path ("type" ∷ "runId" ∷ [])
      >>= (λ fields. at_key (decode_id "runId") "runId" fields path >>= λ id. ok (run id))
    else if has_tag "type" value "comparison"
    then exact_record value path ("type" ∷ "comparisonId" ∷ []) >>= (λ fields.
      at_key (decode_id "comparisonId") "comparisonId" fields path >>= λ id. ok (comparison id))
    else invalid (at path "type") "unsupported review target"

module _ ⦃dates : Dates⦄ where
  unfoldable pub decode_coach_review : Decoder CoachReview
  decode_coach_review value path = do
    fields ←
        exact_record value path
          ("id" ∷ "projectId" ∷ "target" ∷ "assessment" ∷ "recommendations" ∷ "recordedAt" ∷ [])
    id ← at_key (decode_id "coachReviewId") "id" fields path
    project_id ← at_key (decode_id "projectId") "projectId" fields path
    target ← at_key decode_review_target "target" fields path
    assessment ← at_key decode_text "assessment" fields path
    recommendations ← at_key (decode_array decode_text) "recommendations" fields path
    recorded_at ← at_key decode_timestamp "recordedAt" fields path
    ok (record {
      id = id;
      project_id = project_id;
      target = target;
      assessment = assessment;
      recommendations = recommendations;
      recorded_at = recorded_at;
    })

  unfoldable pub decode_confirmed : Decoder CoachingProposalDecision
  decode_confirmed value path = do
    fields ←
        exact_record value path
          ("status" ∷ "id" ∷ "proposalId" ∷ "childNodeSha" ∷ "reason" ∷ "decidedAt" ∷ [])
    id ← at_key (decode_id "decisionId") "id" fields path
    proposal_id ← at_key (decode_id "coachingProposalId") "proposalId" fields path
    reason ← at_key decode_text "reason" fields path
    decided_at ← at_key decode_timestamp "decidedAt" fields path
    child_node_sha ← at_key decode_git_sha "childNodeSha" fields path
    ok (
        confirmed (record {
          id = id;
          proposal_id = proposal_id;
          child_node_sha = child_node_sha;
          reason = reason;
          decided_at = decided_at;
        }))

  unfoldable pub decode_rejected : Decoder CoachingProposalDecision
  decode_rejected value path = do
    fields ← exact_record value path ("status" ∷ "id" ∷ "proposalId" ∷ "reason" ∷ "decidedAt" ∷ [])
    id ← at_key (decode_id "decisionId") "id" fields path
    proposal_id ← at_key (decode_id "coachingProposalId") "proposalId" fields path
    reason ← at_key decode_text "reason" fields path
    decided_at ← at_key decode_timestamp "decidedAt" fields path
    ok (
        rejected
          (record { id = id; proposal_id = proposal_id; reason = reason; decided_at = decided_at }))

  unfoldable pub decode_coaching_decision : Decoder CoachingProposalDecision
  decode_coaching_decision value path =
      if has_tag "status" value "confirmed"
      then decode_confirmed value path
      else if has_tag "status" value "rejected"
      then decode_rejected value path
      else invalid path "unsupported Coaching decision status"

module _ ⦃dates : Dates⦄ ⦃digests : Digests⦄ (runner_types : RunnerValueTypeRegistry) where
  -- The fields before the texts, which the two versions share. The summary and the rationale are
  -- decoded from the keys that are given.
  unfoldable pub decode_proposal_fields :
      String → String → Fields → String → Decoded CoachingProposal
  decode_proposal_fields summary_key rationale_key fields path = do
    id ← at_key (decode_id "coachingProposalId") "id" fields path
    project_id ← at_key (decode_id "projectId") "projectId" fields path
    source_node_sha ← at_key decode_git_sha "sourceNodeSha" fields path
    source_payload_digest ← at_key decode_payload_digest "sourcePayloadDigest" fields path
    source_plan_digest ← at_key decode_plan_digest "sourcePlanDigest" fields path
    proposed_plan ← at_key (decode_node_plan runner_types) "proposedPlan" fields path
    proposed_plan_digest ← at_key decode_plan_digest "proposedPlanDigest" fields path
    expected_state_sha ← at_key decode_git_sha "expectedStateSha" fields path
    summary ← at_key decode_text summary_key fields path
    rationale ← at_key decode_text rationale_key fields path
    proposed_at ← at_key decode_timestamp "proposedAt" fields path
    ok (record {
      id = id;
      project_id = project_id;
      source_node_sha = source_node_sha;
      source_payload_digest = source_payload_digest;
      source_plan_digest = source_plan_digest;
      proposed_plan = proposed_plan;
      proposed_plan_digest = proposed_plan_digest;
      expected_state_sha = expected_state_sha;
      summary = summary;
      rationale = rationale;
      proposed_at = proposed_at;
    })

  unfoldable pub decode_coaching_proposal : Decoder CoachingProposal
  decode_coaching_proposal value path = do
    fields ← exact_record value path (
        "id" ∷ "projectId" ∷ "sourceNodeSha" ∷ "sourcePayloadDigest" ∷ "sourcePlanDigest"
        ∷ "proposedPlan" ∷ "proposedPlanDigest" ∷ "expectedStateSha" ∷ "summary" ∷ "rationale"
        ∷ "proposedAt" ∷ [])
    decode_proposal_fields "summary" "rationale" fields path

  unfoldable pub decode_historical_v2_coaching_proposal : Decoder CoachingProposal
  decode_historical_v2_coaching_proposal value path = do
    fields ← exact_record value path (
        "id" ∷ "projectId" ∷ "sourceNodeSha" ∷ "sourcePayloadDigest" ∷ "sourcePlanDigest"
        ∷ "proposedPlan" ∷ "proposedPlanDigest" ∷ "expectedStateSha" ∷ "reason" ∷ "proposedAt" ∷ [])
    decode_proposal_fields "reason" "reason" fields path
