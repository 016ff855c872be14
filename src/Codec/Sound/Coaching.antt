-- ===== src/Codec/Sound/Coaching.antt =====
-- Coach reviews, Coaching proposals and decisions: what the decoders of
-- packages/protocol/src/serialization.ts return.
use hunsu.Base.{subst, String, not, [], ◌∷◌}
use hunsu.Lists.{All}
use hunsu.Protocol.{Digests, node, run, comparison}
use hunsu.Codec.Values.{Unknown, Fields, exact_record, is_record}
use hunsu.Codec.Makers.{Dates}
use hunsu.Codec.Fields.{at_key, decode_id, decode_git_sha}
use hunsu.Codec.Plans.{RunnerValueTypeRegistry}
use hunsu.Codec.Records.{has_tag}
use hunsu.Codec.Coaching.{
  decode_review_target, decode_coach_review, decode_confirmed, decode_rejected,
  decode_coaching_decision, decode_proposal_fields, decode_coaching_proposal,
  decode_historical_v2_coaching_proposal,
}
use hunsu.Codec.Valid.Coaching.{
  IsCoachReviewTarget, IsCoachReview, IsCoachingProposal, IsConfirmedCoachingProposalDecision,
  IsRejectedCoachingProposalDecision, IsCoachingProposalDecision,
}
use hunsu.Codec.Sound.Plans.{IsSteady, decode_node_plan-IsSound}
use hunsu.Codec.Sound.Fields.{
  decode_id-IsSound, decode_text-IsSound, decode_git_sha-IsSound, decode_plan_digest-IsSound,
  decode_payload_digest-IsSound, decode_timestamp-IsSound,
}
use hunsu.Codec.Sound.Steps.{
  IsSound, Gives, bind_ok, bind-Gives, value-Gives, refusal, if_Gives, sound_of, ok_eq,
  decode_array-IsSound, read,
}

decode_review_target-IsSound : IsSound decode_review_target IsCoachReviewTarget
unfolding decode_review_target
decode_review_target-IsSound = sound_of decode_review_target λ value path.
    if_Gives (not (is_record value)) _ _ (refusal _ _) (
      if_Gives (has_tag "type" value "node") _ _
        (bind-Gives (exact_record value path ("type" ∷ "nodeSha" ∷ [])) _ λ fields of_fields.
          bind-Gives (at_key decode_git_sha "nodeSha" fields path) _
            λ sha of_sha. value-Gives (node sha) (decode_git_sha-IsSound.sound _ _ sha of_sha))
        (if_Gives (has_tag "type" value "run") _ _
          (bind-Gives (exact_record value path ("type" ∷ "runId" ∷ [])) _ λ fields of_fields.
            bind-Gives (at_key (decode_id "runId") "runId" fields path) _
              λ id of_id. value-Gives (run id) ((decode_id-IsSound "runId").sound _ _ id of_id))
          (if_Gives (has_tag "type" value "comparison") _ _
            (bind-Gives (exact_record value path ("type" ∷ "comparisonId" ∷ [])) _
              λ fields of_fields.
                bind-Gives (at_key (decode_id "comparisonId") "comparisonId" fields path) _
                  λ id of_id.
                    value-Gives (comparison id)
                      ((decode_id-IsSound "comparisonId").sound _ _ id of_id))
            (refusal _ _))))

module _ ⦃dates : Dates⦄ where
  pub decode_coach_review-IsSound : IsSound decode_coach_review IsCoachReview
  unfolding decode_coach_review
  decode_coach_review-IsSound = record {
    sound = λ value path x h.
        let (fields, _, h0) =
          bind_ok
            (exact_record value path (
              "id" ∷ "projectId" ∷ "target" ∷ "assessment" ∷ "recommendations" ∷ "recordedAt" ∷ []))
            _ x h in
        let (id, of_id, h1) = read (decode_id-IsSound "coachReviewId") "id" fields path _ x h0 in
        let (project_id, of_project_id, h2) =
          read (decode_id-IsSound "projectId") "projectId" fields path _ x h1 in
        let (target, of_target, h3) =
          read decode_review_target-IsSound "target" fields path _ x h2 in
        let (assessment, of_assessment, h4) =
          read decode_text-IsSound "assessment" fields path _ x h3 in
        let (recommendations, of_recommendations, h5) =
          read (decode_array-IsSound decode_text-IsSound) "recommendations" fields path _ x h4 in
        let (recorded_at, of_recorded_at, h6) =
          read decode_timestamp-IsSound "recordedAt" fields path _ x h5 in
        subst IsCoachReview (ok_eq _ x h6) (record {
          id = of_id;
          project_id = of_project_id;
          target = of_target;
          assessment = of_assessment;
          recommendations = of_recommendations;
          recorded_at = of_recorded_at;
        });
  }

  confirmed-Gives :
      (value : Unknown) (path : String)
      → Gives IsCoachingProposalDecision (decode_confirmed value path)
  unfolding decode_confirmed
  confirmed-Gives value path = record {
    gives = λ x h.
        let (fields, _, h0) =
          bind_ok
            (exact_record value path
              ("status" ∷ "id" ∷ "proposalId" ∷ "childNodeSha" ∷ "reason" ∷ "decidedAt" ∷ []))
            _ x h in
        let (id, of_id, h1) = read (decode_id-IsSound "decisionId") "id" fields path _ x h0 in
        let (proposal_id, of_proposal_id, h2) =
          read (decode_id-IsSound "coachingProposalId") "proposalId" fields path _ x h1 in
        let (reason, of_reason, h3) = read decode_text-IsSound "reason" fields path _ x h2 in
        let (decided_at, of_decided_at, h4) =
          read decode_timestamp-IsSound "decidedAt" fields path _ x h3 in
        let (child_node_sha, of_child_node_sha, h5) =
          read decode_git_sha-IsSound "childNodeSha" fields path _ x h4 in
        let variant : IsConfirmedCoachingProposalDecision (record {
          id = id;
          proposal_id = proposal_id;
          reason = reason;
          decided_at = decided_at;
          child_node_sha = child_node_sha;
        }) =
          record {
            id = of_id;
            proposal_id = of_proposal_id;
            reason = of_reason;
            decided_at = of_decided_at;
            child_node_sha = of_child_node_sha;
          } in
        subst IsCoachingProposalDecision (ok_eq _ x h5) variant;
  }

  rejected-Gives :
      (value : Unknown) (path : String)
      → Gives IsCoachingProposalDecision (decode_rejected value path)
  unfolding decode_rejected
  rejected-Gives value path = record {
    gives = λ x h.
        let (fields, _, h0) =
          bind_ok
            (exact_record value path ("status" ∷ "id" ∷ "proposalId" ∷ "reason" ∷ "decidedAt" ∷ []))
            _ x h in
        let (id, of_id, h1) = read (decode_id-IsSound "decisionId") "id" fields path _ x h0 in
        let (proposal_id, of_proposal_id, h2) =
          read (decode_id-IsSound "coachingProposalId") "proposalId" fields path _ x h1 in
        let (reason, of_reason, h3) = read decode_text-IsSound "reason" fields path _ x h2 in
        let (decided_at, of_decided_at, h4) =
          read decode_timestamp-IsSound "decidedAt" fields path _ x h3 in
        let variant : IsRejectedCoachingProposalDecision (record {
          id = id;
          proposal_id = proposal_id;
          reason = reason;
          decided_at = decided_at;
        }) =
          record {
            id = of_id;
            proposal_id = of_proposal_id;
            reason = of_reason;
            decided_at = of_decided_at;
          } in
        subst IsCoachingProposalDecision (ok_eq _ x h4) variant;
  }

  pub decode_coaching_decision-IsSound : IsSound decode_coaching_decision IsCoachingProposalDecision
  unfolding decode_coaching_decision
  decode_coaching_decision-IsSound = sound_of decode_coaching_decision λ value path.
      if_Gives (has_tag "status" value "confirmed") _ _ (confirmed-Gives value path)
        (if_Gives (has_tag "status" value "rejected") _ _ (rejected-Gives value path) (refusal _ _))

module _ ⦃dates : Dates⦄ ⦃digests : Digests⦄ (runner_types : RunnerValueTypeRegistry)
    (steady : All IsSteady runner_types) where
  proposal_fields-Gives :
      (summary_key rationale_key : String) (fields : Fields) (path : String)
      → Gives
          (IsCoachingProposal runner_types)
          (decode_proposal_fields runner_types summary_key rationale_key fields path)
  unfolding decode_proposal_fields
  proposal_fields-Gives summary_key rationale_key fields path = record {
    gives = λ x h.
        let (id, of_id, h1) =
          read (decode_id-IsSound "coachingProposalId") "id" fields path _ x h in
        let (project_id, of_project_id, h2) =
          read (decode_id-IsSound "projectId") "projectId" fields path _ x h1 in
        let (source_node_sha, of_source_node_sha, h3) =
          read decode_git_sha-IsSound "sourceNodeSha" fields path _ x h2 in
        let (source_payload_digest, of_source_payload_digest, h4) =
          read decode_payload_digest-IsSound "sourcePayloadDigest" fields path _ x h3 in
        let (source_plan_digest, of_source_plan_digest, h5) =
          read decode_plan_digest-IsSound "sourcePlanDigest" fields path _ x h4 in
        let (proposed_plan, of_proposed_plan, h6) =
          read (decode_node_plan-IsSound runner_types steady) "proposedPlan" fields path _ x h5 in
        let (proposed_plan_digest, of_proposed_plan_digest, h7) =
          read decode_plan_digest-IsSound "proposedPlanDigest" fields path _ x h6 in
        let (expected_state_sha, of_expected_state_sha, h8) =
          read decode_git_sha-IsSound "expectedStateSha" fields path _ x h7 in
        let (summary, of_summary, h9) = read decode_text-IsSound summary_key fields path _ x h8 in
        let (rationale, of_rationale, h10) =
          read decode_text-IsSound rationale_key fields path _ x h9 in
        let (proposed_at, of_proposed_at, h11) =
          read decode_timestamp-IsSound "proposedAt" fields path _ x h10 in
        subst (IsCoachingProposal runner_types) (ok_eq _ x h11) (record {
          id = of_id;
          project_id = of_project_id;
          source_node_sha = of_source_node_sha;
          source_payload_digest = of_source_payload_digest;
          source_plan_digest = of_source_plan_digest;
          proposed_plan = of_proposed_plan;
          proposed_plan_digest = of_proposed_plan_digest;
          expected_state_sha = of_expected_state_sha;
          summary = of_summary;
          rationale = of_rationale;
          proposed_at = of_proposed_at;
        });
  }

  pub decode_coaching_proposal-IsSound :
      IsSound (decode_coaching_proposal runner_types) (IsCoachingProposal runner_types)
  unfolding decode_coaching_proposal
  decode_coaching_proposal-IsSound = sound_of (decode_coaching_proposal runner_types) λ value path.
      bind-Gives
        (exact_record value path (
          "id" ∷ "projectId" ∷ "sourceNodeSha" ∷ "sourcePayloadDigest" ∷ "sourcePlanDigest"
          ∷ "proposedPlan" ∷ "proposedPlanDigest" ∷ "expectedStateSha" ∷ "summary" ∷ "rationale"
          ∷ "proposedAt" ∷ []))
        _ λ fields of_fields. proposal_fields-Gives "summary" "rationale" fields path

  pub decode_historical_v2_coaching_proposal-IsSound :
      IsSound
        (decode_historical_v2_coaching_proposal runner_types)
        (IsCoachingProposal runner_types)
  unfolding decode_historical_v2_coaching_proposal
  decode_historical_v2_coaching_proposal-IsSound =
      sound_of (decode_historical_v2_coaching_proposal runner_types) λ value path.
        bind-Gives
          (exact_record value path (
            "id" ∷ "projectId" ∷ "sourceNodeSha" ∷ "sourcePayloadDigest" ∷ "sourcePlanDigest"
            ∷ "proposedPlan" ∷ "proposedPlanDigest" ∷ "expectedStateSha" ∷ "reason" ∷ "proposedAt"
            ∷ []))
          _ λ fields of_fields. proposal_fields-Gives "reason" "reason" fields path
