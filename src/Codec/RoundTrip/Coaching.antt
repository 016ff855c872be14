-- ===== src/Codec/RoundTrip/Coaching.antt =====
-- Coach reviews, Coaching proposals and decisions: what the decoders of
-- packages/protocol/src/serialization.ts read back.
use hunsu.Base.{◌≡◌, refl, String, ◌==◌}
use hunsu.Protocol.{
  ok, Digests, CoachReviewTarget, node, run, comparison, CoachReview, CoachingProposal,
  CoachingProposalDecision, confirmed, rejected,
}
use hunsu.Codec.Values.{exact_record, keys_of, property, sort_keys}
use hunsu.Codec.Makers.{Dates}
use hunsu.Codec.Fields.{decode_text}
use hunsu.Codec.Plans.{RunnerValueTypeRegistry}
use hunsu.Codec.Coaching.{
  decode_review_target, decode_coach_review, decode_confirmed, decode_rejected,
  decode_coaching_decision, decode_proposal_fields, decode_coaching_proposal,
}
use hunsu.Codec.Canonical.{unknown_of}
use hunsu.Codec.Objects.{string}
use hunsu.Codec.Objects.Coaching.{
  review_target_object, coach_review_object, coaching_proposal_object, coaching_decision_object,
}
use hunsu.Codec.Valid.{IsFilled}
use hunsu.Codec.Valid.Coaching.{
  IsCoachReviewTarget, IsCoachReview, IsCoachingProposal, IsCoachingProposalDecision,
}
use hunsu.Codec.RoundTrip.Arrays.{decode_array-array_of, decode_text-string}
use hunsu.Codec.RoundTrip.Plans.{decode_node_plan-plan_object}

pub decode_review_target-review_target_object :
    (x : CoachReviewTarget)
    → IsCoachReviewTarget x
    → (path : String) → decode_review_target (unknown_of (review_target_object x)) path ≡ ok x
unfolding unknown_of decode_review_target review_target_object exact_record keys_of property
    sort_keys ◌==◌
decode_review_target-review_target_object (node sha) v path = rw v refl
decode_review_target-review_target_object (run id) v path = rw v refl
decode_review_target-review_target_object (comparison id) v path = rw v refl

module _ ⦃dates : Dates⦄ where
  pub decode_coach_review-coach_review_object :
      (x : CoachReview)
      → IsCoachReview x
      → (path : String) → decode_coach_review (unknown_of (coach_review_object x)) path ≡ ok x
  unfolding unknown_of decode_coach_review coach_review_object exact_record keys_of property
      sort_keys ◌==◌
  decode_coach_review-coach_review_object x v path =
      rw
        (
          v.id,
          v.project_id,
          decode_review_target-review_target_object x.target v.target,
          v.assessment,
          decode_array-array_of IsFilled string decode_text decode_text-string x.recommendations _
              v.recommendations,
          v.recorded_at,
        )
        refl

module _ ⦃dates : Dates⦄ where
  pub decode_coaching_decision-coaching_decision_object :
      (x : CoachingProposalDecision)
      → IsCoachingProposalDecision x
      → (path : String)
      → decode_coaching_decision (unknown_of (coaching_decision_object x)) path ≡ ok x
  unfolding unknown_of decode_coaching_decision coaching_decision_object decode_confirmed
      decode_rejected exact_record keys_of property sort_keys ◌==◌
  decode_coaching_decision-coaching_decision_object (confirmed x) v path =
      rw (v.id, v.proposal_id, v.child_node_sha, v.reason, v.decided_at) refl
  decode_coaching_decision-coaching_decision_object (rejected x) v path =
      rw (v.id, v.proposal_id, v.reason, v.decided_at) refl

module _ ⦃dates : Dates⦄ ⦃digests : Digests⦄ (runner_types : RunnerValueTypeRegistry) where
  pub decode_coaching_proposal-coaching_proposal_object :
      (x : CoachingProposal)
      → IsCoachingProposal runner_types x
      → (path : String)
      → decode_coaching_proposal runner_types (unknown_of (coaching_proposal_object x)) path ≡ ok x
  unfolding unknown_of decode_coaching_proposal coaching_proposal_object decode_proposal_fields
      exact_record keys_of property sort_keys ◌==◌
  decode_coaching_proposal-coaching_proposal_object x v path =
      rw
        (
          v.id,
          v.project_id,
          v.source_node_sha,
          v.source_payload_digest,
          v.source_plan_digest,
          decode_node_plan-plan_object runner_types x.proposed_plan v.proposed_plan,
          v.proposed_plan_digest,
          v.expected_state_sha,
          v.summary,
          v.rationale,
          v.proposed_at,
        )
        refl
