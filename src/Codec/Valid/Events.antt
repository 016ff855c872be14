-- ===== src/Codec/Valid/Events.antt =====
-- packages/protocol/src/serialization.ts: well-formed events.
use hunsu.Protocol.{
  Digests, event_meta, DomainEvent, project_created, project_materializations_rebuilt,
  root_node_registered, run_started, run_checkpointed, run_evidence_attached, run_completed,
  run_child_node_registered, run_failed, run_canceled, coach_review_recorded,
  coaching_proposal_recorded, coaching_proposal_confirmed, coaching_child_node_registered,
  coaching_proposal_rejected, alternatives_compared, alternative_selected, alternatives_rejected,
}
use hunsu.Codec.Makers.{Dates}
use hunsu.Codec.Plans.{RunnerValueTypeRegistry}
use hunsu.Codec.Valid.{IsFilled, IsIdentifier, IsNodePayloadEnvelope}
use hunsu.Codec.Valid.Records.{IsEventMetadata, IsProject}
use hunsu.Codec.Valid.Nodes.{IsNodeBase, IsRunChildNode, IsCoachingChildNode}
use hunsu.Codec.Valid.Runs.{IsRunCheckpoint, IsEvidenceRef, IsVerifiedRunResult, IsRunBase}
use hunsu.Codec.Valid.Coaching.{
  IsCoachReview, IsCoachingProposal, IsConfirmedCoachingProposalDecision,
  IsRejectedCoachingProposalDecision,
}
use hunsu.Codec.Valid.Alternatives.{
  IsAlternativeComparison, IsSelectionDecision, IsRejectionDecision,
}

module _ ⦃dates : Dates⦄ ⦃digests : Digests⦄ (runner_types : RunnerValueTypeRegistry) where
  -- The event without its metadata.
  abbrev pub IsEventBody : DomainEvent → Type 0
  IsEventBody (project_created _ x) = IsProject x
  IsEventBody (project_materializations_rebuilt _ x) = IsIdentifier x
  IsEventBody (root_node_registered _ x y) = IsNodeBase runner_types x × IsNodePayloadEnvelope y
  IsEventBody (run_started _ x) = IsRunBase runner_types x
  IsEventBody (run_checkpointed _ x) = IsRunCheckpoint x
  IsEventBody (run_evidence_attached _ x) = IsEvidenceRef x
  IsEventBody (run_completed _ x) = IsVerifiedRunResult x
  IsEventBody (run_child_node_registered _ x y) =
      IsRunChildNode runner_types x × IsNodePayloadEnvelope y
  IsEventBody (run_failed _ x y) = IsIdentifier x × IsFilled y
  IsEventBody (run_canceled _ x y) = IsIdentifier x × IsFilled y
  IsEventBody (coach_review_recorded _ x) = IsCoachReview x
  IsEventBody (coaching_proposal_recorded _ x) = IsCoachingProposal runner_types x
  IsEventBody (coaching_proposal_confirmed _ x) = IsConfirmedCoachingProposalDecision x
  IsEventBody (coaching_child_node_registered _ x y) =
      IsCoachingChildNode runner_types x × IsNodePayloadEnvelope y
  IsEventBody (coaching_proposal_rejected _ x) = IsRejectedCoachingProposalDecision x
  IsEventBody (alternatives_compared _ x) = IsAlternativeComparison x
  IsEventBody (alternative_selected _ x) = IsSelectionDecision x
  IsEventBody (alternatives_rejected _ x) = IsRejectionDecision x

  abbrev pub IsDomainEvent : DomainEvent → Type 0
  IsDomainEvent event = IsEventMetadata (event_meta event) × IsEventBody event
