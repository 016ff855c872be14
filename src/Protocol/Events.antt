-- ===== src/Protocol/Events.antt =====
-- packages/protocol/src/model.ts: the domain events. Each is the metadata and the event's fields.
use hunsu.Protocol.Primitives.{ProjectId, RunId, Reason}
use hunsu.Protocol.Plans.{Project, NodePayloadEnvelope}
use hunsu.Protocol.Nodes.{RootNode, RunChildNode, CoachingChildNode}
use hunsu.Protocol.Runs.{RunCheckpoint, EvidenceRef, VerifiedRunResult, RunningRun}
use hunsu.Protocol.Coaching.{
  CoachReview, CoachingProposal, ConfirmedCoachingProposalDecision,
  RejectedCoachingProposalDecision,
}
use hunsu.Protocol.Alternatives.{AlternativeComparison, SelectionDecision, RejectionDecision}
use hunsu.Protocol.Metadata.{EventMetadata}

pub data DomainEvent : Type 0 where
  project_created : EventMetadata → Project → DomainEvent
  project_materializations_rebuilt : EventMetadata → ProjectId → DomainEvent
  root_node_registered : EventMetadata → RootNode → NodePayloadEnvelope → DomainEvent
  run_started : EventMetadata → RunningRun → DomainEvent
  run_checkpointed : EventMetadata → RunCheckpoint → DomainEvent
  run_evidence_attached : EventMetadata → EvidenceRef → DomainEvent
  run_completed : EventMetadata → VerifiedRunResult → DomainEvent
  run_child_node_registered : EventMetadata → RunChildNode → NodePayloadEnvelope → DomainEvent
  run_failed : EventMetadata → RunId → Reason → DomainEvent
  run_canceled : EventMetadata → RunId → Reason → DomainEvent
  coach_review_recorded : EventMetadata → CoachReview → DomainEvent
  coaching_proposal_recorded : EventMetadata → CoachingProposal → DomainEvent
  coaching_proposal_confirmed : EventMetadata → ConfirmedCoachingProposalDecision → DomainEvent
  coaching_child_node_registered :
      EventMetadata → CoachingChildNode → NodePayloadEnvelope → DomainEvent
  coaching_proposal_rejected : EventMetadata → RejectedCoachingProposalDecision → DomainEvent
  alternatives_compared : EventMetadata → AlternativeComparison → DomainEvent
  alternative_selected : EventMetadata → SelectionDecision → DomainEvent
  alternatives_rejected : EventMetadata → RejectionDecision → DomainEvent

-- `event.meta`
abbrev pub event_meta : DomainEvent → EventMetadata
event_meta (project_created meta _) = meta
event_meta (project_materializations_rebuilt meta _) = meta
event_meta (root_node_registered meta _ _) = meta
event_meta (run_started meta _) = meta
event_meta (run_checkpointed meta _) = meta
event_meta (run_evidence_attached meta _) = meta
event_meta (run_completed meta _) = meta
event_meta (run_child_node_registered meta _ _) = meta
event_meta (run_failed meta _ _) = meta
event_meta (run_canceled meta _ _) = meta
event_meta (coach_review_recorded meta _) = meta
event_meta (coaching_proposal_recorded meta _) = meta
event_meta (coaching_proposal_confirmed meta _) = meta
event_meta (coaching_child_node_registered meta _ _) = meta
event_meta (coaching_proposal_rejected meta _) = meta
event_meta (alternatives_compared meta _) = meta
event_meta (alternative_selected meta _) = meta
event_meta (alternatives_rejected meta _) = meta
