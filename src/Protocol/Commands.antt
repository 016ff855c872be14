-- ===== src/Protocol/Commands.antt =====
-- packages/protocol/src/model.ts: the commands. Each is the metadata and the command's own fields.
use hunsu.Base.{List}
use hunsu.Protocol.Primitives.{
  ProjectId, GitCommitSha, EventId, RunId, GoalDigest, GitBranchName, Reason, CoachingProposalId,
  DecisionId, ComparisonId, EvidenceSummary,
}
use hunsu.Protocol.Plans.{Project, NodePayloadEnvelope}
use hunsu.Protocol.Nodes.{RootNode, RunChildNode, CoachingChildNode}
use hunsu.Protocol.Runs.{RunCheckpoint, EvidenceRef, VerifiedRunResult}
use hunsu.Protocol.Coaching.{CoachReview, CoachingProposal}
use hunsu.Protocol.Alternatives.{ComparisonFinding}
use hunsu.Protocol.Metadata.{CommandMetadata}

pub record CreateProject : Type 0 where
  pub meta : CommandMetadata
  pub root_node_event_id : EventId
  pub project : Project
  pub root_node : RootNode
  pub payload : NodePayloadEnvelope

pub record StartRun : Type 0 where
  pub meta : CommandMetadata
  pub run_id : RunId
  pub project_id : ProjectId
  pub source_node_sha : GitCommitSha
  pub goal_digest : GoalDigest
  pub branch : GitBranchName

pub record CompleteRun : Type 0 where
  pub meta : CommandMetadata
  pub node_event_id : EventId
  pub result : VerifiedRunResult
  pub node : RunChildNode
  pub payload : NodePayloadEnvelope

pub record ConfirmCoachingProposal : Type 0 where
  pub meta : CommandMetadata
  pub node_event_id : EventId
  pub decision_id : DecisionId
  pub proposal_id : CoachingProposalId
  pub reason : Reason
  pub node : CoachingChildNode
  pub payload : NodePayloadEnvelope

pub record RejectCoachingProposal : Type 0 where
  pub meta : CommandMetadata
  pub decision_id : DecisionId
  pub proposal_id : CoachingProposalId
  pub reason : Reason

-- The tag `comparisonType` with the field that only one kind has.
pub data ComparisonRequest : Type 0 where
  sibling_runs : ComparisonRequest
  coached_how_experiment : (anchor_node_sha : GitCommitSha) → ComparisonRequest

pub record CompareAlternatives : Type 0 where
  pub meta : CommandMetadata
  pub comparison_type : ComparisonRequest
  pub comparison_id : ComparisonId
  pub project_id : ProjectId
  pub node_shas : List GitCommitSha
  pub findings : List ComparisonFinding
  pub summary : EvidenceSummary

pub record SelectAlternative : Type 0 where
  pub meta : CommandMetadata
  pub decision_id : DecisionId
  pub project_id : ProjectId
  pub comparison_id : ComparisonId
  pub selected_node_sha : GitCommitSha
  pub rationale : Reason

pub record RejectAlternatives : Type 0 where
  pub meta : CommandMetadata
  pub decision_id : DecisionId
  pub project_id : ProjectId
  pub comparison_id : ComparisonId
  pub rejected_node_shas : List GitCommitSha
  pub rationale : Reason

pub data ProjectCommand : Type 0 where
  create_project : CreateProject → ProjectCommand
  rebuild_project_materializations : CommandMetadata → ProjectId → ProjectCommand
  start_run : StartRun → ProjectCommand
  checkpoint_run : CommandMetadata → RunCheckpoint → ProjectCommand
  attach_run_evidence : CommandMetadata → EvidenceRef → ProjectCommand
  complete_run : CompleteRun → ProjectCommand
  fail_run : CommandMetadata → RunId → Reason → ProjectCommand
  cancel_run : CommandMetadata → RunId → Reason → ProjectCommand
  record_coach_review : CommandMetadata → CoachReview → ProjectCommand
  record_coaching_proposal : CommandMetadata → CoachingProposal → ProjectCommand
  confirm_coaching_proposal : ConfirmCoachingProposal → ProjectCommand
  reject_coaching_proposal : RejectCoachingProposal → ProjectCommand
  compare_alternatives : CompareAlternatives → ProjectCommand
  select_alternative : SelectAlternative → ProjectCommand
  reject_alternatives : RejectAlternatives → ProjectCommand

-- `command.meta`
abbrev pub command_meta : ProjectCommand → CommandMetadata
command_meta (create_project c) = c.meta
command_meta (rebuild_project_materializations meta _) = meta
command_meta (start_run c) = c.meta
command_meta (checkpoint_run meta _) = meta
command_meta (attach_run_evidence meta _) = meta
command_meta (complete_run c) = c.meta
command_meta (fail_run meta _ _) = meta
command_meta (cancel_run meta _ _) = meta
command_meta (record_coach_review meta _) = meta
command_meta (record_coaching_proposal meta _) = meta
command_meta (confirm_coaching_proposal c) = c.meta
command_meta (reject_coaching_proposal c) = c.meta
command_meta (compare_alternatives c) = c.meta
command_meta (select_alternative c) = c.meta
command_meta (reject_alternatives c) = c.meta
