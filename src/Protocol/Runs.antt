-- ===== src/Protocol/Runs.antt =====
-- packages/protocol/src/model.ts: Runs, their checkpoints and evidence.
use hunsu.Base.{String, List, [], ◌∷◌, template}
use hunsu.Protocol.Primitives.{
  ProjectId, GitCommitSha, GitTreePath, NonEmptyText, IsoTimestamp, RunId, GoalDigest, CheckpointId,
  EvidenceSummary, EvidenceId, AcceptanceCriterion, RunnerDigest, GitBranchName, Reason,
}
use hunsu.Protocol.Plans.{GoalValue, RunnerValue}

pub data CheckpointLocation : Type 0 where
  observation : CheckpointLocation
  commit : GitCommitSha → CheckpointLocation

pub record RunCheckpoint : Type 0 where
  pub id : CheckpointId
  pub run_id : RunId
  pub summary : EvidenceSummary
  pub location : CheckpointLocation
  pub recorded_at : IsoTimestamp

pub data EvidenceLocation : Type 0 where
  git : (commit_sha : GitCommitSha) (path : GitTreePath) → EvidenceLocation
  url : NonEmptyText → EvidenceLocation
  note_text : NonEmptyText → EvidenceLocation

pub data EvidenceTarget : Type 0 where
  whole_run : EvidenceTarget
  criterion : AcceptanceCriterion → EvidenceTarget

pub data EvidenceKind : Type 0 where
  diff check screenshot report note : EvidenceKind

pub record EvidenceRef : Type 0 where
  pub id : EvidenceId
  pub project_id : ProjectId
  pub run_id : RunId
  pub target : EvidenceTarget
  pub kind : EvidenceKind
  pub summary : EvidenceSummary
  pub location : EvidenceLocation
  pub recorded_at : IsoTimestamp

pub record RunBase : Type 0 where
  pub id : RunId
  pub project_id : ProjectId
  pub source_node_sha : GitCommitSha
  pub goal : GoalValue
  pub goal_digest : GoalDigest
  pub runner : RunnerValue
  pub runner_digest : RunnerDigest
  pub branch : GitBranchName
  pub checkpoints : List RunCheckpoint
  pub evidence_ids : List EvidenceId
  pub started_at : IsoTimestamp

abbrev pub RunningRun : Type 0
RunningRun = RunBase

pub record CompletedRun : Type 0 where
  pub base : RunBase
  pub open base use *
  pub result_node_sha : GitCommitSha
  pub verified_at : IsoTimestamp
  pub completed_at : IsoTimestamp

pub record FailedRun : Type 0 where
  pub base : RunBase
  pub open base use *
  pub failed_at : IsoTimestamp
  pub failure_reason : Reason

pub record CanceledRun : Type 0 where
  pub base : RunBase
  pub open base use *
  pub canceled_at : IsoTimestamp
  pub cancellation_reason : Reason

-- The tag is the field `status`.
pub data Run : Type 0 where
  running : RunningRun → Run
  completed : CompletedRun → Run
  failed : FailedRun → Run
  canceled : CanceledRun → Run

abbrev pub run_base : Run → RunBase
run_base (running r) = r
run_base (completed r) = r.base
run_base (failed r) = r.base
run_base (canceled r) = r.base

abbrev pub status : Run → String
status (running _) = "running"
status (completed _) = "completed"
status (failed _) = "failed"
status (canceled _) = "canceled"

pub record VerifiedRunResult : Type 0 where
  pub run_id : RunId
  pub branch : GitBranchName
  pub result_sha : GitCommitSha
  pub verified_at : IsoTimestamp

unfoldable pub run_branch_name : ProjectId → GitCommitSha → RunId → GitBranchName
run_branch_name project_id source_node_sha run_id =
    template ("hunsu/run/" ∷ project_id ∷ "/" ∷ source_node_sha ∷ "/" ∷ run_id ∷ [])
