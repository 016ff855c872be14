-- ===== src/Codec/Valid/Runs.antt =====
-- packages/protocol/src/serialization.ts: well-formed checkpoints, evidence and Runs.
use hunsu.Base.{◌≡◌, true}
use hunsu.Lists.{All}
use hunsu.Protocol.{
  CheckpointLocation, observation, commit, RunCheckpoint, EvidenceLocation, git, url, note_text,
  EvidenceTarget, whole_run, criterion, EvidenceRef, RunBase, CompletedRun, FailedRun, CanceledRun,
  Run, running, completed, failed, canceled, VerifiedRunResult,
}
use hunsu.Codec.Makers.{
  Dates, is_identifier, is_timestamp, is_git_sha, is_tree_path, is_branch_name, is_prefixed_digest,
  goal_prefix, runner_prefix,
}
use hunsu.Codec.Plans.{RunnerValueTypeRegistry}
use hunsu.Codec.Valid.{IsFilled, IsIdentifier, IsGitSha, IsGoalValue, IsRunnerValue}

abbrev pub IsCheckpointLocation : CheckpointLocation → Type 0
IsCheckpointLocation observation = Unit
IsCheckpointLocation (commit sha) = IsGitSha sha

abbrev pub IsEvidenceTarget : EvidenceTarget → Type 0
IsEvidenceTarget whole_run = Unit
IsEvidenceTarget (criterion text) = IsFilled text

abbrev pub IsEvidenceLocation : EvidenceLocation → Type 0
IsEvidenceLocation (git sha path) = IsGitSha sha × (is_tree_path path ≡ true)
IsEvidenceLocation (url text) = IsFilled text
IsEvidenceLocation (note_text text) = IsFilled text

pub record IsRunCheckpoint ⦃dates : Dates⦄ (x : RunCheckpoint) : Type 0 where
  pub id : is_identifier x.id ≡ true
  pub run_id : is_identifier x.run_id ≡ true
  pub summary : IsFilled x.summary
  pub location : IsCheckpointLocation x.location
  pub recorded_at : is_timestamp x.recorded_at ≡ true

pub record IsEvidenceRef ⦃dates : Dates⦄ (x : EvidenceRef) : Type 0 where
  pub id : is_identifier x.id ≡ true
  pub project_id : is_identifier x.project_id ≡ true
  pub run_id : is_identifier x.run_id ≡ true
  pub target : IsEvidenceTarget x.target
  pub summary : IsFilled x.summary
  pub location : IsEvidenceLocation x.location
  pub recorded_at : is_timestamp x.recorded_at ≡ true

pub record IsVerifiedRunResult ⦃dates : Dates⦄ (x : VerifiedRunResult) : Type 0 where
  pub run_id : is_identifier x.run_id ≡ true
  pub branch : is_branch_name x.branch ≡ true
  pub result_sha : is_git_sha x.result_sha ≡ true
  pub verified_at : is_timestamp x.verified_at ≡ true

pub record IsRunBase ⦃dates : Dates⦄ (runner_types : RunnerValueTypeRegistry) (x : RunBase)
    : Type 0 where
  pub id : is_identifier x.id ≡ true
  pub project_id : is_identifier x.project_id ≡ true
  pub source_node_sha : is_git_sha x.source_node_sha ≡ true
  pub goal : IsGoalValue x.goal
  pub goal_digest : is_prefixed_digest goal_prefix x.goal_digest ≡ true
  pub runner : IsRunnerValue runner_types x.runner
  pub runner_digest : is_prefixed_digest runner_prefix x.runner_digest ≡ true
  pub branch : is_branch_name x.branch ≡ true
  pub checkpoints : All IsRunCheckpoint x.checkpoints
  pub evidence_ids : All IsIdentifier x.evidence_ids
  pub started_at : is_timestamp x.started_at ≡ true

pub record IsCompletedRun ⦃dates : Dates⦄ (runner_types : RunnerValueTypeRegistry)
    (x : CompletedRun) : Type 0 where
  pub base : IsRunBase runner_types x.base
  pub result_node_sha : is_git_sha x.result_node_sha ≡ true
  pub verified_at : is_timestamp x.verified_at ≡ true
  pub completed_at : is_timestamp x.completed_at ≡ true

pub record IsFailedRun ⦃dates : Dates⦄ (runner_types : RunnerValueTypeRegistry) (x : FailedRun)
    : Type 0 where
  pub base : IsRunBase runner_types x.base
  pub failed_at : is_timestamp x.failed_at ≡ true
  pub failure_reason : IsFilled x.failure_reason

pub record IsCanceledRun ⦃dates : Dates⦄ (runner_types : RunnerValueTypeRegistry) (x : CanceledRun)
    : Type 0 where
  pub base : IsRunBase runner_types x.base
  pub canceled_at : is_timestamp x.canceled_at ≡ true
  pub cancellation_reason : IsFilled x.cancellation_reason

module _ ⦃dates : Dates⦄ (runner_types : RunnerValueTypeRegistry) where
  abbrev pub IsRun : Run → Type 0
  IsRun (running r) = IsRunBase runner_types r
  IsRun (completed r) = IsCompletedRun runner_types r
  IsRun (failed r) = IsFailedRun runner_types r
  IsRun (canceled r) = IsCanceledRun runner_types r
