-- ===== src/Codec/RoundTrip/Runs.antt =====
-- Checkpoints, evidence and Runs: what the decoders of packages/protocol/src/serialization.ts read
-- back.
use hunsu.Base.{◌≡◌, refl, String, ◌==◌}
use hunsu.Protocol.{
  ok, CheckpointLocation, observation, commit, RunCheckpoint, EvidenceLocation, git, url, note_text,
  EvidenceTarget, whole_run, criterion, EvidenceKind, diff, check, screenshot, report, note,
  EvidenceRef, Run, running, completed, failed, canceled, VerifiedRunResult,
}
use hunsu.Codec.Values.{exact_record, keys_of, property, sort_keys, one_of}
use hunsu.Codec.Makers.{Dates}
use hunsu.Codec.Fields.{decode_id}
use hunsu.Codec.Plans.{RunnerValueTypeRegistry}
use hunsu.Codec.Runs.{
  decode_checkpoint_location, decode_evidence_target, decode_evidence_kind,
  decode_evidence_location, decode_checkpoint, decode_evidence, decode_verified_result, decode_run,
  decode_run_base, decode_running_run, decode_completed_run, decode_failed_run, decode_canceled_run,
}
use hunsu.Codec.Canonical.{unknown_of}
use hunsu.Codec.Objects.{string}
use hunsu.Codec.Objects.Runs.{
  checkpoint_location_object, evidence_target_object, evidence_kind_text, evidence_location_object,
  checkpoint_object, evidence_object, verified_result_object, run_object,
}
use hunsu.Codec.Valid.{IsIdentifier}
use hunsu.Codec.Valid.Runs.{
  IsCheckpointLocation, IsEvidenceTarget, IsEvidenceLocation, IsRunCheckpoint, IsEvidenceRef,
  IsVerifiedRunResult, IsRun,
}
use hunsu.Codec.RoundTrip.Arrays.{decode_array-array_of, decode_id-string}
use hunsu.Codec.RoundTrip.Plans.{decode_goal_value-goal_object, decode_runner_value-runner_object}

pub decode_checkpoint_location-checkpoint_location_object :
    (x : CheckpointLocation)
    → IsCheckpointLocation x
    → (path : String)
    → decode_checkpoint_location (unknown_of (checkpoint_location_object x)) path ≡ ok x
unfolding unknown_of decode_checkpoint_location checkpoint_location_object exact_record keys_of
    property sort_keys ◌==◌
decode_checkpoint_location-checkpoint_location_object observation v path = refl
decode_checkpoint_location-checkpoint_location_object (commit sha) v path = rw v refl

pub decode_evidence_target-evidence_target_object :
    (x : EvidenceTarget)
    → IsEvidenceTarget x
    → (path : String) → decode_evidence_target (unknown_of (evidence_target_object x)) path ≡ ok x
unfolding unknown_of decode_evidence_target evidence_target_object exact_record keys_of property
    sort_keys ◌==◌
decode_evidence_target-evidence_target_object whole_run v path = refl
decode_evidence_target-evidence_target_object (criterion text) v path = rw v refl

pub decode_evidence_location-evidence_location_object :
    (x : EvidenceLocation)
    → IsEvidenceLocation x
    → (path : String)
    → decode_evidence_location (unknown_of (evidence_location_object x)) path ≡ ok x
unfolding unknown_of decode_evidence_location evidence_location_object exact_record keys_of property
    sort_keys ◌==◌
decode_evidence_location-evidence_location_object (git sha file) (of_sha, of_path) path =
    rw (of_sha, of_path) refl
decode_evidence_location-evidence_location_object (url text) v path = rw v refl
decode_evidence_location-evidence_location_object (note_text text) v path = rw v refl

decode_evidence_kind-evidence_kind_text :
    (x : EvidenceKind) (path : String)
    → decode_evidence_kind (unknown_of (evidence_kind_text x)) path ≡ ok x
unfolding unknown_of decode_evidence_kind evidence_kind_text one_of ◌==◌
decode_evidence_kind-evidence_kind_text diff path = refl
decode_evidence_kind-evidence_kind_text check path = refl
decode_evidence_kind-evidence_kind_text screenshot path = refl
decode_evidence_kind-evidence_kind_text report path = refl
decode_evidence_kind-evidence_kind_text note path = refl

module _ ⦃dates : Dates⦄ where
  pub decode_checkpoint-checkpoint_object :
      (x : RunCheckpoint)
      → IsRunCheckpoint x
      → (path : String) → decode_checkpoint (unknown_of (checkpoint_object x)) path ≡ ok x
  unfolding unknown_of decode_checkpoint checkpoint_object exact_record keys_of property sort_keys
      ◌==◌
  decode_checkpoint-checkpoint_object x v path =
      rw
        (
          v.id,
          v.run_id,
          v.summary,
          decode_checkpoint_location-checkpoint_location_object x.location v.location,
          v.recorded_at,
        )
        refl

module _ ⦃dates : Dates⦄ where
  pub decode_evidence-evidence_object :
      (x : EvidenceRef)
      → IsEvidenceRef x
      → (path : String) → decode_evidence (unknown_of (evidence_object x)) path ≡ ok x
  unfolding unknown_of decode_evidence evidence_object exact_record keys_of property sort_keys ◌==◌
  decode_evidence-evidence_object x v path =
      rw
        (
          v.id,
          v.project_id,
          v.run_id,
          decode_evidence_target-evidence_target_object x.target v.target,
          decode_evidence_kind-evidence_kind_text x.kind,
          v.summary,
          decode_evidence_location-evidence_location_object x.location v.location,
          v.recorded_at,
        )
        refl

module _ ⦃dates : Dates⦄ where
  pub decode_verified_result-verified_result_object :
      (x : VerifiedRunResult)
      → IsVerifiedRunResult x
      → (path : String) → decode_verified_result (unknown_of (verified_result_object x)) path ≡ ok x
  unfolding unknown_of decode_verified_result verified_result_object exact_record keys_of property
      sort_keys ◌==◌
  decode_verified_result-verified_result_object x v path =
      rw (v.run_id, v.branch, v.result_sha, v.verified_at) refl

module _ ⦃dates : Dates⦄ (runner_types : RunnerValueTypeRegistry) where
  pub decode_run-run_object :
      (x : Run)
      → IsRun runner_types x
      → (path : String) → decode_run runner_types (unknown_of (run_object x)) path ≡ ok x
  unfolding unknown_of decode_run run_object decode_run_base decode_running_run decode_completed_run
      decode_failed_run decode_canceled_run exact_record keys_of property sort_keys ◌==◌
  decode_run-run_object (running r) v path =
      rw
        (
          v.id,
          v.project_id,
          v.source_node_sha,
          decode_goal_value-goal_object r.goal v.goal,
          v.goal_digest,
          decode_runner_value-runner_object runner_types r.runner v.runner,
          v.runner_digest,
          v.branch,
          decode_array-array_of IsRunCheckpoint checkpoint_object decode_checkpoint
              decode_checkpoint-checkpoint_object r.checkpoints _ v.checkpoints,
          decode_array-array_of IsIdentifier string (decode_id "evidenceId")
              (decode_id-string "evidenceId") r.evidence_ids _ v.evidence_ids,
          v.started_at,
        )
        refl
  decode_run-run_object (completed r) v path =
      rw
        (
          v.base.id,
          v.base.project_id,
          v.base.source_node_sha,
          decode_goal_value-goal_object r.base.goal v.base.goal,
          v.base.goal_digest,
          decode_runner_value-runner_object runner_types r.base.runner v.base.runner,
          v.base.runner_digest,
          v.base.branch,
          decode_array-array_of IsRunCheckpoint checkpoint_object decode_checkpoint
              decode_checkpoint-checkpoint_object r.base.checkpoints _ v.base.checkpoints,
          decode_array-array_of IsIdentifier string (decode_id "evidenceId")
              (decode_id-string "evidenceId") r.base.evidence_ids _ v.base.evidence_ids,
          v.base.started_at,
          v.result_node_sha,
          v.verified_at,
          v.completed_at,
        )
        refl
  decode_run-run_object (failed r) v path =
      rw
        (
          v.base.id,
          v.base.project_id,
          v.base.source_node_sha,
          decode_goal_value-goal_object r.base.goal v.base.goal,
          v.base.goal_digest,
          decode_runner_value-runner_object runner_types r.base.runner v.base.runner,
          v.base.runner_digest,
          v.base.branch,
          decode_array-array_of IsRunCheckpoint checkpoint_object decode_checkpoint
              decode_checkpoint-checkpoint_object r.base.checkpoints _ v.base.checkpoints,
          decode_array-array_of IsIdentifier string (decode_id "evidenceId")
              (decode_id-string "evidenceId") r.base.evidence_ids _ v.base.evidence_ids,
          v.base.started_at,
          v.failed_at,
          v.failure_reason,
        )
        refl
  decode_run-run_object (canceled r) v path =
      rw
        (
          v.base.id,
          v.base.project_id,
          v.base.source_node_sha,
          decode_goal_value-goal_object r.base.goal v.base.goal,
          v.base.goal_digest,
          decode_runner_value-runner_object runner_types r.base.runner v.base.runner,
          v.base.runner_digest,
          v.base.branch,
          decode_array-array_of IsRunCheckpoint checkpoint_object decode_checkpoint
              decode_checkpoint-checkpoint_object r.base.checkpoints _ v.base.checkpoints,
          decode_array-array_of IsIdentifier string (decode_id "evidenceId")
              (decode_id-string "evidenceId") r.base.evidence_ids _ v.base.evidence_ids,
          v.base.started_at,
          v.canceled_at,
          v.cancellation_reason,
        )
        refl
