-- ===== src/Codec/Objects/Runs.antt =====
-- packages/protocol/src/model.ts: checkpoints, evidence and Runs as objects.
use hunsu.Base.{String, List, [], ◌∷◌, ◌++◌}
use hunsu.Protocol.{
  CanonicalJsonValue, CheckpointLocation, observation, commit, RunCheckpoint, EvidenceLocation, git,
  url, note_text, EvidenceTarget, whole_run, criterion, EvidenceKind, diff, check, screenshot,
  report, note, EvidenceRef, RunBase, Run, running, completed, failed, canceled, VerifiedRunResult,
}
use hunsu.Codec.Objects.{string, object_of, array_of, goal_object, runner_object}

unfoldable pub checkpoint_location_object : CheckpointLocation → CanonicalJsonValue
checkpoint_location_object observation = object_of (("type", string "observation") ∷ [])
checkpoint_location_object (commit sha) =
    object_of (("type", string "commit") ∷ ("commitSha", string sha) ∷ [])

unfoldable pub evidence_target_object : EvidenceTarget → CanonicalJsonValue
evidence_target_object whole_run = object_of (("type", string "run") ∷ [])
evidence_target_object (criterion text) =
    object_of (("type", string "criterion") ∷ ("criterion", string text) ∷ [])

unfoldable pub evidence_kind_text : EvidenceKind → CanonicalJsonValue
evidence_kind_text diff = string "diff"
evidence_kind_text check = string "check"
evidence_kind_text screenshot = string "screenshot"
evidence_kind_text report = string "report"
evidence_kind_text note = string "note"

unfoldable pub evidence_location_object : EvidenceLocation → CanonicalJsonValue
evidence_location_object (git sha path) =
    object_of (("type", string "git") ∷ ("commitSha", string sha) ∷ ("path", string path) ∷ [])
evidence_location_object (url text) = object_of (("type", string "url") ∷ ("url", string text) ∷ [])
evidence_location_object (note_text text) =
    object_of (("type", string "text") ∷ ("text", string text) ∷ [])

unfoldable pub checkpoint_object : RunCheckpoint → CanonicalJsonValue
checkpoint_object x = object_of (
    ("id", string x.id)
    ∷ ("runId", string x.run_id)
    ∷ ("summary", string x.summary)
    ∷ ("location", checkpoint_location_object x.location)
    ∷ ("recordedAt", string x.recorded_at)
    ∷ [])

unfoldable pub evidence_object : EvidenceRef → CanonicalJsonValue
evidence_object x = object_of (
    ("id", string x.id)
    ∷ ("projectId", string x.project_id)
    ∷ ("runId", string x.run_id)
    ∷ ("target", evidence_target_object x.target)
    ∷ ("kind", evidence_kind_text x.kind)
    ∷ ("summary", string x.summary)
    ∷ ("location", evidence_location_object x.location)
    ∷ ("recordedAt", string x.recorded_at)
    ∷ [])

unfoldable pub verified_result_object : VerifiedRunResult → CanonicalJsonValue
verified_result_object x = object_of (
    ("runId", string x.run_id)
    ∷ ("branch", string x.branch)
    ∷ ("resultSha", string x.result_sha)
    ∷ ("verifiedAt", string x.verified_at)
    ∷ [])

abbrev base_entries : RunBase → List (String × CanonicalJsonValue)
base_entries x =
    ("id", string x.id)
    ∷ ("projectId", string x.project_id)
    ∷ ("sourceNodeSha", string x.source_node_sha)
    ∷ ("goal", goal_object x.goal)
    ∷ ("goalDigest", string x.goal_digest)
    ∷ ("runner", runner_object x.runner)
    ∷ ("runnerDigest", string x.runner_digest)
    ∷ ("branch", string x.branch)
    ∷ ("checkpoints", array_of checkpoint_object x.checkpoints)
    ∷ ("evidenceIds", array_of string x.evidence_ids)
    ∷ ("startedAt", string x.started_at)
    ∷ []

unfoldable pub run_object : Run → CanonicalJsonValue
run_object (running r) = object_of (base_entries r ++ ("status", string "running") ∷ [])
run_object (completed r) = object_of (
    base_entries r.base
    ++ ("status", string "completed")
      ∷ ("resultNodeSha", string r.result_node_sha)
      ∷ ("verifiedAt", string r.verified_at)
      ∷ ("completedAt", string r.completed_at)
      ∷ [])
run_object (failed r) = object_of (
    base_entries r.base
    ++ ("status", string "failed")
      ∷ ("failedAt", string r.failed_at)
      ∷ ("failureReason", string r.failure_reason)
      ∷ [])
run_object (canceled r) = object_of (
    base_entries r.base
    ++ ("status", string "canceled")
      ∷ ("canceledAt", string r.canceled_at)
      ∷ ("cancellationReason", string r.cancellation_reason)
      ∷ [])
