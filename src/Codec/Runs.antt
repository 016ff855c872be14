-- ===== src/Codec/Runs.antt =====
-- packages/protocol/src/serialization.ts: decoders of checkpoints, evidence and Runs.
use hunsu.Base.{String, not, ◌==◌, List, [], ◌∷◌, if◌then◌else◌}
use hunsu.Protocol.{
  ok, ◌>>=◌, CheckpointLocation, observation, commit, RunCheckpoint, EvidenceLocation, git, url,
  note_text, EvidenceTarget, whole_run, criterion, EvidenceKind, diff, check, screenshot, report,
  note, EvidenceRef, RunBase, Run, running, completed, failed, canceled, VerifiedRunResult,
}
use hunsu.Codec.Values.{Fields, Decoded, invalid, at, is_record, exact_record, decode_array, one_of}
use hunsu.Codec.Makers.{Dates}
use hunsu.Codec.Fields.{
  Decoder, at_key, decode_id, decode_text, decode_git_sha, decode_branch, decode_tree_path,
  decode_goal_digest, decode_runner_digest, decode_timestamp,
}
use hunsu.Codec.Plans.{RunnerValueTypeRegistry, decode_goal_value, decode_runner_value}
use hunsu.Codec.Records.{is_tagged, has_tag}

unfoldable pub decode_checkpoint_location : Decoder CheckpointLocation
decode_checkpoint_location value path =
    if has_tag "type" value "observation"
    then exact_record value path ("type" ∷ []) >>= (λ _. ok observation)
    else exact_record value path ("type" ∷ "commitSha" ∷ []) >>= λ fields.
        if has_tag "type" value "commit"
        then at_key decode_git_sha "commitSha" fields path >>= (λ sha. ok (commit sha))
        else invalid (at path "type") "unsupported checkpoint location"

unfoldable pub decode_evidence_target : Decoder EvidenceTarget
decode_evidence_target value path =
    if not (is_record value)
    then invalid path "evidence target must be an object"
    else if has_tag "type" value "run"
    then exact_record value path ("type" ∷ []) >>= (λ _. ok whole_run)
    else if has_tag "type" value "criterion"
    then exact_record value path ("type" ∷ "criterion" ∷ [])
      >>= (λ fields. at_key decode_text "criterion" fields path >>= λ text. ok (criterion text))
    else invalid (at path "type") "unsupported evidence target"

-- The kind that a text names, of those in the list.
abbrev kind_named : String → EvidenceKind
kind_named text =
    if text == "diff"
    then diff
    else if text == "check"
    then check
    else if text == "screenshot"
    then screenshot
    else if text == "report"
    then report
    else note

unfoldable pub decode_evidence_kind : Decoder EvidenceKind
decode_evidence_kind value path =
    one_of value ("diff" ∷ "check" ∷ "screenshot" ∷ "report" ∷ "note" ∷ []) path >>= λ text.
    ok (kind_named text)

unfoldable pub decode_evidence_location : Decoder EvidenceLocation
decode_evidence_location value path =
    if not (is_tagged "type" value)
    then invalid path "evidence location must be a typed object"
    else if has_tag "type" value "git"
    then exact_record value path ("type" ∷ "commitSha" ∷ "path" ∷ []) >>= (λ fields.
      at_key decode_git_sha "commitSha" fields path >>= λ sha.
      at_key decode_tree_path "path" fields path >>= λ evidence_path. ok (git sha evidence_path))
    else if has_tag "type" value "url"
    then exact_record value path ("type" ∷ "url" ∷ [])
      >>= (λ fields. at_key decode_text "url" fields path >>= λ text. ok (url text))
    else if has_tag "type" value "text"
    then exact_record value path ("type" ∷ "text" ∷ [])
      >>= (λ fields. at_key decode_text "text" fields path >>= λ text. ok (note_text text))
    else invalid (at path "type") "unsupported evidence location"

module _ ⦃dates : Dates⦄ where
  unfoldable pub decode_checkpoint : Decoder RunCheckpoint
  decode_checkpoint value path = do
    fields ← exact_record value path ("id" ∷ "runId" ∷ "summary" ∷ "location" ∷ "recordedAt" ∷ [])
    id ← at_key (decode_id "checkpointId") "id" fields path
    run_id ← at_key (decode_id "runId") "runId" fields path
    summary ← at_key decode_text "summary" fields path
    location ← at_key decode_checkpoint_location "location" fields path
    recorded_at ← at_key decode_timestamp "recordedAt" fields path
    ok (record {
      id = id;
      run_id = run_id;
      summary = summary;
      location = location;
      recorded_at = recorded_at;
    })

  unfoldable pub decode_evidence : Decoder EvidenceRef
  decode_evidence value path = do
    fields ← exact_record value path (
        "id" ∷ "projectId" ∷ "runId" ∷ "target" ∷ "kind" ∷ "summary" ∷ "location" ∷ "recordedAt"
        ∷ [])
    id ← at_key (decode_id "evidenceId") "id" fields path
    project_id ← at_key (decode_id "projectId") "projectId" fields path
    run_id ← at_key (decode_id "runId") "runId" fields path
    target ← at_key decode_evidence_target "target" fields path
    kind ← at_key decode_evidence_kind "kind" fields path
    summary ← at_key decode_text "summary" fields path
    location ← at_key decode_evidence_location "location" fields path
    recorded_at ← at_key decode_timestamp "recordedAt" fields path
    ok (record {
      id = id;
      project_id = project_id;
      run_id = run_id;
      target = target;
      kind = kind;
      summary = summary;
      location = location;
      recorded_at = recorded_at;
    })

  unfoldable pub decode_verified_result : Decoder VerifiedRunResult
  decode_verified_result value path = do
    fields ← exact_record value path ("runId" ∷ "branch" ∷ "resultSha" ∷ "verifiedAt" ∷ [])
    run_id ← at_key (decode_id "runId") "runId" fields path
    branch ← at_key decode_branch "branch" fields path
    result_sha ← at_key decode_git_sha "resultSha" fields path
    verified_at ← at_key decode_timestamp "verifiedAt" fields path
    ok (record {
      run_id = run_id;
      branch = branch;
      result_sha = result_sha;
      verified_at = verified_at;
    })

abbrev pub run_keys : List String → List String
run_keys terminal_keys =
    "id" ∷ "projectId" ∷ "sourceNodeSha" ∷ "goal" ∷ "goalDigest" ∷ "runner" ∷ "runnerDigest"
    ∷ "branch" ∷ "checkpoints" ∷ "evidenceIds" ∷ "startedAt" ∷ "status" ∷ terminal_keys

module _ ⦃dates : Dates⦄ (runner_types : RunnerValueTypeRegistry) where
  -- The fields that every Run has.
  unfoldable pub decode_run_base : Fields → String → Decoded RunBase
  decode_run_base fields path = do
    id ← at_key (decode_id "runId") "id" fields path
    project_id ← at_key (decode_id "projectId") "projectId" fields path
    source_node_sha ← at_key decode_git_sha "sourceNodeSha" fields path
    goal ← at_key decode_goal_value "goal" fields path
    goal_digest ← at_key decode_goal_digest "goalDigest" fields path
    runner ← at_key (decode_runner_value runner_types) "runner" fields path
    runner_digest ← at_key decode_runner_digest "runnerDigest" fields path
    branch ← at_key decode_branch "branch" fields path
    checkpoints ← at_key (decode_array decode_checkpoint) "checkpoints" fields path
    evidence_ids ← at_key (decode_array (decode_id "evidenceId")) "evidenceIds" fields path
    started_at ← at_key decode_timestamp "startedAt" fields path
    ok (record {
      id = id;
      project_id = project_id;
      source_node_sha = source_node_sha;
      goal = goal;
      goal_digest = goal_digest;
      runner = runner;
      runner_digest = runner_digest;
      branch = branch;
      checkpoints = checkpoints;
      evidence_ids = evidence_ids;
      started_at = started_at;
    })

  unfoldable pub decode_running_run : Decoder Run
  decode_running_run value path = do
    fields ← exact_record value path (run_keys [])
    base ← decode_run_base fields path
    ok (running base)

  unfoldable pub decode_completed_run : Decoder Run
  decode_completed_run value path = do
    fields ←
        exact_record value path (run_keys ("resultNodeSha" ∷ "verifiedAt" ∷ "completedAt" ∷ []))
    base ← decode_run_base fields path
    result_node_sha ← at_key decode_git_sha "resultNodeSha" fields path
    verified_at ← at_key decode_timestamp "verifiedAt" fields path
    completed_at ← at_key decode_timestamp "completedAt" fields path
    ok (
        completed (record {
          base = base;
          result_node_sha = result_node_sha;
          verified_at = verified_at;
          completed_at = completed_at;
        }))

  unfoldable pub decode_failed_run : Decoder Run
  decode_failed_run value path = do
    fields ← exact_record value path (run_keys ("failedAt" ∷ "failureReason" ∷ []))
    base ← decode_run_base fields path
    failed_at ← at_key decode_timestamp "failedAt" fields path
    failure_reason ← at_key decode_text "failureReason" fields path
    ok (failed (record { base = base; failed_at = failed_at; failure_reason = failure_reason }))

  unfoldable pub decode_canceled_run : Decoder Run
  decode_canceled_run value path = do
    fields ← exact_record value path (run_keys ("canceledAt" ∷ "cancellationReason" ∷ []))
    base ← decode_run_base fields path
    canceled_at ← at_key decode_timestamp "canceledAt" fields path
    cancellation_reason ← at_key decode_text "cancellationReason" fields path
    ok (
        canceled (record {
          base = base;
          canceled_at = canceled_at;
          cancellation_reason = cancellation_reason;
        }))

  unfoldable pub decode_run : Decoder Run
  decode_run value path =
      if not (is_tagged "status" value)
      then invalid path "Run must be a status variant"
      else if has_tag "status" value "running"
      then decode_running_run value path
      else if has_tag "status" value "completed"
      then decode_completed_run value path
      else if has_tag "status" value "failed"
      then decode_failed_run value path
      else if has_tag "status" value "canceled"
      then decode_canceled_run value path
      else invalid (at path "status") "unsupported Run status"
