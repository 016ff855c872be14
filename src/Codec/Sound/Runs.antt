-- ===== src/Codec/Sound/Runs.antt =====
-- Runs: what `decodeRun` of packages/protocol/src/serialization.ts returns.
use hunsu.Base.{subst, String, not, [], ◌∷◌}
use hunsu.Lists.{All}
use hunsu.Codec.Values.{Unknown, Fields, exact_record}
use hunsu.Codec.Makers.{Dates}
use hunsu.Codec.Plans.{RunnerValueTypeRegistry}
use hunsu.Codec.Records.{is_tagged, has_tag}
use hunsu.Codec.Runs.{
  run_keys, decode_run_base, decode_running_run, decode_completed_run, decode_failed_run,
  decode_canceled_run, decode_run,
}
use hunsu.Codec.Valid.Runs.{IsRunBase, IsCompletedRun, IsFailedRun, IsCanceledRun, IsRun}
use hunsu.Codec.Sound.Plans.{IsSteady, decode_goal_value-IsSound, decode_runner_value-IsSound}
use hunsu.Codec.Sound.Fields.{
  decode_id-IsSound, decode_text-IsSound, decode_git_sha-IsSound, decode_branch-IsSound,
  decode_goal_digest-IsSound, decode_runner_digest-IsSound, decode_timestamp-IsSound,
}
use hunsu.Codec.Sound.Steps.{
  IsSound, Gives, bind_ok, refusal, if_Gives, sound_of, ok_eq, decode_array-IsSound, read,
}
use hunsu.Codec.Sound.Evidence.{decode_checkpoint-IsSound}

module _ ⦃dates : Dates⦄ (runner_types : RunnerValueTypeRegistry)
    (steady : All IsSteady runner_types) where
  decode_run_base-Gives :
      (fields : Fields) (path : String)
      → Gives (IsRunBase runner_types) (decode_run_base runner_types fields path)
  unfolding decode_run_base
  decode_run_base-Gives fields path = record {
    gives = λ x h.
        let (id, of_id, h1) = read (decode_id-IsSound "runId") "id" fields path _ x h in
        let (project_id, of_project_id, h2) =
          read (decode_id-IsSound "projectId") "projectId" fields path _ x h1 in
        let (source_node_sha, of_source_node_sha, h3) =
          read decode_git_sha-IsSound "sourceNodeSha" fields path _ x h2 in
        let (goal, of_goal, h4) = read decode_goal_value-IsSound "goal" fields path _ x h3 in
        let (goal_digest, of_goal_digest, h5) =
          read decode_goal_digest-IsSound "goalDigest" fields path _ x h4 in
        let (runner, of_runner, h6) =
          read (decode_runner_value-IsSound runner_types steady) "runner" fields path _ x h5 in
        let (runner_digest, of_runner_digest, h7) =
          read decode_runner_digest-IsSound "runnerDigest" fields path _ x h6 in
        let (branch, of_branch, h8) = read decode_branch-IsSound "branch" fields path _ x h7 in
        let (checkpoints, of_checkpoints, h9) =
          read (decode_array-IsSound decode_checkpoint-IsSound) "checkpoints" fields path _ x h8 in
        let (evidence_ids, of_evidence_ids, h10) =
          read (decode_array-IsSound (decode_id-IsSound "evidenceId")) "evidenceIds" fields path _ x
            h9 in
        let (started_at, of_started_at, h11) =
          read decode_timestamp-IsSound "startedAt" fields path _ x h10 in
        subst (IsRunBase runner_types) (ok_eq _ x h11) (record {
          id = of_id;
          project_id = of_project_id;
          source_node_sha = of_source_node_sha;
          goal = of_goal;
          goal_digest = of_goal_digest;
          runner = of_runner;
          runner_digest = of_runner_digest;
          branch = of_branch;
          checkpoints = of_checkpoints;
          evidence_ids = of_evidence_ids;
          started_at = of_started_at;
        });
  }

  running-Gives :
      (value : Unknown) (path : String)
      → Gives (IsRun runner_types) (decode_running_run runner_types value path)
  unfolding decode_running_run
  running-Gives value path = record {
    gives = λ x h.
        let (fields, _, h0) = bind_ok (exact_record value path (run_keys ([]))) _ x h in
        let (base, of_base, h1) = bind_ok (decode_run_base runner_types fields path) _ x h0 in
        subst (IsRun runner_types) (ok_eq _ x h1)
          ((decode_run_base-Gives fields path).gives base of_base);
  }

  completed-Gives :
      (value : Unknown) (path : String)
      → Gives (IsRun runner_types) (decode_completed_run runner_types value path)
  unfolding decode_completed_run
  completed-Gives value path = record {
    gives = λ x h.
        let (fields, _, h0) =
          bind_ok
            (exact_record value path
              (run_keys ("resultNodeSha" ∷ "verifiedAt" ∷ "completedAt" ∷ [])))
            _ x h in
        let (base, of_base, h1) = bind_ok (decode_run_base runner_types fields path) _ x h0 in
        let (result_node_sha, of_result_node_sha, h2) =
          read decode_git_sha-IsSound "resultNodeSha" fields path _ x h1 in
        let (verified_at, of_verified_at, h3) =
          read decode_timestamp-IsSound "verifiedAt" fields path _ x h2 in
        let (completed_at, of_completed_at, h4) =
          read decode_timestamp-IsSound "completedAt" fields path _ x h3 in
        let terminal : IsCompletedRun runner_types (record {
          base = base;
          result_node_sha = result_node_sha;
          verified_at = verified_at;
          completed_at = completed_at;
        }) =
          record {
            base = (decode_run_base-Gives fields path).gives base of_base;
            result_node_sha = of_result_node_sha;
            verified_at = of_verified_at;
            completed_at = of_completed_at;
          } in
        subst (IsRun runner_types) (ok_eq _ x h4) terminal;
  }

  failed-Gives :
      (value : Unknown) (path : String)
      → Gives (IsRun runner_types) (decode_failed_run runner_types value path)
  unfolding decode_failed_run
  failed-Gives value path = record {
    gives = λ x h.
        let (fields, _, h0) =
          bind_ok (exact_record value path (run_keys ("failedAt" ∷ "failureReason" ∷ []))) _ x h in
        let (base, of_base, h1) = bind_ok (decode_run_base runner_types fields path) _ x h0 in
        let (failed_at, of_failed_at, h2) =
          read decode_timestamp-IsSound "failedAt" fields path _ x h1 in
        let (failure_reason, of_failure_reason, h3) =
          read decode_text-IsSound "failureReason" fields path _ x h2 in
        let terminal : IsFailedRun runner_types
            (record { base = base; failed_at = failed_at; failure_reason = failure_reason }) =
          record {
            base = (decode_run_base-Gives fields path).gives base of_base;
            failed_at = of_failed_at;
            failure_reason = of_failure_reason;
          } in
        subst (IsRun runner_types) (ok_eq _ x h3) terminal;
  }

  canceled-Gives :
      (value : Unknown) (path : String)
      → Gives (IsRun runner_types) (decode_canceled_run runner_types value path)
  unfolding decode_canceled_run
  canceled-Gives value path = record {
    gives = λ x h.
        let (fields, _, h0) =
          bind_ok (exact_record value path (run_keys ("canceledAt" ∷ "cancellationReason" ∷ []))) _
            x h in
        let (base, of_base, h1) = bind_ok (decode_run_base runner_types fields path) _ x h0 in
        let (canceled_at, of_canceled_at, h2) =
          read decode_timestamp-IsSound "canceledAt" fields path _ x h1 in
        let (cancellation_reason, of_cancellation_reason, h3) =
          read decode_text-IsSound "cancellationReason" fields path _ x h2 in
        let terminal : IsCanceledRun runner_types (record {
          base = base;
          canceled_at = canceled_at;
          cancellation_reason = cancellation_reason;
        }) =
          record {
            base = (decode_run_base-Gives fields path).gives base of_base;
            canceled_at = of_canceled_at;
            cancellation_reason = of_cancellation_reason;
          } in
        subst (IsRun runner_types) (ok_eq _ x h3) terminal;
  }

  pub decode_run-IsSound : IsSound (decode_run runner_types) (IsRun runner_types)
  unfolding decode_run
  decode_run-IsSound = sound_of (decode_run runner_types) λ value path.
      if_Gives (not (is_tagged "status" value)) _ _ (refusal _ _) (
        if_Gives (has_tag "status" value "running") _ _ (running-Gives value path) (
          if_Gives (has_tag "status" value "completed") _ _ (completed-Gives value path) (
            if_Gives (has_tag "status" value "failed") _ _ (failed-Gives value path) (
              if_Gives (has_tag "status" value "canceled") _ _ (canceled-Gives value path)
                (refusal _ _)))))
