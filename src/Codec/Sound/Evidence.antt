-- ===== src/Codec/Sound/Evidence.antt =====
-- Checkpoints, evidence and results: what the decoders of packages/protocol/src/serialization.ts return.
use hunsu.Base.{subst, not, [], ◌∷◌}
use hunsu.Protocol.{observation, commit, git, url, note_text, whole_run, criterion}
use hunsu.Codec.Values.{exact_record, is_record}
use hunsu.Codec.Makers.{Dates}
use hunsu.Codec.Fields.{at_key, decode_text, decode_git_sha, decode_tree_path}
use hunsu.Codec.Records.{is_tagged, has_tag}
use hunsu.Codec.Runs.{
  decode_checkpoint_location, decode_evidence_target, decode_evidence_kind,
  decode_evidence_location, decode_checkpoint, decode_evidence, decode_verified_result,
}
use hunsu.Codec.Valid.Runs.{
  IsCheckpointLocation, IsEvidenceTarget, IsEvidenceLocation, IsRunCheckpoint, IsEvidenceRef,
  IsVerifiedRunResult,
}
use hunsu.Codec.Sound.Fields.{
  decode_id-IsSound, decode_text-IsSound, decode_git_sha-IsSound, decode_tree_path-IsSound,
  decode_branch-IsSound, decode_timestamp-IsSound,
}
use hunsu.Codec.Sound.Steps.{
  IsSound, bind_ok, bind-Gives, value-Gives, refusal, if_Gives, sound_of, any-IsSound, ok_eq, read,
}

decode_checkpoint_location-IsSound : IsSound decode_checkpoint_location IsCheckpointLocation
unfolding decode_checkpoint_location
decode_checkpoint_location-IsSound = sound_of decode_checkpoint_location λ value path.
    if_Gives (has_tag "type" value "observation") _ _
      (bind-Gives (exact_record value path ("type" ∷ [])) _
        λ fields of_fields. value-Gives observation tt)
      (bind-Gives (exact_record value path ("type" ∷ "commitSha" ∷ [])) _ λ fields of_fields.
        if_Gives (has_tag "type" value "commit") _ _
          (bind-Gives (at_key decode_git_sha "commitSha" fields path) _
            λ sha of_sha. value-Gives (commit sha) (decode_git_sha-IsSound.sound _ _ sha of_sha))
          (refusal _ _))

decode_evidence_target-IsSound : IsSound decode_evidence_target IsEvidenceTarget
unfolding decode_evidence_target
decode_evidence_target-IsSound = sound_of decode_evidence_target λ value path.
    if_Gives (not (is_record value)) _ _ (refusal _ _) (
      if_Gives (has_tag "type" value "run") _ _
        (bind-Gives (exact_record value path ("type" ∷ [])) _
          λ fields of_fields. value-Gives whole_run tt)
        (if_Gives (has_tag "type" value "criterion") _ _
          (bind-Gives (exact_record value path ("type" ∷ "criterion" ∷ [])) _ λ fields of_fields.
            bind-Gives (at_key decode_text "criterion" fields path) _ λ text of_text.
              value-Gives (criterion text) (decode_text-IsSound.sound _ _ text of_text))
          (refusal _ _)))

decode_evidence_location-IsSound : IsSound decode_evidence_location IsEvidenceLocation
unfolding decode_evidence_location
decode_evidence_location-IsSound = sound_of decode_evidence_location λ value path.
    if_Gives (not (is_tagged "type" value)) _ _ (refusal _ _) (
      if_Gives (has_tag "type" value "git") _ _
        (bind-Gives (exact_record value path ("type" ∷ "commitSha" ∷ "path" ∷ [])) _
          λ fields of_fields.
            bind-Gives (at_key decode_git_sha "commitSha" fields path) _ λ sha of_sha.
              bind-Gives (at_key decode_tree_path "path" fields path) _ λ file of_file.
                value-Gives (git sha file) (
                  decode_git_sha-IsSound.sound _ _ sha of_sha,
                  decode_tree_path-IsSound.sound _ _ file of_file,
                ))
        (if_Gives (has_tag "type" value "url") _ _
          (bind-Gives (exact_record value path ("type" ∷ "url" ∷ [])) _ λ fields of_fields.
            bind-Gives (at_key decode_text "url" fields path) _
              λ text of_text. value-Gives (url text) (decode_text-IsSound.sound _ _ text of_text))
          (if_Gives (has_tag "type" value "text") _ _
            (bind-Gives (exact_record value path ("type" ∷ "text" ∷ [])) _ λ fields of_fields.
              bind-Gives (at_key decode_text "text" fields path) _ λ text of_text.
                value-Gives (note_text text) (decode_text-IsSound.sound _ _ text of_text))
            (refusal _ _))))

module _ ⦃dates : Dates⦄ where
  pub decode_checkpoint-IsSound : IsSound decode_checkpoint IsRunCheckpoint
  unfolding decode_checkpoint
  decode_checkpoint-IsSound = record {
    sound = λ value path x h.
        let (fields, _, h0) =
          bind_ok
            (exact_record value path ("id" ∷ "runId" ∷ "summary" ∷ "location" ∷ "recordedAt" ∷ []))
            _ x h in
        let (id, of_id, h1) = read (decode_id-IsSound "checkpointId") "id" fields path _ x h0 in
        let (run_id, of_run_id, h2) = read (decode_id-IsSound "runId") "runId" fields path _ x h1 in
        let (summary, of_summary, h3) = read decode_text-IsSound "summary" fields path _ x h2 in
        let (location, of_location, h4) =
          read decode_checkpoint_location-IsSound "location" fields path _ x h3 in
        let (recorded_at, of_recorded_at, h5) =
          read decode_timestamp-IsSound "recordedAt" fields path _ x h4 in
        subst IsRunCheckpoint (ok_eq _ x h5) (record {
          id = of_id;
          run_id = of_run_id;
          summary = of_summary;
          location = of_location;
          recorded_at = of_recorded_at;
        });
  }

  pub decode_evidence-IsSound : IsSound decode_evidence IsEvidenceRef
  unfolding decode_evidence
  decode_evidence-IsSound = record {
    sound = λ value path x h.
        let (fields, _, h0) =
          bind_ok
            (exact_record value path (
              "id" ∷ "projectId" ∷ "runId" ∷ "target" ∷ "kind" ∷ "summary" ∷ "location"
              ∷ "recordedAt" ∷ []))
            _ x h in
        let (id, of_id, h1) = read (decode_id-IsSound "evidenceId") "id" fields path _ x h0 in
        let (project_id, of_project_id, h2) =
          read (decode_id-IsSound "projectId") "projectId" fields path _ x h1 in
        let (run_id, of_run_id, h3) = read (decode_id-IsSound "runId") "runId" fields path _ x h2 in
        let (target, of_target, h4) =
          read decode_evidence_target-IsSound "target" fields path _ x h3 in
        let (kind, of_kind, h5) =
          read (any-IsSound decode_evidence_kind) "kind" fields path _ x h4 in
        let (summary, of_summary, h6) = read decode_text-IsSound "summary" fields path _ x h5 in
        let (location, of_location, h7) =
          read decode_evidence_location-IsSound "location" fields path _ x h6 in
        let (recorded_at, of_recorded_at, h8) =
          read decode_timestamp-IsSound "recordedAt" fields path _ x h7 in
        subst IsEvidenceRef (ok_eq _ x h8) (record {
          id = of_id;
          project_id = of_project_id;
          run_id = of_run_id;
          target = of_target;
          summary = of_summary;
          location = of_location;
          recorded_at = of_recorded_at;
        });
  }

  pub decode_verified_result-IsSound : IsSound decode_verified_result IsVerifiedRunResult
  unfolding decode_verified_result
  decode_verified_result-IsSound = record {
    sound = λ value path x h.
        let (fields, _, h0) =
          bind_ok (exact_record value path ("runId" ∷ "branch" ∷ "resultSha" ∷ "verifiedAt" ∷ [])) _
            x h in
        let (run_id, of_run_id, h1) = read (decode_id-IsSound "runId") "runId" fields path _ x h0 in
        let (branch, of_branch, h2) = read decode_branch-IsSound "branch" fields path _ x h1 in
        let (result_sha, of_result_sha, h3) =
          read decode_git_sha-IsSound "resultSha" fields path _ x h2 in
        let (verified_at, of_verified_at, h4) =
          read decode_timestamp-IsSound "verifiedAt" fields path _ x h3 in
        subst IsVerifiedRunResult (ok_eq _ x h4) (record {
          run_id = of_run_id;
          branch = of_branch;
          result_sha = of_result_sha;
          verified_at = of_verified_at;
        });
  }
