-- ===== src/Codec/Sound/Alternatives.antt =====
-- Comparisons and the decisions on them: what the decoders of packages/protocol/src/serialization.ts
-- return.
use hunsu.Base.{subst, String, [], ◌∷◌}
use hunsu.Lists.{All, all_unique}
use hunsu.Protocol.{ComparisonKind, sibling_runs, coached_how_experiment}
use hunsu.Codec.Values.{Unknown, Fields, Decoded, exact_record, at}
use hunsu.Codec.Makers.{Dates}
use hunsu.Codec.Fields.{require_some, at_key, decode_git_sha, decode_goal_digest}
use hunsu.Codec.Records.{has_tag}
use hunsu.Codec.Alternatives.{
  check_findings, decode_node_shas, decode_comparison_fields, decode_sibling_runs,
  decode_coached_how_experiment, decode_comparison, decode_historical_v2_comparison,
  normalize_findings, decode_selection, decode_rejection, decode_alternative_decision,
}
use hunsu.Codec.Valid.{IsGitSha}
use hunsu.Codec.Valid.Alternatives.{
  IsComparisonKind, IsAlternativeComparison, IsSelectionDecision, IsRejectionDecision,
  IsAlternativeDecision,
}
use hunsu.Codec.Sound.Normal.{normalize_findings_ok}
use hunsu.Codec.Sound.Fields.{
  decode_id-IsSound, decode_text-IsSound, decode_git_sha-IsSound, decode_goal_digest-IsSound,
  decode_timestamp-IsSound,
}
use hunsu.Codec.Sound.Steps.{
  IsSound, Gives, bind_ok, then_ok, bind-Gives, value-Gives, refusal, if_Gives, sound_of, ok_eq,
  require_ok, require_some_ok, decode_array-IsSound, read,
}
use hunsu.Codec.Sound.Findings.{decode_comparison_finding-IsSound, check_findings_ok, node_shas_ok}

module _ ⦃dates : Dates⦄ where
  comparison_fields-Gives :
      (decode_kind : Fields → String → Decoded ComparisonKind) (fields : Fields) (path : String)
      → Gives IsComparisonKind (decode_kind fields path)
      → Gives IsAlternativeComparison (decode_comparison_fields decode_kind fields path)
  unfolding decode_comparison_fields
  comparison_fields-Gives decode_kind fields path kind-Gives = record {
    gives = λ x h.
        let (id, of_id, h1) = read (decode_id-IsSound "comparisonId") "id" fields path _ x h in
        let (project_id, of_project_id, h2) =
          read (decode_id-IsSound "projectId") "projectId" fields path _ x h1 in
        let (node_shas, of_node_shas, h3) = bind_ok (decode_node_shas fields path) _ x h2 in
        let (findings, of_findings, h4) =
          read (decode_array-IsSound decode_comparison_finding-IsSound) "findings" fields path _ x
            h3 in
        let (u, checked, h5) = then_ok (check_findings node_shas path 0 findings) _ x h4 in
        let (summary, of_summary, h6) = read decode_text-IsSound "summary" fields path _ x h5 in
        let (recorded_at, of_recorded_at, h7) =
          read decode_timestamp-IsSound "recordedAt" fields path _ x h6 in
        let (kind, of_kind, h8) = bind_ok (decode_kind fields path) _ x h7 in
        let (all, has_two, unique) = node_shas_ok fields path node_shas of_node_shas in
        subst IsAlternativeComparison (ok_eq _ x h8) (record {
          id = of_id;
          project_id = of_project_id;
          node_shas = all;
          findings = of_findings;
          summary = of_summary;
          recorded_at = of_recorded_at;
          kind = kind-Gives.gives kind of_kind;
          has_two = has_two;
          unique_nodes = unique;
          summarized = check_findings_ok node_shas path 0 findings u checked;
        });
  }

  sibling_runs-Gives :
      (value : Unknown) (path : String)
      → Gives IsAlternativeComparison (decode_sibling_runs value path)
  unfolding decode_sibling_runs
  sibling_runs-Gives value path =
      bind-Gives
        (exact_record value path (
          "type" ∷ "id" ∷ "projectId" ∷ "parentNodeSha" ∷ "nodeShas" ∷ "findings" ∷ "summary"
          ∷ "recordedAt" ∷ []))
        _
        λ fields of_fields. comparison_fields-Gives _ fields path (
          bind-Gives (at_key decode_git_sha "parentNodeSha" fields path) _ λ sha of_sha.
            value-Gives (sibling_runs sha) (decode_git_sha-IsSound.sound _ _ sha of_sha))

  experiment-Gives :
      (value : Unknown) (path : String)
      → Gives IsAlternativeComparison (decode_coached_how_experiment value path)
  unfolding decode_coached_how_experiment
  experiment-Gives value path =
      bind-Gives
        (exact_record value path (
          "type" ∷ "id" ∷ "projectId" ∷ "anchorNodeSha" ∷ "goalDigest" ∷ "nodeShas" ∷ "findings"
          ∷ "summary" ∷ "recordedAt" ∷ []))
        _
        λ fields of_fields. comparison_fields-Gives _ fields path (
          bind-Gives (at_key decode_git_sha "anchorNodeSha" fields path) _ λ sha of_sha.
            bind-Gives (at_key decode_goal_digest "goalDigest" fields path) _ λ digest of_digest.
              value-Gives (coached_how_experiment sha digest) (
                decode_git_sha-IsSound.sound _ _ sha of_sha,
                decode_goal_digest-IsSound.sound _ _ digest of_digest,
              ))

  pub decode_comparison-IsSound : IsSound decode_comparison IsAlternativeComparison
  unfolding decode_comparison
  decode_comparison-IsSound = sound_of decode_comparison λ value path.
      if_Gives (has_tag "type" value "sibling_runs") _ _ (sibling_runs-Gives value path) (
        if_Gives (has_tag "type" value "coached_how_experiment") _ _ (experiment-Gives value path)
          (refusal _ _))

  pub decode_historical_v2_comparison-IsSound :
      IsSound decode_historical_v2_comparison IsAlternativeComparison
  unfolding decode_historical_v2_comparison
  decode_historical_v2_comparison-IsSound = record {
    sound = λ value path x h.
        let (fields, _, h0) =
          bind_ok
            (exact_record value path (
              "id" ∷ "projectId" ∷ "parentNodeSha" ∷ "nodeShas" ∷ "findings" ∷ "summary"
              ∷ "recordedAt" ∷ []))
            _ x h in
        let (id, of_id, h1) = read (decode_id-IsSound "comparisonId") "id" fields path _ x h0 in
        let (project_id, of_project_id, h2) =
          read (decode_id-IsSound "projectId") "projectId" fields path _ x h1 in
        let (parent_node_sha, of_parent_node_sha, h3) =
          read decode_git_sha-IsSound "parentNodeSha" fields path _ x h2 in
        let (node_shas, of_node_shas, h4) = bind_ok (decode_node_shas fields path) _ x h3 in
        let (findings, of_findings, h5) =
          read (decode_array-IsSound decode_comparison_finding-IsSound) "findings" fields path _ x
            h4 in
        let (summary, of_summary, h6) = read decode_text-IsSound "summary" fields path _ x h5 in
        let (normalized, of_normalized, h7) =
          bind_ok (normalize_findings node_shas summary path 0 findings) _ x h6 in
        let (recorded_at, of_recorded_at, h8) =
          read decode_timestamp-IsSound "recordedAt" fields path _ x h7 in
        let (all, has_two, unique) = node_shas_ok fields path node_shas of_node_shas in
        let (of_normal, summarized) =
          normalize_findings_ok node_shas summary path 0 findings normalized all unique of_summary
            of_findings of_normalized in
        subst IsAlternativeComparison (ok_eq _ x h8) (record {
          id = of_id;
          project_id = of_project_id;
          node_shas = all;
          findings = of_normal;
          summary = of_summary;
          recorded_at = of_recorded_at;
          kind = of_parent_node_sha;
          has_two = has_two;
          unique_nodes = unique;
          summarized = summarized;
        });
  }

  selection-Gives :
      (value : Unknown) (path : String) → Gives IsAlternativeDecision (decode_selection value path)
  unfolding decode_selection
  selection-Gives value path = record {
    gives = λ x h.
        let (fields, _, h0) =
          bind_ok
            (exact_record value path (
              "type" ∷ "id" ∷ "projectId" ∷ "comparisonId" ∷ "selectedNodeSha" ∷ "rationale"
              ∷ "decidedAt" ∷ []))
            _ x h in
        let (id, of_id, h1) = read (decode_id-IsSound "decisionId") "id" fields path _ x h0 in
        let (project_id, of_project_id, h2) =
          read (decode_id-IsSound "projectId") "projectId" fields path _ x h1 in
        let (comparison_id, of_comparison_id, h3) =
          read (decode_id-IsSound "comparisonId") "comparisonId" fields path _ x h2 in
        let (rationale, of_rationale, h4) =
          read decode_text-IsSound "rationale" fields path _ x h3 in
        let (decided_at, of_decided_at, h5) =
          read decode_timestamp-IsSound "decidedAt" fields path _ x h4 in
        let (selected_node_sha, of_selected_node_sha, h6) =
          read decode_git_sha-IsSound "selectedNodeSha" fields path _ x h5 in
        let variant : IsSelectionDecision (record {
          id = id;
          project_id = project_id;
          comparison_id = comparison_id;
          rationale = rationale;
          decided_at = decided_at;
          selected_node_sha = selected_node_sha;
        }) =
          record {
            id = of_id;
            project_id = of_project_id;
            comparison_id = of_comparison_id;
            rationale = of_rationale;
            decided_at = of_decided_at;
            selected_node_sha = of_selected_node_sha;
          } in
        subst IsAlternativeDecision (ok_eq _ x h6) variant;
  }

  rejection-Gives :
      (value : Unknown) (path : String) → Gives IsAlternativeDecision (decode_rejection value path)
  unfolding decode_rejection
  rejection-Gives value path = record {
    gives = λ x h.
        let (fields, _, h0) =
          bind_ok
            (exact_record value path (
              "type" ∷ "id" ∷ "projectId" ∷ "comparisonId" ∷ "rejectedNodeShas" ∷ "rationale"
              ∷ "decidedAt" ∷ []))
            _ x h in
        let (id, of_id, h1) = read (decode_id-IsSound "decisionId") "id" fields path _ x h0 in
        let (project_id, of_project_id, h2) =
          read (decode_id-IsSound "projectId") "projectId" fields path _ x h1 in
        let (comparison_id, of_comparison_id, h3) =
          read (decode_id-IsSound "comparisonId") "comparisonId" fields path _ x h2 in
        let (rationale, of_rationale, h4) =
          read decode_text-IsSound "rationale" fields path _ x h3 in
        let (decided_at, of_decided_at, h5) =
          read decode_timestamp-IsSound "decidedAt" fields path _ x h4 in
        let (shas, of_shas, h6) =
          read (decode_array-IsSound decode_git_sha-IsSound) "rejectedNodeShas" fields path _ x
            h5 in
        let (rejected_node_shas, of_rejected_node_shas, h7) =
          bind_ok (require_some shas (at path "rejectedNodeShas")) _ x h6 in
        let (unique, h8) = require_ok (all_unique rejected_node_shas) _ _ _ x h7 in
        let (has_nodes, same) =
          require_some_ok shas rejected_node_shas (at path "rejectedNodeShas")
            of_rejected_node_shas in
        let variant : IsRejectionDecision (record {
          id = id;
          project_id = project_id;
          comparison_id = comparison_id;
          rejected_node_shas = rejected_node_shas;
          rationale = rationale;
          decided_at = decided_at;
        }) =
          record {
            id = of_id;
            project_id = of_project_id;
            comparison_id = of_comparison_id;
            rationale = of_rationale;
            decided_at = of_decided_at;
            rejected_node_shas = subst (All IsGitSha) same of_shas;
            has_nodes = has_nodes;
            unique_nodes = unique;
          } in
        subst IsAlternativeDecision (ok_eq _ x h8) variant;
  }

  pub decode_alternative_decision-IsSound :
      IsSound decode_alternative_decision IsAlternativeDecision
  unfolding decode_alternative_decision
  decode_alternative_decision-IsSound = sound_of decode_alternative_decision λ value path.
      if_Gives (has_tag "type" value "selection") _ _ (selection-Gives value path)
        (if_Gives (has_tag "type" value "rejection") _ _ (rejection-Gives value path) (refusal _ _))
