-- ===== src/Codec/RoundTrip/Alternatives.antt =====
-- Comparisons and the decisions on them: what the decoders of packages/protocol/src/serialization.ts
-- read back.
use hunsu.Base.{◌≡◌, refl, ℕ, suc, String, true, ◌==◌, List, [], ◌∷◌}
use hunsu.Lists.{All}
use hunsu.Protocol.{
  ok, FindingSummary, ComparisonFinding, ComparisonKind, sibling_runs, coached_how_experiment,
  AlternativeComparison, AlternativeDecision, selection, rejection,
}
use hunsu.Codec.Values.{exact_record, keys_of, property, sort_keys}
use hunsu.Codec.Makers.{Dates}
use hunsu.Codec.Fields.{decode_git_sha}
use hunsu.Codec.Alternatives.{
  decode_finding_summary, decode_comparison_finding, summarizes_each, check_findings,
  decode_node_shas, decode_comparison_fields, decode_sibling_runs, decode_coached_how_experiment,
  decode_comparison, decode_selection, decode_rejection, decode_alternative_decision,
}
use hunsu.Codec.Canonical.{unknown_of}
use hunsu.Codec.Objects.{string}
use hunsu.Codec.Objects.Alternatives.{
  finding_summary_object, comparison_finding_object, comparison_object, alternative_decision_object,
}
use hunsu.Codec.Valid.{IsGitSha}
use hunsu.Codec.Valid.Alternatives.{
  IsFindingSummary, IsComparisonFinding, IsComparisonKind, IsAlternativeComparison,
  IsAlternativeDecision,
}
use hunsu.Codec.RoundTrip.Arrays.{decode_array-array_of, decode_git_sha-string}

pub decode_finding_summary-finding_summary_object :
    (x : FindingSummary)
    → IsFindingSummary x
    → (path : String) → decode_finding_summary (unknown_of (finding_summary_object x)) path ≡ ok x
unfolding unknown_of decode_finding_summary finding_summary_object exact_record keys_of property
    sort_keys ◌==◌
decode_finding_summary-finding_summary_object x v path = rw (v.node_sha, v.summary) refl

pub decode_comparison_finding-comparison_finding_object :
    (x : ComparisonFinding)
    → IsComparisonFinding x
    → (path : String)
    → decode_comparison_finding (unknown_of (comparison_finding_object x)) path ≡ ok x
unfolding unknown_of decode_comparison_finding comparison_finding_object exact_record keys_of
    property sort_keys ◌==◌
decode_comparison_finding-comparison_finding_object x v path =
    rw
      (
        v.subject,
        decode_array-array_of IsFindingSummary finding_summary_object decode_finding_summary
            decode_finding_summary-finding_summary_object x.summaries _ v.summaries,
        v.has_summaries,
      )
      refl

pub check_findings_lem :
    (shas : List String) (path : String) (index : ℕ) (findings : List ComparisonFinding)
    → All (λ (f : ComparisonFinding). summarizes_each shas f ≡ true) findings
    → check_findings shas path index findings ≡ ok tt
unfolding check_findings
check_findings_lem shas path index [] h = refl
check_findings_lem shas path index (finding ∷ findings) (first, rest) =
    rw (first, check_findings_lem shas path (suc index) findings rest) refl

module _ ⦃dates : Dates⦄ where
  -- The comparison of each kind.
  decode_comparison_kinds :
      (kind : ComparisonKind) (x : AlternativeComparison)
      → x.kind ≡ kind
      → IsComparisonKind kind
      → IsAlternativeComparison x
      → (path : String) → decode_comparison (unknown_of (comparison_object x)) path ≡ ok x
  unfolding unknown_of decode_comparison comparison_object decode_sibling_runs
      decode_coached_how_experiment decode_comparison_fields decode_node_shas exact_record keys_of
      property sort_keys ◌==◌
  decode_comparison_kinds (sibling_runs sha) x is_kind k v path =
      rw
        (
          is_kind,
          v.id,
          v.project_id,
          decode_array-array_of IsGitSha string decode_git_sha decode_git_sha-string x.node_shas _
              v.node_shas,
          v.has_two,
          v.unique_nodes,
          decode_array-array_of IsComparisonFinding comparison_finding_object
              decode_comparison_finding decode_comparison_finding-comparison_finding_object
              x.findings _ v.findings,
          check_findings_lem x.node_shas path 0 x.findings v.summarized,
          v.summary,
          v.recorded_at,
          k,
        )
        refl
  decode_comparison_kinds (coached_how_experiment sha digest) x is_kind (of_sha, of_digest) v path =
      rw
        (
          is_kind,
          v.id,
          v.project_id,
          decode_array-array_of IsGitSha string decode_git_sha decode_git_sha-string x.node_shas _
              v.node_shas,
          v.has_two,
          v.unique_nodes,
          decode_array-array_of IsComparisonFinding comparison_finding_object
              decode_comparison_finding decode_comparison_finding-comparison_finding_object
              x.findings _ v.findings,
          check_findings_lem x.node_shas path 0 x.findings v.summarized,
          v.summary,
          v.recorded_at,
          of_sha,
          of_digest,
        )
        refl

  pub decode_comparison-comparison_object :
      (x : AlternativeComparison)
      → IsAlternativeComparison x
      → (path : String) → decode_comparison (unknown_of (comparison_object x)) path ≡ ok x
  decode_comparison-comparison_object x v path = decode_comparison_kinds x.kind x refl v.kind v path

  pub decode_alternative_decision-alternative_decision_object :
      (x : AlternativeDecision)
      → IsAlternativeDecision x
      → (path : String)
      → decode_alternative_decision (unknown_of (alternative_decision_object x)) path ≡ ok x
  unfolding unknown_of decode_alternative_decision alternative_decision_object decode_selection
      decode_rejection exact_record keys_of property sort_keys ◌==◌
  decode_alternative_decision-alternative_decision_object (selection x) v path =
      rw (v.id, v.project_id, v.comparison_id, v.selected_node_sha, v.rationale, v.decided_at) refl
  decode_alternative_decision-alternative_decision_object (rejection x) v path =
      rw
        (
          v.id,
          v.project_id,
          v.comparison_id,
          decode_array-array_of IsGitSha string decode_git_sha decode_git_sha-string
              x.rejected_node_shas _ v.rejected_node_shas,
          v.rationale,
          v.decided_at,
          v.has_nodes,
          v.unique_nodes,
        )
        refl
