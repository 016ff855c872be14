-- ===== src/Codec/Alternatives.antt =====
-- packages/protocol/src/serialization.ts: decoders of comparisons and of the decisions on them.
use hunsu.Base.{
  ℕ, suc, String, Bool, ◌&&◌, not, ◌==◌, nat_eq, map, Option, none, some, List, [], ◌∷◌,
  if◌then◌else◌, ⊤,
}
use hunsu.Lists.{length, any, find, includes, all_unique}
use hunsu.Protocol.{
  ok, ◌>>=◌, ◌>>◌, FindingSummary, ComparisonFinding, ComparisonKind, sibling_runs,
  coached_how_experiment, AlternativeComparison, AlternativeDecision, selection, rejection,
}
use hunsu.Codec.Values.{Fields, Decoded, invalid, at, at_index, exact_record, decode_array}
use hunsu.Codec.Makers.{Dates}
use hunsu.Codec.Fields.{
  Decoder, at_key, require, require_some, require_two, decode_id, decode_text, decode_git_sha,
  decode_goal_digest, decode_timestamp,
}
use hunsu.Codec.Records.{has_tag}

unfoldable pub decode_finding_summary : Decoder FindingSummary
decode_finding_summary value path = do
  fields ← exact_record value path ("nodeSha" ∷ "summary" ∷ [])
  node_sha ← at_key decode_git_sha "nodeSha" fields path
  summary ← at_key decode_text "summary" fields path
  ok (record { node_sha = node_sha; summary = summary })

unfoldable pub decode_comparison_finding : Decoder ComparisonFinding
decode_comparison_finding value path = do
  fields ← exact_record value path ("subject" ∷ "summaries" ∷ [])
  subject ← at_key decode_text "subject" fields path
  items ← at_key (decode_array decode_finding_summary) "summaries" fields path
  summaries ← require_some items (at path "summaries")
  ok (record { subject = subject; summaries = summaries })

abbrev pub summary_shas : ComparisonFinding → List String
summary_shas finding = map (λ (item : FindingSummary). item.node_sha) finding.summaries

-- Every Node of the comparison has exactly one summary.
unfoldable pub summarizes_each : List String → ComparisonFinding → Bool
summarizes_each shas finding =
    nat_eq (length (summary_shas finding)) (length shas)
    && (all_unique (summary_shas finding)
        && not (any (λ (sha : String). not (includes (summary_shas finding) sha)) shas))

-- `${path}.findings[${index}].summaries`
abbrev pub summaries_path : String → ℕ → String
summaries_path path index = at (at_index (at path "findings") index) "summaries"

unfoldable pub check_findings : List String → String → ℕ → List ComparisonFinding → Decoded ⊤
check_findings shas path index [] = ok tt
check_findings shas path index (finding ∷ findings) =
    let rest = check_findings shas path (suc index) findings in
    require (summarizes_each shas finding) (summaries_path path index)
      "must summarize every included result Node exactly once"
    >> rest

-- The Nodes of a comparison: at least two, each once.
unfoldable pub decode_node_shas : Fields → String → Decoded (List String)
decode_node_shas fields path = do
  shas ← at_key (decode_array decode_git_sha) "nodeShas" fields path
  two ← require_two shas (at path "nodeShas")
  require (all_unique two) (at path "nodeShas") "comparison Node SHAs must be unique"
  ok two

-- `summariesByNode.get(nodeSha) ?? { nodeSha, summary }`
abbrev pub summary_or : String → String → Option FindingSummary → FindingSummary
summary_or summary sha (some item) = item
summary_or summary sha none = record { node_sha = sha; summary = summary }

-- The summary that a finding of the earlier version has for a Node, or the one of the comparison.
abbrev pub summary_for : String → ComparisonFinding → String → FindingSummary
summary_for summary finding sha =
    summary_or summary sha
      (find (λ (item : FindingSummary). item.node_sha == sha) finding.summaries)

abbrev pub is_partial_finding : List String → ComparisonFinding → Bool
is_partial_finding shas finding =
    all_unique (summary_shas finding)
    && not (any (λ (sha : String). not (includes shas sha)) (summary_shas finding))

unfoldable pub normalize_findings :
    List String → String → String → ℕ → List ComparisonFinding → Decoded (List ComparisonFinding)
normalize_findings shas summary path index [] = ok []
normalize_findings shas summary path index (finding ∷ findings) =
    let rest = normalize_findings shas summary path (suc index) findings in
    require (is_partial_finding shas finding) (summaries_path path index)
      "historical comparison summaries must be unique and belong to an included result Node"
    >> (require_some (map (summary_for summary finding) shas) (summaries_path path index)
        >>= λ summaries. rest >>= λ normalized.
            ok (record { subject = finding.subject; summaries = summaries } ∷ normalized))

module _ ⦃dates : Dates⦄ where
  -- The part of a comparison that the two kinds share, for the kind that is decoded last.
  unfoldable pub decode_comparison_fields :
      (Fields → String → Decoded ComparisonKind) → Fields → String → Decoded AlternativeComparison
  decode_comparison_fields decode_kind fields path = do
    id ← at_key (decode_id "comparisonId") "id" fields path
    project_id ← at_key (decode_id "projectId") "projectId" fields path
    node_shas ← decode_node_shas fields path
    findings ← at_key (decode_array decode_comparison_finding) "findings" fields path
    check_findings node_shas path 0 findings
    summary ← at_key decode_text "summary" fields path
    recorded_at ← at_key decode_timestamp "recordedAt" fields path
    kind ← decode_kind fields path
    ok (record {
      kind = kind;
      id = id;
      project_id = project_id;
      node_shas = node_shas;
      findings = findings;
      summary = summary;
      recorded_at = recorded_at;
    })

  unfoldable pub decode_sibling_runs : Decoder AlternativeComparison
  decode_sibling_runs value path = do
    fields ← exact_record value path (
        "type" ∷ "id" ∷ "projectId" ∷ "parentNodeSha" ∷ "nodeShas" ∷ "findings" ∷ "summary"
        ∷ "recordedAt" ∷ [])
    decode_comparison_fields
        (λ fields path.
          at_key decode_git_sha "parentNodeSha" fields path >>= λ sha. ok (sibling_runs sha))
        fields path

  unfoldable pub decode_coached_how_experiment : Decoder AlternativeComparison
  decode_coached_how_experiment value path = do
    fields ← exact_record value path (
        "type" ∷ "id" ∷ "projectId" ∷ "anchorNodeSha" ∷ "goalDigest" ∷ "nodeShas" ∷ "findings"
        ∷ "summary" ∷ "recordedAt" ∷ [])
    decode_comparison_fields
        (λ fields path. at_key decode_git_sha "anchorNodeSha" fields path >>= λ sha.
          at_key decode_goal_digest "goalDigest" fields path >>= λ digest.
          ok (coached_how_experiment sha digest))
        fields path

  unfoldable pub decode_comparison : Decoder AlternativeComparison
  decode_comparison value path =
      if has_tag "type" value "sibling_runs"
      then decode_sibling_runs value path
      else if has_tag "type" value "coached_how_experiment"
      then decode_coached_how_experiment value path
      else invalid (at path "type") "unsupported alternative comparison type"

  unfoldable pub decode_historical_v2_comparison : Decoder AlternativeComparison
  decode_historical_v2_comparison value path = do
    fields ← exact_record value path (
        "id" ∷ "projectId" ∷ "parentNodeSha" ∷ "nodeShas" ∷ "findings" ∷ "summary" ∷ "recordedAt"
        ∷ [])
    id ← at_key (decode_id "comparisonId") "id" fields path
    project_id ← at_key (decode_id "projectId") "projectId" fields path
    parent_node_sha ← at_key decode_git_sha "parentNodeSha" fields path
    node_shas ← decode_node_shas fields path
    findings ← at_key (decode_array decode_comparison_finding) "findings" fields path
    summary ← at_key decode_text "summary" fields path
    normalized ← normalize_findings node_shas summary path 0 findings
    recorded_at ← at_key decode_timestamp "recordedAt" fields path
    ok (record {
      kind = sibling_runs parent_node_sha;
      id = id;
      project_id = project_id;
      node_shas = node_shas;
      findings = normalized;
      summary = summary;
      recorded_at = recorded_at;
    })

  unfoldable pub decode_selection : Decoder AlternativeDecision
  decode_selection value path = do
    fields ← exact_record value path (
        "type" ∷ "id" ∷ "projectId" ∷ "comparisonId" ∷ "selectedNodeSha" ∷ "rationale" ∷ "decidedAt"
        ∷ [])
    id ← at_key (decode_id "decisionId") "id" fields path
    project_id ← at_key (decode_id "projectId") "projectId" fields path
    comparison_id ← at_key (decode_id "comparisonId") "comparisonId" fields path
    rationale ← at_key decode_text "rationale" fields path
    decided_at ← at_key decode_timestamp "decidedAt" fields path
    selected_node_sha ← at_key decode_git_sha "selectedNodeSha" fields path
    ok (
        selection (record {
          id = id;
          project_id = project_id;
          comparison_id = comparison_id;
          selected_node_sha = selected_node_sha;
          rationale = rationale;
          decided_at = decided_at;
        }))

  unfoldable pub decode_rejection : Decoder AlternativeDecision
  decode_rejection value path = do
    fields ← exact_record value path (
        "type" ∷ "id" ∷ "projectId" ∷ "comparisonId" ∷ "rejectedNodeShas" ∷ "rationale"
        ∷ "decidedAt" ∷ [])
    id ← at_key (decode_id "decisionId") "id" fields path
    project_id ← at_key (decode_id "projectId") "projectId" fields path
    comparison_id ← at_key (decode_id "comparisonId") "comparisonId" fields path
    rationale ← at_key decode_text "rationale" fields path
    decided_at ← at_key decode_timestamp "decidedAt" fields path
    shas ← at_key (decode_array decode_git_sha) "rejectedNodeShas" fields path
    rejected_node_shas ← require_some shas (at path "rejectedNodeShas")
    require (all_unique rejected_node_shas) (at path "rejectedNodeShas")
        "rejected Node SHAs must be unique"
    ok (
        rejection (record {
          id = id;
          project_id = project_id;
          comparison_id = comparison_id;
          rejected_node_shas = rejected_node_shas;
          rationale = rationale;
          decided_at = decided_at;
        }))

  unfoldable pub decode_alternative_decision : Decoder AlternativeDecision
  decode_alternative_decision value path =
      if has_tag "type" value "selection"
      then decode_selection value path
      else if has_tag "type" value "rejection"
      then decode_rejection value path
      else invalid path "unsupported alternative decision type"
