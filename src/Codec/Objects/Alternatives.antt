-- ===== src/Codec/Objects/Alternatives.antt =====
-- packages/protocol/src/model.ts: comparisons and the decisions on them as objects.
use hunsu.Base.{String, List, [], ◌∷◌, ◌++◌}
use hunsu.Protocol.{
  CanonicalJsonValue, FindingSummary, ComparisonFinding, ComparisonKind, sibling_runs,
  coached_how_experiment, AlternativeComparison, AlternativeDecision, selection, rejection,
}
use hunsu.Codec.Objects.{string, object_of, array_of}

unfoldable pub finding_summary_object : FindingSummary → CanonicalJsonValue
finding_summary_object x =
    object_of (("nodeSha", string x.node_sha) ∷ ("summary", string x.summary) ∷ [])

unfoldable pub comparison_finding_object : ComparisonFinding → CanonicalJsonValue
comparison_finding_object x = object_of (
    ("subject", string x.subject) ∷ ("summaries", array_of finding_summary_object x.summaries) ∷ [])

abbrev kind_entries : ComparisonKind → List (String × CanonicalJsonValue)
kind_entries (sibling_runs sha) =
    ("type", string "sibling_runs") ∷ ("parentNodeSha", string sha) ∷ []
kind_entries (coached_how_experiment sha digest) =
    ("type", string "coached_how_experiment")
    ∷ ("anchorNodeSha", string sha)
    ∷ ("goalDigest", string digest)
    ∷ []

unfoldable pub comparison_object : AlternativeComparison → CanonicalJsonValue
comparison_object x = object_of (
    kind_entries x.kind
    ++ ("id", string x.id)
      ∷ ("projectId", string x.project_id)
      ∷ ("nodeShas", array_of string x.node_shas)
      ∷ ("findings", array_of comparison_finding_object x.findings)
      ∷ ("summary", string x.summary)
      ∷ ("recordedAt", string x.recorded_at)
      ∷ [])

unfoldable pub alternative_decision_object : AlternativeDecision → CanonicalJsonValue
alternative_decision_object (selection x) = object_of (
    ("type", string "selection")
    ∷ ("id", string x.id)
    ∷ ("projectId", string x.project_id)
    ∷ ("comparisonId", string x.comparison_id)
    ∷ ("selectedNodeSha", string x.selected_node_sha)
    ∷ ("rationale", string x.rationale)
    ∷ ("decidedAt", string x.decided_at)
    ∷ [])
alternative_decision_object (rejection x) = object_of (
    ("type", string "rejection")
    ∷ ("id", string x.id)
    ∷ ("projectId", string x.project_id)
    ∷ ("comparisonId", string x.comparison_id)
    ∷ ("rejectedNodeShas", array_of string x.rejected_node_shas)
    ∷ ("rationale", string x.rationale)
    ∷ ("decidedAt", string x.decided_at)
    ∷ [])
