-- ===== src/Codec/Valid/Alternatives.antt =====
-- packages/protocol/src/serialization.ts: well-formed comparisons and decisions on them.
use hunsu.Base.{◌≡◌, true, false}
use hunsu.Lists.{All, length, is_empty, all_unique}
use hunsu.Text.{leb}
use hunsu.Protocol.{
  FindingSummary, ComparisonFinding, ComparisonKind, sibling_runs, coached_how_experiment,
  AlternativeComparison, SelectionDecision, RejectionDecision, AlternativeDecision, selection,
  rejection,
}
use hunsu.Codec.Makers.{
  Dates, is_identifier, is_timestamp, is_git_sha, is_prefixed_digest, goal_prefix,
}
use hunsu.Codec.Alternatives.{summarizes_each}
use hunsu.Codec.Valid.{IsFilled, IsGitSha}

pub record IsFindingSummary (x : FindingSummary) : Type 0 where
  pub node_sha : is_git_sha x.node_sha ≡ true
  pub summary : IsFilled x.summary

pub record IsComparisonFinding (x : ComparisonFinding) : Type 0 where
  pub subject : IsFilled x.subject
  pub summaries : All IsFindingSummary x.summaries
  pub has_summaries : is_empty x.summaries ≡ false

abbrev pub IsComparisonKind : ComparisonKind → Type 0
IsComparisonKind (sibling_runs sha) = IsGitSha sha
IsComparisonKind (coached_how_experiment sha digest) =
    IsGitSha sha × (is_prefixed_digest goal_prefix digest ≡ true)

pub record IsAlternativeComparison ⦃dates : Dates⦄ (x : AlternativeComparison) : Type 0 where
  pub id : is_identifier x.id ≡ true
  pub project_id : is_identifier x.project_id ≡ true
  pub node_shas : All IsGitSha x.node_shas
  pub findings : All IsComparisonFinding x.findings
  pub summary : IsFilled x.summary
  pub recorded_at : is_timestamp x.recorded_at ≡ true
  pub kind : IsComparisonKind x.kind
  pub has_two : leb 2 (length x.node_shas) ≡ true
  pub unique_nodes : all_unique x.node_shas ≡ true
  pub summarized : All (λ (f : ComparisonFinding). summarizes_each x.node_shas f ≡ true) x.findings

pub record IsSelectionDecision ⦃dates : Dates⦄ (x : SelectionDecision) : Type 0 where
  pub id : is_identifier x.id ≡ true
  pub project_id : is_identifier x.project_id ≡ true
  pub comparison_id : is_identifier x.comparison_id ≡ true
  pub selected_node_sha : is_git_sha x.selected_node_sha ≡ true
  pub rationale : IsFilled x.rationale
  pub decided_at : is_timestamp x.decided_at ≡ true

pub record IsRejectionDecision ⦃dates : Dates⦄ (x : RejectionDecision) : Type 0 where
  pub id : is_identifier x.id ≡ true
  pub project_id : is_identifier x.project_id ≡ true
  pub comparison_id : is_identifier x.comparison_id ≡ true
  pub rejected_node_shas : All IsGitSha x.rejected_node_shas
  pub rationale : IsFilled x.rationale
  pub decided_at : is_timestamp x.decided_at ≡ true
  pub has_nodes : is_empty x.rejected_node_shas ≡ false
  pub unique_nodes : all_unique x.rejected_node_shas ≡ true

module _ ⦃dates : Dates⦄ where
  abbrev pub IsAlternativeDecision : AlternativeDecision → Type 0
  IsAlternativeDecision (selection d) = IsSelectionDecision d
  IsAlternativeDecision (rejection d) = IsRejectionDecision d
