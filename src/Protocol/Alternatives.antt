-- ===== src/Protocol/Alternatives.antt =====
-- packages/protocol/src/model.ts: comparisons of alternatives and the decisions on them.
use hunsu.Base.{List}
use hunsu.Protocol.Primitives.{
  ProjectId, GitCommitSha, NonEmptyText, IsoTimestamp, ComparisonId, GoalDigest, EvidenceSummary,
  Reason, DecisionId,
}

pub record FindingSummary : Type 0 where
  pub node_sha : GitCommitSha
  pub summary : EvidenceSummary

pub record ComparisonFinding : Type 0 where
  pub subject : NonEmptyText
  pub summaries : List FindingSummary

-- The tag `type` with the fields that only one kind of comparison has.
pub data ComparisonKind : Type 0 where
  sibling_runs : (parent_node_sha : GitCommitSha) → ComparisonKind
  coached_how_experiment :
      (anchor_node_sha : GitCommitSha) (goal_digest : GoalDigest) → ComparisonKind

pub record AlternativeComparison : Type 0 where
  pub kind : ComparisonKind
  pub id : ComparisonId
  pub project_id : ProjectId
  pub node_shas : List GitCommitSha
  pub findings : List ComparisonFinding
  pub summary : EvidenceSummary
  pub recorded_at : IsoTimestamp

pub record SelectionDecision : Type 0 where
  pub id : DecisionId
  pub project_id : ProjectId
  pub comparison_id : ComparisonId
  pub selected_node_sha : GitCommitSha
  pub rationale : Reason
  pub decided_at : IsoTimestamp

pub record RejectionDecision : Type 0 where
  pub id : DecisionId
  pub project_id : ProjectId
  pub comparison_id : ComparisonId
  pub rejected_node_shas : List GitCommitSha
  pub rationale : Reason
  pub decided_at : IsoTimestamp

pub data AlternativeDecision : Type 0 where
  selection : SelectionDecision → AlternativeDecision
  rejection : RejectionDecision → AlternativeDecision

abbrev pub decision_id : AlternativeDecision → DecisionId
decision_id (selection d) = d.id
decision_id (rejection d) = d.id
