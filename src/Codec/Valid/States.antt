-- ===== src/Codec/Valid/States.antt =====
-- packages/protocol/src/serialization.ts: well-formed states.
use hunsu.Lists.{All}
use hunsu.Protocol.{Digests, ProjectState}
use hunsu.Codec.Makers.{Dates}
use hunsu.Codec.Plans.{RunnerValueTypeRegistry}
use hunsu.Codec.Valid.Records.{IsProject, IsProcessedCommand}
use hunsu.Codec.Valid.Nodes.{IsNode}
use hunsu.Codec.Valid.Runs.{IsEvidenceRef, IsRun}
use hunsu.Codec.Valid.Coaching.{IsCoachReview, IsCoachingProposal, IsCoachingProposalDecision}
use hunsu.Codec.Valid.Alternatives.{IsAlternativeComparison, IsAlternativeDecision}

pub record IsProjectState ⦃dates : Dates⦄ ⦃digests : Digests⦄
    (runner_types : RunnerValueTypeRegistry) (x : ProjectState) : Type 0 where
  pub projects : All IsProject x.projects
  pub nodes : All (IsNode runner_types) x.nodes
  pub runs : All (IsRun runner_types) x.runs
  pub evidence : All IsEvidenceRef x.evidence
  pub coach_reviews : All IsCoachReview x.coach_reviews
  pub coaching_proposals : All (IsCoachingProposal runner_types) x.coaching_proposals
  pub coaching_proposal_decisions : All IsCoachingProposalDecision x.coaching_proposal_decisions
  pub comparisons : All IsAlternativeComparison x.comparisons
  pub decisions : All IsAlternativeDecision x.decisions
  pub processed_commands : All IsProcessedCommand x.processed_commands
