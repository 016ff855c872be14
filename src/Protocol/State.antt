-- ===== src/Protocol/State.antt =====
-- packages/protocol/src/model.ts: the state that events build.
use hunsu.Base.{List}
use hunsu.Protocol.Primitives.{IdempotencyKey, CommandFingerprint, EventId}
use hunsu.Protocol.Plans.{Project}
use hunsu.Protocol.Nodes.{Node}
use hunsu.Protocol.Runs.{Run, EvidenceRef}
use hunsu.Protocol.Coaching.{CoachReview, CoachingProposal, CoachingProposalDecision}
use hunsu.Protocol.Alternatives.{AlternativeComparison, AlternativeDecision}

pub record ProcessedCommand : Type 0 where
  pub idempotency_key : IdempotencyKey
  pub fingerprint : CommandFingerprint
  pub event_ids : List EventId

pub record ProjectState : Type 0 where
  pub projects : List Project
  pub nodes : List Node
  pub runs : List Run
  pub evidence : List EvidenceRef
  pub coach_reviews : List CoachReview
  pub coaching_proposals : List CoachingProposal
  pub coaching_proposal_decisions : List CoachingProposalDecision
  pub comparisons : List AlternativeComparison
  pub decisions : List AlternativeDecision
  pub processed_commands : List ProcessedCommand
