-- ===== src/Invariant/Passing.antt =====
-- What the tests for duplicates in packages/core/src/engine.ts say of a new item.
use hunsu.Base.{◌≡◌, arith, false, ◌==◌, inl, inr}
use hunsu.Lists.{any}
use hunsu.Protocol.{
  ok, Digests, ProjectState, RunningRun, Project, EvidenceRef, CoachReview, CoachingProposal,
  AlternativeComparison, disposition_id, decision_id, DomainActor, CoachingProposalId, DecisionId,
  SelectionDecision, RejectionDecision,
}
use hunsu.Engine.Outcomes.{Outcome-cases}
use hunsu.Engine.Lookup.{is_project, is_run}
use hunsu.Engine.Journal.{validate_decision_id}
use hunsu.Engine.Projects.{validate_project_event}
use hunsu.Engine.Runs.{validate_running_run_event, validate_evidence}
use hunsu.Engine.Coaching.{
  validate_coach_review, validate_coaching_proposal, is_proposal, find_open_coaching_proposal,
  find_confirmable_coaching_proposal, is_disposition_of,
}
use hunsu.Engine.Comparisons.{validate_comparison}
use hunsu.Engine.Decisions.{validate_selection_decision, validate_rejection_decision}
use hunsu.Engine.Coaching.{is_comparison}

module _ (s : ProjectState) where
  pub new_disposition_id :
      (id : DecisionId)
      → validate_decision_id s id ≡ ok tt
      → (any (λ d. disposition_id d == id) s.coaching_proposal_decisions ≡ false)
        × (any (λ d. decision_id d == id) s.decisions ≡ false)
  unfolding validate_decision_id
  new_disposition_id id h = ground arith

  pub undisposed :
      (id : CoachingProposalId) (actor : DomainActor) (proposal : CoachingProposal)
      → find_open_coaching_proposal s id actor ≡ ok proposal
      → any (is_disposition_of id) s.coaching_proposal_decisions ≡ false
  unfolding find_open_coaching_proposal
  undisposed id actor proposal h = ground arith

  pub undisposed_confirmable :
      (id : CoachingProposalId) (actor : DomainActor) (proposal : CoachingProposal)
      → find_confirmable_coaching_proposal s id actor ≡ ok proposal
      → any (is_disposition_of id) s.coaching_proposal_decisions ≡ false
  unfolding find_confirmable_coaching_proposal
  undisposed_confirmable id actor proposal h =
      elim (Outcome-cases (find_open_coaching_proposal s id actor)) [
        | inr (e, refused) ↦ absurd (ground arith)
        | inl (found, is_open) ↦ undisposed id actor found is_open
      ]

  pub new_selection :
      (d : SelectionDecision) (actor : DomainActor)
      → validate_selection_decision s d actor ≡ ok tt
      → validate_decision_id s d.id ≡ ok tt
  unfolding validate_selection_decision
  new_selection d actor h = ground arith

  pub new_rejection :
      (d : RejectionDecision) (actor : DomainActor)
      → validate_rejection_decision s d actor ≡ ok tt
      → validate_decision_id s d.id ≡ ok tt
  unfolding validate_rejection_decision
  new_rejection d actor h = ground arith

  pub new_project :
      (p : Project) (actor : DomainActor)
      → validate_project_event s p actor ≡ ok tt
      → any (is_project p.id) s.projects ≡ false
  unfolding validate_project_event
  new_project p actor h = ground arith

  pub new_evidence :
      (x : EvidenceRef)
      → validate_evidence s x ≡ ok tt
      → any (λ (y : EvidenceRef). y.id == x.id) s.evidence ≡ false
  unfolding validate_evidence
  new_evidence x h = ground arith

  pub new_review :
      (r : CoachReview) (actor : DomainActor)
      → validate_coach_review s r actor ≡ ok tt
      → any (λ (y : CoachReview). y.id == r.id) s.coach_reviews ≡ false
  unfolding validate_coach_review
  new_review r actor h = ground arith

module _ ⦃digests : Digests⦄ (s : ProjectState) where
  pub new_run :
      (r : RunningRun) → validate_running_run_event s r ≡ ok tt → any (is_run r.id) s.runs ≡ false
  unfolding validate_running_run_event
  new_run r h = ground arith

  pub new_proposal :
      (p : CoachingProposal) (actor : DomainActor)
      → validate_coaching_proposal s p actor ≡ ok tt
      → any (is_proposal p.id) s.coaching_proposals ≡ false
  unfolding validate_coaching_proposal
  new_proposal p actor h = ground arith

  pub new_comparison :
      (c : AlternativeComparison)
      → validate_comparison s c ≡ ok tt
      → any (is_comparison c.id) s.comparisons ≡ false
  unfolding validate_comparison
  new_comparison c h = ground arith
