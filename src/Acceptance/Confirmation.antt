-- ===== src/Acceptance/Confirmation.antt =====
-- Confirming a Coaching proposal in packages/core/src/engine.ts: the child Node's test after the
-- decision is recorded.
use hunsu.Base.{◌≡◌, false, arith, [], ◌∷◌, inl, inr, eq_of_==, ==_of_eq, ◌∙◌, some, Option-cases}
use hunsu.Lists.{any, find, push}
use hunsu.Lists.Laws.{find-append_none, any-find-none, find-holds}
use hunsu.Protocol.{
  ok, ProjectState, Digests, coaching_child, CoachingProposal, CoachingProposalId,
  ConfirmCoachingProposal, ConfirmedCoachingProposalDecision, confirmed, DomainActor,
}
use hunsu.Engine.Errors.{ProjectIntegrityBoundary}
use hunsu.Engine.Outcomes.{Outcome-cases}
use hunsu.Engine.Journal.{validate_decision_id}
use hunsu.Engine.Coaching.{
  is_proposal, is_disposition_of, find_open_coaching_proposal, find_confirmable_coaching_proposal,
  validate_coaching_child, validate_coaching_child_event, build_coaching_confirmation,
}
use hunsu.Acceptance.Frame.{find_node_frame, validate_new_node_frame}

-- An open proposal stands in the state under its id, and has no disposition.
pub find_open_coaching_proposal-eq-ok :
    (s : ProjectState) (id : CoachingProposalId) (actor : DomainActor) (proposal : CoachingProposal)
    → find_open_coaching_proposal s id actor ≡ ok proposal
    → (find (is_proposal id) s.coaching_proposals ≡ some proposal)
      × (any (is_disposition_of id) s.coaching_proposal_decisions ≡ false)
unfolding find_open_coaching_proposal
find_open_coaching_proposal-eq-ok s id actor proposal h =
    elim (Option-cases (find (is_proposal id) s.coaching_proposals)) [
      | inl missing ↦ ground arith
      | inr (p, found) ↦ ground arith
    ]

pub find_confirmable_coaching_proposal-eq-ok :
    (s : ProjectState) (id : CoachingProposalId) (actor : DomainActor) (proposal : CoachingProposal)
    → find_confirmable_coaching_proposal s id actor ≡ ok proposal
    → find_open_coaching_proposal s id actor ≡ ok proposal
unfolding find_confirmable_coaching_proposal
find_confirmable_coaching_proposal-eq-ok s id actor proposal h = ground arith

module _ ⦃digests : Digests⦄ (s : ProjectState) (c : ConfirmCoachingProposal)
    (integrity : ProjectIntegrityBoundary) where
  -- What the command checks, in one piece.
  pub record IsConfirmation (proposal : CoachingProposal)
      (decision : ConfirmedCoachingProposalDecision) : Type 0 where
    pub confirmable : find_confirmable_coaching_proposal s c.proposal_id c.meta.actor ≡ ok proposal
    pub new_decision : validate_decision_id s decision.id ≡ ok tt
    pub child :
        validate_coaching_child s proposal c.node c.payload c.meta.requested_at integrity ≡ ok tt
    pub same_proposal : decision.proposal_id ≡ c.proposal_id
    pub same_child : decision.child_node_sha ≡ c.node.commit_sha

  pub build_coaching_confirmation-eq-ok :
      (decision : ConfirmedCoachingProposalDecision)
      → build_coaching_confirmation s c integrity ≡ ok decision
      → (proposal : CoachingProposal) × IsConfirmation proposal decision
  unfolding build_coaching_confirmation
  build_coaching_confirmation-eq-ok decision h =
      elim (Outcome-cases (find_confirmable_coaching_proposal s c.proposal_id c.meta.actor)) [
        | inr (e, refused) ↦ absurd (ground arith)
        | inl (proposal, found) ↦ (proposal, ground arith)
      ]

  child-proposal_id :
      (proposal : CoachingProposal)
      → validate_coaching_child s proposal c.node c.payload c.meta.requested_at integrity ≡ ok tt
      → c.node.proposal_id ≡ proposal.id
  unfolding validate_coaching_child
  child-proposal_id proposal h = eq_of_== c.node.proposal_id proposal.id (ground arith)

  validate_coaching_child_frame :
      (t : ProjectState) (proposal : CoachingProposal)
      → t.nodes ≡ s.nodes
      → t.projects ≡ s.projects
      → validate_coaching_child t proposal c.node c.payload c.meta.requested_at integrity
        ≡ validate_coaching_child s proposal c.node c.payload c.meta.requested_at integrity
  unfolding validate_coaching_child
  validate_coaching_child_frame t proposal nodes projects = rw (
    find_node_frame s t nodes proposal.project_id proposal.source_node_sha,
    validate_new_node_frame s t nodes projects (coaching_child c.node) c.payload c.meta.requested_at
        integrity,
  )

  -- Once the decision is recorded, the child Node passes.
  pub validate_coaching_child_event-confirmed :
      (t : ProjectState) (proposal : CoachingProposal)
      (decision : ConfirmedCoachingProposalDecision)
      → t.nodes ≡ s.nodes
      → t.projects ≡ s.projects
      → t.coaching_proposals ≡ s.coaching_proposals
      → t.coaching_proposal_decisions ≡ push s.coaching_proposal_decisions (confirmed decision)
      → IsConfirmation proposal decision
      → validate_coaching_child_event t c.node c.payload c.meta.requested_at integrity ≡ ok tt
  unfolding validate_coaching_child_event
  validate_coaching_child_event-confirmed t proposal decision nodes projects proposals dispositions
        h =
      let opened =
        find_confirmable_coaching_proposal-eq-ok s c.proposal_id c.meta.actor proposal
          h.confirmable in
      let (found, undecided) =
        find_open_coaching_proposal-eq-ok s c.proposal_id c.meta.actor proposal opened in
      let own_id : proposal.id ≡ c.proposal_id =
        eq_of_== proposal.id c.proposal_id
          (find-holds (is_proposal c.proposal_id) s.coaching_proposals proposal found) in
      let same_id : c.node.proposal_id ≡ c.proposal_id =
        child-proposal_id proposal h.child ∙ own_id in
      let same_found : find (is_proposal c.node.proposal_id) t.coaching_proposals ≡ some proposal =
        rw (proposals, same_id) found in
      let decided : find (is_disposition_of c.node.proposal_id) t.coaching_proposal_decisions
          ≡ some (confirmed decision) =
        rw (
          dispositions,
          same_id,
          find-append_none (is_disposition_of c.proposal_id) s.coaching_proposal_decisions
              (confirmed decision ∷ [])
              (any-find-none (is_disposition_of c.proposal_id) s.coaching_proposal_decisions
                undecided),
          ==_of_eq decision.proposal_id c.proposal_id h.same_proposal,
        ) in
      rw (
        same_found,
        decided,
        ==_of_eq decision.child_node_sha c.node.commit_sha h.same_child,
        validate_coaching_child_frame t proposal nodes projects,
        h.child,
      )
