-- ===== src/Acceptance/Pairs.antt =====
-- The three commands with two events in packages/core/src/engine.ts, `CreateProject`, `CompleteRun` and
-- `ConfirmCoachingProposal`: the test of the second event at the state after the first.
use hunsu.Base.{◌≡◌, refl, false, ⊤, arith, List, [], ◌∷◌, inl, inr}
use hunsu.Lists.{any, push}
use hunsu.Protocol.{
  ok, ProjectState, Digests, ProjectCommand, create_project, complete_run,
  confirm_coaching_proposal, project_created, root_node_registered, run_completed,
  run_child_node_registered, coaching_proposal_confirmed, coaching_child_node_registered, confirmed,
  ConfirmedCoachingProposalDecision, DomainEvent, CreateProject, CompleteRun,
  ConfirmCoachingProposal, run_child,
}
use hunsu.Engine.Errors.{ProjectIntegrityBoundary}
use hunsu.Engine.Outcomes.{Outcome-cases}
use hunsu.Engine.Lookup.{replace_run}
use hunsu.Engine.Journal.{validate_additional_event_id, event_metadata, event_metadata_at, finish}
use hunsu.Engine.Projects.{validate_project_creation}
use hunsu.Engine.Runs.{validate_run_completion}
use hunsu.Engine.Coaching.{build_coaching_confirmation, find_confirmable_coaching_proposal}
use hunsu.Engine.Apply.{apply_event_body, add_project, add_node, as_complete}
use hunsu.Engine.Decide.{decide_events}
use hunsu.Acceptance.Identity.{
  IsFresh, validate_event_identity_of_IsFresh, validate_event_identity-finish,
}
use hunsu.Acceptance.Chain.{Applies, apply_two, admit_total}
use hunsu.Acceptance.Completion.{
  validate_run_completion-eq-ok, validate_run_child_node-completed, find_completed_run-completed,
}
use hunsu.Acceptance.Creation.{in_project, validate_project_creation-eq-ok, apply_root_node-created}
use hunsu.Acceptance.Confirmation.{
  build_coaching_confirmation-eq-ok, validate_coaching_child_event-confirmed,
}

-- What the decision on a `CreateProject` does not look at: the time that the root Node carries, and
-- Nodes under the id of the new Project.
abbrev pub IsReady : ProjectState → ProjectCommand → Type 0
IsReady s (create_project c) =
    (c.root_node.registered_at ≡ c.meta.requested_at) × (any (in_project c.project) s.nodes ≡ false)
IsReady s _ = ⊤

module _ ⦃digests : Digests⦄ (s : ProjectState) (integrity : ProjectIntegrityBoundary) where
  pub creation_events :
      (c : CreateProject) (events : List DomainEvent)
      → decide_events s (create_project c) integrity ≡ ok events
      → (validate_project_creation s c.project c.root_node c.payload c.meta.actor integrity ≡ ok tt)
        × (validate_additional_event_id s c.meta.event_id c.root_node_event_id ≡ ok tt)
        × (project_created (event_metadata c.meta) c.project
              ∷ root_node_registered
                  (event_metadata_at c.meta c.root_node_event_id)
                  c.root_node
                  c.payload
              ∷ []
            ≡ events)
  unfolding decide_events
  creation_events c events h = ground arith

  pub creation :
      (c : CreateProject) (events : List DomainEvent)
      → IsFresh s c.meta
      → IsReady s (create_project c)
      → decide_events s (create_project c) integrity ≡ ok events
      → Applies integrity s events
  unfolding apply_event_body finish
  creation c events fresh (same_time, unused) h =
      let (valid, extra, emitted) = creation_events c events h in
      let checked =
        validate_project_creation-eq-ok s c.project c.root_node c.payload integrity c.meta.actor
          valid in
      let meta = event_metadata c.meta in
      let t = finish (add_project s c.project) meta in
      rw (← emitted) (
        apply_two integrity s t _ _ _ (validate_event_identity_of_IsFresh s c.meta fresh)
          (admit_total _ _ checked.event)
          (validate_event_identity-finish s (add_project s c.project) c.meta c.root_node_event_id
            fresh refl extra)
          (apply_root_node-created s c.project c.root_node c.payload integrity t refl refl unused
            checked (event_metadata_at c.meta c.root_node_event_id) refl same_time))

  pub completion_events :
      (c : CompleteRun) (events : List DomainEvent)
      → decide_events s (complete_run c) integrity ≡ ok events
      → (validate_run_completion s c.result c.node c.payload c.meta.requested_at integrity ≡ ok tt)
        × (validate_additional_event_id s c.meta.event_id c.node_event_id ≡ ok tt)
        × (run_completed (event_metadata c.meta) c.result
              ∷ run_child_node_registered
                  (event_metadata_at c.meta c.node_event_id)
                  c.node
                  c.payload
              ∷ []
            ≡ events)
  unfolding decide_events
  completion_events c events h = ground arith

  pub completion :
      (c : CompleteRun) (events : List DomainEvent)
      → IsFresh s c.meta
      → decide_events s (complete_run c) integrity ≡ ok events
      → Applies integrity s events
  unfolding apply_event_body finish
  completion c events fresh h =
      let (valid, extra, emitted) = completion_events c events h in
      let (run, checked) =
        validate_run_completion-eq-ok s c.result c.node c.payload c.meta.requested_at integrity
          valid in
      let meta = event_metadata c.meta in
      let done = record s {
        runs = replace_run s.runs c.result.run_id (as_complete c.result meta);
      } in
      rw (← emitted) (
        apply_two integrity s (finish done meta)
          (finish (add_node (finish done meta) (run_child c.node))
            (event_metadata_at c.meta c.node_event_id))
          _ _ (validate_event_identity_of_IsFresh s c.meta fresh)
          (admit_total _ _ checked.verified_result)
          (validate_event_identity-finish s done c.meta c.node_event_id fresh refl extra)
          (rw (
            find_completed_run-completed s c.result run c.node c.payload c.meta.requested_at
                integrity meta checked,
            validate_run_child_node-completed s c.result run c.node c.payload c.meta.requested_at
                integrity (finish done meta) meta refl refl checked,
          )))

  pub confirmation_events :
      (c : ConfirmCoachingProposal) (events : List DomainEvent)
      → decide_events s (confirm_coaching_proposal c) integrity ≡ ok events
      → (decision : ConfirmedCoachingProposalDecision) × (build_coaching_confirmation s c integrity
          ≡ ok decision)
        × (validate_additional_event_id s c.meta.event_id c.node_event_id ≡ ok tt)
        × (coaching_proposal_confirmed (event_metadata c.meta) decision
              ∷ coaching_child_node_registered
                  (event_metadata_at c.meta c.node_event_id)
                  c.node
                  c.payload
              ∷ []
            ≡ events)
  unfolding decide_events
  confirmation_events c events h =
      elim (Outcome-cases (build_coaching_confirmation s c integrity)) [
        | inr (e, refused) ↦ absurd (ground arith)
        | inl (decision, built) ↦ (decision, built, ground arith, ground arith)
      ]

  pub confirmation :
      (c : ConfirmCoachingProposal) (events : List DomainEvent)
      → IsFresh s c.meta
      → decide_events s (confirm_coaching_proposal c) integrity ≡ ok events
      → Applies integrity s events
  unfolding apply_event_body finish
  confirmation c events fresh h =
      let (decision, built, extra, emitted) = confirmation_events c events h in
      let (proposal, checked) = build_coaching_confirmation-eq-ok s c integrity decision built in
      let meta = event_metadata c.meta in
      let confirmable : find_confirmable_coaching_proposal s decision.proposal_id c.meta.actor
          ≡ ok proposal =
        rw checked.same_proposal checked.confirmable in
      let done = record s {
        coaching_proposal_decisions = push s.coaching_proposal_decisions (confirmed decision);
      } in
      rw (← emitted) (
        apply_two integrity s (finish done meta) _ _ _
          (validate_event_identity_of_IsFresh s c.meta fresh)
          (rw (confirmable, checked.new_decision))
          (validate_event_identity-finish s done c.meta c.node_event_id fresh refl extra)
          (admit_total _ _ (
            validate_coaching_child_event-confirmed s c integrity (finish done meta) proposal
              decision refl refl refl refl checked)))
