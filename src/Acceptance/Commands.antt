-- ===== src/Acceptance/Commands.antt =====
-- Every command of packages/core/src/engine.ts: `decideProjectCommand` beside `applyProjectCommand`.
use hunsu.Base.{◌≡◌, refl, false, arith, List, [], ◌∷◌, inl, inr, none, Option-cases}
use hunsu.Lists.{any, find, push}
use hunsu.Protocol.{
  ok, ProjectState, Digests, ProjectCommand, create_project, start_run,
  rebuild_project_materializations, checkpoint_run, attach_run_evidence, complete_run, fail_run,
  cancel_run, record_coach_review, record_coaching_proposal, confirm_coaching_proposal,
  reject_coaching_proposal, compare_alternatives, select_alternative, reject_alternatives,
  command_meta, DomainEvent, event_meta, RejectCoachingProposal, SelectAlternative,
  RejectAlternatives, CommandMetadata, coaching_proposal_rejected, RejectedCoachingProposalDecision,
  rejected, SelectionDecision, RejectionDecision, CoachingProposal,
}
use hunsu.Engine.Errors.{Outcome, when_ok, ProjectIntegrityBoundary}
use hunsu.Engine.Outcomes.{when_ok-eq-ok}
use hunsu.Engine.Lookup.{find_running_run}
use hunsu.Engine.Journal.{accepted, has_event, has_key, decide_retry, event_metadata, finish}
use hunsu.Engine.Projects.{validate_project_rebuild}
use hunsu.Engine.Runs.{build_running_run, validate_checkpoint, validate_evidence}
use hunsu.Engine.Coaching.{
  validate_coach_review, validate_coaching_proposal, validate_coaching_proposal_command,
  build_coaching_rejection,
}
use hunsu.Engine.Comparisons.{build_comparison}
use hunsu.Engine.Decisions.{
  build_selection, build_rejection, validate_selection_decision, validate_rejection_decision,
}
use hunsu.Engine.Apply.{apply_event_body}
use hunsu.Engine.Decide.{decide_events, decide_project_command, apply_project_command}
use hunsu.Acceptance.Identity.{IsFresh, validate_event_identity_of_IsFresh}
use hunsu.Acceptance.Chain.{Applies, apply_one, admit_total}
use hunsu.Acceptance.RunStart.{validate_running_run_event-build_running_run}
use hunsu.Acceptance.Comparing.{validate_comparison-build_comparison}
use hunsu.Acceptance.Pairs.{IsReady, creation, completion, confirmation}

module _ ⦃digests : Digests⦄ (s : ProjectState) (integrity : ProjectIntegrityBoundary) where
  -- A command with one event: its event passes the test that the command has passed.
  one_event {ℓ} :
      {A : Type ℓ} (meta : CommandMetadata) (tested : Outcome A) (event : A → DomainEvent)
      (events : List DomainEvent)
      → IsFresh s meta
      → ((a : A) → event_meta (event a) ≡ event_metadata meta)
      → ((a : A)
          → tested ≡ ok a
          → (t : ProjectState) × (apply_event_body s (event a) integrity ≡ ok t))
      → when_ok tested (λ a. event a ∷ []) ≡ ok events
      → Applies integrity s events
  one_event meta tested event events fresh same_meta body h =
      let (a, passed, emitted) = when_ok-eq-ok tested (λ a. event a ∷ []) h in
      let (t, applied) = body a passed in
      rw (← emitted) (
        apply_one integrity s t (event a)
          (rw (same_meta a) (validate_event_identity_of_IsFresh s meta fresh)) applied)

  rejection_body :
      (c : RejectCoachingProposal) (decision : RejectedCoachingProposalDecision)
      → build_coaching_rejection s c ≡ ok decision
      → (t : ProjectState) × (apply_event_body s
            (coaching_proposal_rejected (event_metadata c.meta) decision)
            integrity
          ≡ ok t)
  unfolding build_coaching_rejection apply_event_body
  rejection_body c decision h = (
    finish
        (record s {
          coaching_proposal_decisions = push s.coaching_proposal_decisions (rejected decision);
        })
        (event_metadata c.meta),
    ground arith,
  )

  selection_body :
      (c : SelectAlternative) (decision : SelectionDecision)
      → build_selection s c ≡ ok decision
      → validate_selection_decision s decision c.meta.actor ≡ ok tt
  unfolding build_selection
  selection_body c decision h = ground arith

  alternatives_rejection_body :
      (c : RejectAlternatives) (decision : RejectionDecision)
      → build_rejection s c ≡ ok decision
      → validate_rejection_decision s decision c.meta.actor ≡ ok tt
  unfolding build_rejection
  alternatives_rejection_body c decision h = ground arith

  proposal_body :
      (meta : CommandMetadata) (proposal : CoachingProposal)
      → validate_coaching_proposal_command s proposal meta ≡ ok tt
      → validate_coaching_proposal s proposal meta.actor ≡ ok tt
  unfolding validate_coaching_proposal_command
  proposal_body meta proposal h = ground arith

  -- Every command, by the test that it has to pass.
  decide_events-Applies :
      (c : ProjectCommand) (events : List DomainEvent)
      → IsFresh s (command_meta c)
      → IsReady s c
      → decide_events s c integrity ≡ ok events
      → Applies integrity s events
  unfolding decide_events apply_event_body
  decide_events-Applies (create_project c) events fresh ready h =
      creation s integrity c events fresh ready h
  decide_events-Applies (rebuild_project_materializations meta id) events fresh ready h =
      one_event meta (validate_project_rebuild s id meta.actor) _ events fresh (λ _. refl)
        (λ _ passed. (_, admit_total _ _ passed)) h
  decide_events-Applies (start_run c) events fresh ready h =
      one_event c.meta (build_running_run s c) _ events fresh (λ _. refl)
        (λ run built.
          (_, admit_total _ _ (validate_running_run_event-build_running_run s c run built)))
        h
  decide_events-Applies (checkpoint_run meta checkpoint) events fresh ready h =
      one_event meta (validate_checkpoint s checkpoint) _ events fresh (λ _. refl)
        (λ _ passed. (_, admit_total _ _ passed)) h
  decide_events-Applies (attach_run_evidence meta evidence) events fresh ready h =
      one_event meta (validate_evidence s evidence) _ events fresh (λ _. refl)
        (λ _ passed. (_, admit_total _ _ passed)) h
  decide_events-Applies (complete_run c) events fresh ready h =
      completion s integrity c events fresh h
  decide_events-Applies (fail_run meta id reason) events fresh ready h =
      one_event meta (find_running_run s id) _ events fresh (λ _. refl)
        (λ _ passed. (_, admit_total _ _ passed)) h
  decide_events-Applies (cancel_run meta id reason) events fresh ready h =
      one_event meta (find_running_run s id) _ events fresh (λ _. refl)
        (λ _ passed. (_, admit_total _ _ passed)) h
  decide_events-Applies (record_coach_review meta review) events fresh ready h =
      one_event meta (validate_coach_review s review meta.actor) _ events fresh (λ _. refl)
        (λ _ passed. (_, admit_total _ _ passed)) h
  decide_events-Applies (record_coaching_proposal meta proposal) events fresh ready h =
      one_event meta (validate_coaching_proposal_command s proposal meta) _ events fresh (λ _. refl)
        (λ _ passed. (_, admit_total _ _ (proposal_body meta proposal passed))) h
  decide_events-Applies (confirm_coaching_proposal c) events fresh ready h =
      confirmation s integrity c events fresh h
  decide_events-Applies (reject_coaching_proposal c) events fresh ready h =
      one_event c.meta (build_coaching_rejection s c) _ events fresh (λ _. refl) (rejection_body c)
        h
  decide_events-Applies (compare_alternatives c) events fresh ready h =
      one_event c.meta (build_comparison s c) _ events fresh (λ _. refl)
        (λ comparison built.
          (_, admit_total _ _ (validate_comparison-build_comparison s c comparison built)))
        h
  decide_events-Applies (select_alternative c) events fresh ready h =
      one_event c.meta (build_selection s c) _ events fresh (λ _. refl)
        (λ decision built. (_, admit_total _ _ (selection_body c decision built))) h
  decide_events-Applies (reject_alternatives c) events fresh ready h =
      one_event c.meta (build_rejection s c) _ events fresh (λ _. refl)
        (λ decision built. (_, admit_total _ _ (alternatives_rejection_body c decision built))) h

  -- A decision that accepts has found no processed command under the key.
  pub accepted_decision :
      (c : ProjectCommand) (events : List DomainEvent)
      → decide_project_command s c integrity ≡ ok (accepted events)
      → (find (has_key (command_meta c).idempotency_key) s.processed_commands ≡ none)
        × (decide_events s c integrity ≡ ok events)
  unfolding decide_project_command decide_retry
  accepted_decision c events h =
      elim (Option-cases (find (has_key (command_meta c).idempotency_key) s.processed_commands)) [
        | inl new ↦ ground arith
        | inr (processed, found) ↦ absurd (ground arith)
      ]

  -- If the decision accepts a command whose event id is new, then all its events are applied: the
  -- command ends in a state, with exactly those events. For `CreateProject` the root Node has to
  -- carry the time of the command, and no Node may stand under the new Project's id already.
  pub apply_project_command-accepted :
      (c : ProjectCommand) (events : List DomainEvent)
      → any (has_event (command_meta c).event_id) s.processed_commands ≡ false
      → IsReady s c
      → decide_project_command s c integrity ≡ ok (accepted events)
      → (t : ProjectState) × (apply_project_command s c integrity
          ≡ ok (record { state = t; emitted_events = events; reused_event_ids = [] }))
  unfolding apply_project_command
  apply_project_command-accepted c events new_event ready h =
      let (new_key, decided) = accepted_decision c events h in
      let (t, applied) =
        decide_events-Applies c events (record { new_key = new_key; new_event = new_event }) ready
          decided in
      (t, rw (h, applied))
