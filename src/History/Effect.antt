-- ===== src/History/Effect.antt =====
-- The effect of an event, apart from the tests that `applyDomainEvent` of
-- packages/core/src/engine.ts makes first.
use hunsu.Base.{◌≡◌, arith, sym}
use hunsu.Lists.{push}
use hunsu.Protocol.{
  ok, Digests, ProjectState, DomainEvent, project_created, project_materializations_rebuilt,
  root_node_registered, run_started, run_checkpointed, run_evidence_attached, run_completed,
  run_child_node_registered, run_failed, run_canceled, coach_review_recorded,
  coaching_proposal_recorded, coaching_proposal_confirmed, coaching_child_node_registered,
  coaching_proposal_rejected, alternatives_compared, alternative_selected, alternatives_rejected,
  event_meta, root, run_child, coaching_child, running, confirmed, rejected, selection, rejection,
}
use hunsu.Engine.Errors.{ProjectIntegrityBoundary, Outcome, admit}
use hunsu.Engine.Outcomes.{admit-eq-ok, >>-eq-ok}
use hunsu.Engine.Lookup.{replace_run}
use hunsu.Engine.Journal.{finish, validate_event_identity}
use hunsu.Engine.Apply.{
  with_checkpoint, with_evidence, as_complete, as_failed, as_canceled, add_project, add_node,
  apply_event_body, apply_domain_event,
}

-- One list of the state grows by one item, or one running Run is replaced.
abbrev pub effect : ProjectState → DomainEvent → ProjectState
effect s (project_created meta project) = add_project s project
effect s (project_materializations_rebuilt meta id) = s
effect s (root_node_registered meta node payload) = add_node s (root node)
effect s (run_started meta run) = record s { runs = push s.runs (running run) }
effect s (run_checkpointed meta checkpoint) = record s {
  runs = replace_run s.runs checkpoint.run_id (with_checkpoint checkpoint);
}
effect s (run_evidence_attached meta evidence) = record s {
  evidence = push s.evidence evidence;
  runs = replace_run s.runs evidence.run_id (with_evidence evidence);
}
effect s (run_completed meta result) = record s {
  runs = replace_run s.runs result.run_id (as_complete result meta);
}
effect s (run_child_node_registered meta node payload) = add_node s (run_child node)
effect s (run_failed meta id reason) = record s {
  runs = replace_run s.runs id (as_failed reason meta);
}
effect s (run_canceled meta id reason) = record s {
  runs = replace_run s.runs id (as_canceled reason meta);
}
effect s (coach_review_recorded meta review) = record s {
  coach_reviews = push s.coach_reviews review;
}
effect s (coaching_proposal_recorded meta proposal) = record s {
  coaching_proposals = push s.coaching_proposals proposal;
}
effect s (coaching_proposal_confirmed meta decision) = record s {
  coaching_proposal_decisions = push s.coaching_proposal_decisions (confirmed decision);
}
effect s (coaching_child_node_registered meta node payload) = add_node s (coaching_child node)
effect s (coaching_proposal_rejected meta decision) = record s {
  coaching_proposal_decisions = push s.coaching_proposal_decisions (rejected decision);
}
effect s (alternatives_compared meta comparison) = record s {
  comparisons = push s.comparisons comparison;
}
effect s (alternative_selected meta decision) = record s {
  decisions = push s.decisions (selection decision);
}
effect s (alternatives_rejected meta decision) = record s {
  decisions = push s.decisions (rejection decision);
}

module _ ⦃digests : Digests⦄ (s t : ProjectState) (integrity : ProjectIntegrityBoundary) where
  by_admit {ℓ} :
      {A : Type ℓ} (tested : Outcome A) (u : ProjectState) → admit tested (λ _. u) ≡ ok t → t ≡ u
  by_admit tested u h = let (_, _, e) = admit-eq-ok tested (λ _. u) h in sym e

  pub apply_event_body-effect :
      (event : DomainEvent)
      → apply_event_body s event integrity ≡ ok t
      → t ≡ finish (effect s event) (event_meta event)
  unfolding apply_event_body
  apply_event_body-effect (root_node_registered meta node payload) h = ground arith
  apply_event_body-effect (run_child_node_registered meta node payload) h = ground arith
  apply_event_body-effect (coaching_proposal_confirmed meta decision) h = ground arith
  apply_event_body-effect (coaching_proposal_rejected meta decision) h = ground arith
  apply_event_body-effect _ h = by_admit _ _ h

  -- An event that is applied has passed the identity test, and the state that it leaves is the old
  -- one with the event's effect, entered in the journal of processed commands: nothing else changes.
  pub apply_domain_event-effect :
      (event : DomainEvent)
      → apply_domain_event s event integrity ≡ ok t
      → (validate_event_identity s (event_meta event) ≡ ok tt)
        × (t ≡ finish (effect s event) (event_meta event))
  unfolding apply_domain_event
  apply_domain_event-effect event h =
      let (identity, body) =
        >>-eq-ok (validate_event_identity s (event_meta event)) (apply_event_body s event integrity)
          h in
      (identity, apply_event_body-effect event body)
