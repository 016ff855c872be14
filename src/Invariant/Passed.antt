-- ===== src/Invariant/Passed.antt =====
-- The tests of `applyDomainEvent` in packages/core/src/engine.ts that an applied event has passed.
use hunsu.Base.{◌≡◌, ⊤, arith}
use hunsu.Protocol.{
  ok, Digests, ProjectState, DomainEvent, project_created, project_materializations_rebuilt,
  root_node_registered, run_started, run_checkpointed, run_evidence_attached, run_completed,
  run_child_node_registered, run_failed, run_canceled, coach_review_recorded,
  coaching_proposal_recorded, coaching_proposal_confirmed, coaching_child_node_registered,
  coaching_proposal_rejected, alternatives_compared, alternative_selected, alternatives_rejected,
  root, CompletedRun, RunningRun, CoachingProposal, completed,
}
use hunsu.Engine.Errors.{ProjectIntegrityBoundary, Outcome, admit, invalid_unless_ok}
use hunsu.Engine.Outcomes.{admit-eq-ok, >>=-eq-ok, invalid_unless_ok-eq-ok}
use hunsu.Engine.Lookup.{find_running_run, find_completed_run}
use hunsu.Engine.Journal.{validate_decision_id}
use hunsu.Engine.Nodes.{validate_new_node}
use hunsu.Engine.Projects.{validate_project_event, validate_project_rebuild}
use hunsu.Engine.Runs.{
  validate_running_run_event, validate_checkpoint, validate_evidence, validate_verified_run_result,
  validate_run_child_node,
}
use hunsu.Engine.Coaching.{
  validate_coach_review, validate_coaching_proposal, find_confirmable_coaching_proposal,
  find_open_coaching_proposal, validate_coaching_child_event,
}
use hunsu.Engine.Comparisons.{validate_comparison}
use hunsu.Engine.Decisions.{validate_selection_decision, validate_rejection_decision}
use hunsu.Engine.Apply.{apply_event_body}

module _ ⦃digests : Digests⦄ (s : ProjectState) (integrity : ProjectIntegrityBoundary) where
  abbrev pub Passed : DomainEvent → Type 0
  Passed (project_created meta project) = validate_project_event s project meta.actor ≡ ok tt
  Passed (project_materializations_rebuilt meta id) =
      validate_project_rebuild s id meta.actor ≡ ok tt
  Passed (root_node_registered meta node payload) =
      validate_new_node s (root node) payload meta.recorded_at integrity ≡ ok tt
  Passed (run_started meta run) = validate_running_run_event s run ≡ ok tt
  Passed (run_checkpointed meta checkpoint) = validate_checkpoint s checkpoint ≡ ok tt
  Passed (run_evidence_attached meta evidence) = validate_evidence s evidence ≡ ok tt
  Passed (run_completed meta result) =
      (run : RunningRun) × (validate_verified_run_result s result ≡ ok run)
  Passed (run_child_node_registered meta node payload) =
      (run : CompletedRun) × (find_completed_run s node.run_id ≡ ok run)
      × (validate_run_child_node s (completed run) node payload meta.recorded_at integrity ≡ ok tt)
  Passed (run_failed meta id reason) = (run : RunningRun) × (find_running_run s id ≡ ok run)
  Passed (run_canceled meta id reason) = (run : RunningRun) × (find_running_run s id ≡ ok run)
  Passed (coach_review_recorded meta review) = validate_coach_review s review meta.actor ≡ ok tt
  Passed (coaching_proposal_recorded meta proposal) =
      validate_coaching_proposal s proposal meta.actor ≡ ok tt
  Passed (coaching_proposal_confirmed meta decision) =
      (proposal : CoachingProposal) × (find_confirmable_coaching_proposal s decision.proposal_id
          meta.actor
        ≡ ok proposal)
      × (validate_decision_id s decision.id ≡ ok tt)
  Passed (coaching_child_node_registered meta node payload) =
      validate_coaching_child_event s node payload meta.recorded_at integrity ≡ ok tt
  Passed (coaching_proposal_rejected meta decision) =
      (proposal : CoachingProposal) × (find_open_coaching_proposal s decision.proposal_id meta.actor
        ≡ ok proposal)
      × (validate_decision_id s decision.id ≡ ok tt)
  Passed (alternatives_compared meta comparison) = validate_comparison s comparison ≡ ok tt
  Passed (alternative_selected meta decision) =
      validate_selection_decision s decision meta.actor ≡ ok tt
  Passed (alternatives_rejected meta decision) =
      validate_rejection_decision s decision meta.actor ≡ ok tt

  -- The test in front of an effect.
  tested {ℓ} :
      {A : Type ℓ} (test : Outcome A) (f : A → ProjectState) (t : ProjectState)
      → admit test f ≡ ok t
      → (a : A) × (test ≡ ok a)
  tested test f t h = let (a, passed, _) = admit-eq-ok test f h in (a, passed)

  checked :
      (test : Outcome ⊤) (f : ⊤ → ProjectState) (t : ProjectState)
      → admit test f ≡ ok t
      → test ≡ ok tt
  checked test f t h = (tested test f t h).1

  pub apply_event_body-Passed :
      (t : ProjectState) (event : DomainEvent)
      → apply_event_body s event integrity ≡ ok t
      → Passed event
  unfolding apply_event_body
  apply_event_body-Passed t (root_node_registered meta node payload) h = ground arith
  apply_event_body-Passed t (run_completed meta result) h = tested _ _ t h
  apply_event_body-Passed t (run_failed meta id reason) h = tested _ _ t h
  apply_event_body-Passed t (run_canceled meta id reason) h = tested _ _ t h
  apply_event_body-Passed t (run_child_node_registered meta node payload) h =
      let (run, found, rest) =
        >>=-eq-ok (invalid_unless_ok (find_completed_run s node.run_id)) _ h in
      (run, invalid_unless_ok-eq-ok (find_completed_run s node.run_id) found, checked _ _ t rest)
  apply_event_body-Passed t (coaching_proposal_confirmed meta decision) h =
      let (proposal, found, rest) =
        >>=-eq-ok
          (invalid_unless_ok (find_confirmable_coaching_proposal s decision.proposal_id meta.actor))
          _ h in
      (proposal, invalid_unless_ok-eq-ok _ found, checked _ _ t rest)
  apply_event_body-Passed t (coaching_proposal_rejected meta decision) h =
      let (proposal, found, rest) =
        >>=-eq-ok
          (invalid_unless_ok (find_open_coaching_proposal s decision.proposal_id meta.actor)) _ h in
      (proposal, invalid_unless_ok-eq-ok _ found, checked _ _ t rest)
  apply_event_body-Passed t (project_created meta project) h = checked _ _ t h
  apply_event_body-Passed t (project_materializations_rebuilt meta id) h = checked _ _ t h
  apply_event_body-Passed t (run_started meta run) h = checked _ _ t h
  apply_event_body-Passed t (run_checkpointed meta checkpoint) h = checked _ _ t h
  apply_event_body-Passed t (run_evidence_attached meta evidence) h = checked _ _ t h
  apply_event_body-Passed t (coach_review_recorded meta review) h = checked _ _ t h
  apply_event_body-Passed t (coaching_proposal_recorded meta proposal) h = checked _ _ t h
  apply_event_body-Passed t (coaching_child_node_registered meta node payload) h = checked _ _ t h
  apply_event_body-Passed t (alternatives_compared meta comparison) h = checked _ _ t h
  apply_event_body-Passed t (alternative_selected meta decision) h = checked _ _ t h
  apply_event_body-Passed t (alternatives_rejected meta decision) h = checked _ _ t h
