-- ===== src/Engine/Decide.antt =====
-- packages/core/src/engine.ts: `decideProjectCommand` and `applyProjectCommand`.
use hunsu.Base.{List, [], ◌∷◌, Option, none, some}
use hunsu.Protocol.{
  ok, ◌>>=◌, ◌>>◌, Digests, ProjectState, DomainEvent, project_created,
  project_materializations_rebuilt, root_node_registered, run_started, run_checkpointed,
  run_evidence_attached, run_completed, run_child_node_registered, run_failed, run_canceled,
  coach_review_recorded, coaching_proposal_recorded, coaching_proposal_confirmed,
  coaching_child_node_registered, coaching_proposal_rejected, alternatives_compared,
  alternative_selected, alternatives_rejected, ProjectCommand, create_project,
  rebuild_project_materializations, start_run, checkpoint_run, attach_run_evidence, complete_run,
  fail_run, cancel_run, record_coach_review, record_coaching_proposal, confirm_coaching_proposal,
  reject_coaching_proposal, compare_alternatives, select_alternative, reject_alternatives,
  command_meta,
}
use hunsu.Engine.Errors.{Outcome, when_ok, ProjectIntegrityBoundary}
use hunsu.Engine.Lookup.{find_running_run}
use hunsu.Engine.Journal.{
  CommandDecision, accepted, reused, CommandApplication, decide_retry, validate_additional_event_id,
  event_metadata, event_metadata_at,
}
use hunsu.Engine.Projects.{validate_project_creation, validate_project_rebuild}
use hunsu.Engine.Runs.{
  build_running_run, validate_checkpoint, validate_evidence, validate_run_completion,
}
use hunsu.Engine.Coaching.{
  validate_coach_review, validate_coaching_proposal_command, build_coaching_confirmation,
  build_coaching_rejection,
}
use hunsu.Engine.Comparisons.{build_comparison}
use hunsu.Engine.Decisions.{build_selection, build_rejection}
use hunsu.Engine.Apply.{apply_domain_events}

module _ ⦃digests : Digests⦄ where
  -- The switch on `command.type`: the events of an accepted command.
  unfoldable pub decide_events :
      ProjectState → ProjectCommand → ProjectIntegrityBoundary → Outcome (List DomainEvent)
  decide_events s (create_project c) integrity = do
    validate_project_creation s c.project c.root_node c.payload c.meta.actor integrity
    validate_additional_event_id s c.meta.event_id c.root_node_event_id
    ok (
        project_created (event_metadata c.meta) c.project
        ∷ root_node_registered (event_metadata_at c.meta c.root_node_event_id) c.root_node c.payload
        ∷ [])
  decide_events s (rebuild_project_materializations meta project_id) integrity =
      when_ok (validate_project_rebuild s project_id meta.actor)
        (λ _. project_materializations_rebuilt (event_metadata meta) project_id ∷ [])
  decide_events s (start_run c) integrity =
      when_ok (build_running_run s c) (λ run. run_started (event_metadata c.meta) run ∷ [])
  decide_events s (checkpoint_run meta checkpoint) integrity =
      when_ok (validate_checkpoint s checkpoint)
        (λ _. run_checkpointed (event_metadata meta) checkpoint ∷ [])
  decide_events s (attach_run_evidence meta evidence) integrity =
      when_ok (validate_evidence s evidence)
        (λ _. run_evidence_attached (event_metadata meta) evidence ∷ [])
  decide_events s (complete_run c) integrity = do
    validate_run_completion s c.result c.node c.payload c.meta.requested_at integrity
    validate_additional_event_id s c.meta.event_id c.node_event_id
    ok (
        run_completed (event_metadata c.meta) c.result
        ∷ run_child_node_registered (event_metadata_at c.meta c.node_event_id) c.node c.payload
        ∷ [])
  decide_events s (fail_run meta run_id reason) integrity =
      when_ok (find_running_run s run_id) (λ _. run_failed (event_metadata meta) run_id reason ∷ [])
  decide_events s (cancel_run meta run_id reason) integrity =
      when_ok (find_running_run s run_id)
        (λ _. run_canceled (event_metadata meta) run_id reason ∷ [])
  decide_events s (record_coach_review meta review) integrity =
      when_ok (validate_coach_review s review meta.actor)
        (λ _. coach_review_recorded (event_metadata meta) review ∷ [])
  decide_events s (record_coaching_proposal meta proposal) integrity =
      when_ok (validate_coaching_proposal_command s proposal meta)
        (λ _. coaching_proposal_recorded (event_metadata meta) proposal ∷ [])
  decide_events s (confirm_coaching_proposal c) integrity = do
    decision ← build_coaching_confirmation s c integrity
    validate_additional_event_id s c.meta.event_id c.node_event_id
    ok (
        coaching_proposal_confirmed (event_metadata c.meta) decision
        ∷ coaching_child_node_registered (event_metadata_at c.meta c.node_event_id) c.node c.payload
        ∷ [])
  decide_events s (reject_coaching_proposal c) integrity =
      when_ok (build_coaching_rejection s c)
        (λ decision. coaching_proposal_rejected (event_metadata c.meta) decision ∷ [])
  decide_events s (compare_alternatives c) integrity =
      when_ok (build_comparison s c)
        (λ comparison. alternatives_compared (event_metadata c.meta) comparison ∷ [])
  decide_events s (select_alternative c) integrity =
      when_ok (build_selection s c)
        (λ decision. alternative_selected (event_metadata c.meta) decision ∷ [])
  decide_events s (reject_alternatives c) integrity =
      when_ok (build_rejection s c)
        (λ decision. alternatives_rejected (event_metadata c.meta) decision ∷ [])

  abbrev decision_unless_retry :
      ProjectState
      → ProjectCommand
      → ProjectIntegrityBoundary
      → Option CommandDecision
      → Outcome CommandDecision
  decision_unless_retry s command integrity (some retry) = ok retry
  decision_unless_retry s command integrity none =
      when_ok (decide_events s command integrity) accepted

  unfoldable pub decide_project_command :
      ProjectState → ProjectCommand → ProjectIntegrityBoundary → Outcome CommandDecision
  decide_project_command s command integrity = do
    retry ← decide_retry s (command_meta command)
    decision_unless_retry s command integrity retry

  -- `applyProjectCommand` after the decision.
  abbrev pub apply_decision :
      ProjectState → ProjectIntegrityBoundary → CommandDecision → Outcome CommandApplication
  apply_decision s integrity (reused event_ids) =
      ok (record { state = s; emitted_events = []; reused_event_ids = event_ids })
  apply_decision s integrity (accepted events) = do
    next ← apply_domain_events s events integrity
    ok (record { state = next; emitted_events = events; reused_event_ids = [] })

  unfoldable pub apply_project_command :
      ProjectState → ProjectCommand → ProjectIntegrityBoundary → Outcome CommandApplication
  apply_project_command s command integrity = do
    decision ← decide_project_command s command integrity
    apply_decision s integrity decision
