-- ===== src/Engine/Apply.antt =====
-- packages/core/src/engine.ts: `applyDomainEvent`.
use hunsu.Base.{List, ◌!=◌, ⊤}
use hunsu.Lists.{push}
use hunsu.Protocol.{
  ok, ◌>>=◌, ◌>>◌, Digests, ProjectState, DomainEvent, project_created,
  project_materializations_rebuilt, root_node_registered, run_started, run_checkpointed,
  run_evidence_attached, run_completed, run_child_node_registered, run_failed, run_canceled,
  coach_review_recorded, coaching_proposal_recorded, coaching_proposal_confirmed,
  coaching_child_node_registered, coaching_proposal_rejected, alternatives_compared,
  alternative_selected, alternatives_rejected, event_meta, EventMetadata, Node, root, run_child,
  coaching_child, Run, running, completed, failed, canceled, RunningRun, RunCheckpoint, EvidenceRef,
  VerifiedRunResult, Reason, confirmed, rejected, selection, rejection, DomainActor, RootNode,
  Project, NodePayloadEnvelope, user, coach, plugin, system,
}
use hunsu.Engine.Errors.{
  Outcome, invalid_event, admit, invalid_unless_ok, ProjectIntegrityBoundary, refuse_if,
  invalid_event_code,
}
use hunsu.Engine.Lookup.{find_project, find_running_run, find_completed_run, replace_run}
use hunsu.Engine.Journal.{validate_event_identity, validate_decision_id, finish}
use hunsu.Engine.Nodes.{validate_new_node}
use hunsu.Engine.Projects.{validate_project_event, validate_project_rebuild}
use hunsu.Engine.Runs.{
  validate_running_run_event, validate_checkpoint, validate_evidence, validate_verified_run_result,
  validate_run_child_node,
}
use hunsu.Engine.Coaching.{
  validate_coach_review, validate_coaching_proposal, find_confirmable_coaching_proposal,
  find_open_coaching_proposal, validate_coaching_child_event,
}
use hunsu.Engine.Comparisons.{validate_comparison}
use hunsu.Engine.Decisions.{validate_selection_decision, validate_rejection_decision}

-- The replacements of a running Run.
abbrev pub with_checkpoint : RunCheckpoint → RunningRun → Run
with_checkpoint checkpoint run =
    running (record run { checkpoints = push run.checkpoints checkpoint })

abbrev pub with_evidence : EvidenceRef → RunningRun → Run
with_evidence evidence run =
    running (record run { evidence_ids = push run.evidence_ids evidence.id })

abbrev pub as_complete : VerifiedRunResult → EventMetadata → RunningRun → Run
as_complete result meta run = completed (record {
  base = run;
  result_node_sha = result.result_sha;
  verified_at = result.verified_at;
  completed_at = meta.recorded_at;
})

abbrev pub as_failed : Reason → EventMetadata → RunningRun → Run
as_failed reason meta run =
    failed (record { base = run; failed_at = meta.recorded_at; failure_reason = reason })

abbrev pub as_canceled : Reason → EventMetadata → RunningRun → Run
as_canceled reason meta run =
    canceled (record { base = run; canceled_at = meta.recorded_at; cancellation_reason = reason })

-- `if (actor.type !== "user") return invalidEvent(message)`
abbrev pub event_of_user : DomainActor → Outcome ⊤
event_of_user (user _) = ok tt
event_of_user (coach _) = invalid_event "Root Node registration requires explicit user confirmation"
event_of_user (plugin _) =
    invalid_event "Root Node registration requires explicit user confirmation"
event_of_user system = invalid_event "Root Node registration requires explicit user confirmation"

abbrev pub add_project : ProjectState → Project → ProjectState
add_project s project = record s { projects = push s.projects project }

abbrev pub add_node : ProjectState → Node → ProjectState
add_node s node = record s { nodes = push s.nodes node }

module _ ⦃digests : Digests⦄ where
  -- The case "RootNodeRegistered".
  unfoldable pub apply_root_node :
      ProjectState
      → EventMetadata
      → RootNode
      → NodePayloadEnvelope
      → ProjectIntegrityBoundary
      → Outcome ProjectState
  apply_root_node s meta node payload integrity = do
    event_of_user meta.actor
    project ← find_project s node.project_id
    refuse_if (project.root_node_sha != node.commit_sha) invalid_event_code
        "Root Node does not match the Project root SHA"
    admit (validate_new_node s (root node) payload meta.recorded_at integrity)
        (λ _. finish (add_node s (root node)) meta)

  -- The switch on `event.type`.
  unfoldable pub apply_event_body :
      ProjectState → DomainEvent → ProjectIntegrityBoundary → Outcome ProjectState
  unfolding apply_root_node
  apply_event_body s (project_created meta project) integrity =
      admit (validate_project_event s project meta.actor) (λ _. finish (add_project s project) meta)
  apply_event_body s (project_materializations_rebuilt meta project_id) integrity =
      admit (validate_project_rebuild s project_id meta.actor) (λ _. finish s meta)
  apply_event_body s (root_node_registered meta node payload) integrity =
      apply_root_node s meta node payload integrity
  apply_event_body s (run_started meta run) integrity =
      admit (validate_running_run_event s run)
        (λ _. finish (record s { runs = push s.runs (running run) }) meta)
  apply_event_body s (run_checkpointed meta checkpoint) integrity =
      admit (validate_checkpoint s checkpoint) (λ _.
        finish
          (record s { runs = replace_run s.runs checkpoint.run_id (with_checkpoint checkpoint) })
          meta)
  apply_event_body s (run_evidence_attached meta evidence) integrity =
      admit (validate_evidence s evidence) (λ _.
        finish
          (record s {
            evidence = push s.evidence evidence;
            runs = replace_run s.runs evidence.run_id (with_evidence evidence);
          })
          meta)
  apply_event_body s (run_completed meta result) integrity =
      admit (validate_verified_run_result s result) (λ _.
        finish (record s { runs = replace_run s.runs result.run_id (as_complete result meta) })
          meta)
  apply_event_body s (run_child_node_registered meta node payload) integrity = do
    run ← invalid_unless_ok (find_completed_run s node.run_id)
    admit (validate_run_child_node s (completed run) node payload meta.recorded_at integrity)
        (λ _. finish (add_node s (run_child node)) meta)
  apply_event_body s (run_failed meta run_id reason) integrity =
      admit (find_running_run s run_id)
        (λ _. finish (record s { runs = replace_run s.runs run_id (as_failed reason meta) }) meta)
  apply_event_body s (run_canceled meta run_id reason) integrity =
      admit (find_running_run s run_id)
        (λ _. finish (record s { runs = replace_run s.runs run_id (as_canceled reason meta) }) meta)
  apply_event_body s (coach_review_recorded meta review) integrity =
      admit (validate_coach_review s review meta.actor)
        (λ _. finish (record s { coach_reviews = push s.coach_reviews review }) meta)
  apply_event_body s (coaching_proposal_recorded meta proposal) integrity =
      admit (validate_coaching_proposal s proposal meta.actor)
        (λ _. finish (record s { coaching_proposals = push s.coaching_proposals proposal }) meta)
  apply_event_body s (coaching_proposal_confirmed meta decision) integrity = do
    proposal ←
        invalid_unless_ok (find_confirmable_coaching_proposal s decision.proposal_id meta.actor)
    admit (validate_decision_id s decision.id) (λ _.
        finish
          (record s {
            coaching_proposal_decisions = push s.coaching_proposal_decisions (confirmed decision);
          })
          meta)
  apply_event_body s (coaching_child_node_registered meta node payload) integrity =
      admit (validate_coaching_child_event s node payload meta.recorded_at integrity)
        (λ _. finish (add_node s (coaching_child node)) meta)
  apply_event_body s (coaching_proposal_rejected meta decision) integrity = do
    proposal ← invalid_unless_ok (find_open_coaching_proposal s decision.proposal_id meta.actor)
    admit (validate_decision_id s decision.id) (λ _.
        finish
          (record s {
            coaching_proposal_decisions = push s.coaching_proposal_decisions (rejected decision);
          })
          meta)
  apply_event_body s (alternatives_compared meta comparison) integrity =
      admit (validate_comparison s comparison)
        (λ _. finish (record s { comparisons = push s.comparisons comparison }) meta)
  apply_event_body s (alternative_selected meta decision) integrity =
      admit (validate_selection_decision s decision meta.actor)
        (λ _. finish (record s { decisions = push s.decisions (selection decision) }) meta)
  apply_event_body s (alternatives_rejected meta decision) integrity =
      admit (validate_rejection_decision s decision meta.actor)
        (λ _. finish (record s { decisions = push s.decisions (rejection decision) }) meta)

  unfoldable pub apply_domain_event :
      ProjectState → DomainEvent → ProjectIntegrityBoundary → Outcome ProjectState
  apply_domain_event s event integrity = do
    validate_event_identity s (event_meta event)
    apply_event_body s event integrity

  -- The loop over events in `applyProjectCommand` and `replayDomainEvents`.
  unfoldable pub apply_domain_events :
      ProjectState → List DomainEvent → ProjectIntegrityBoundary → Outcome ProjectState
  apply_domain_events s List.[] integrity = ok s
  apply_domain_events s (List.◌∷◌ event events) integrity = do
    next ← apply_domain_event s event integrity
    apply_domain_events next events integrity
