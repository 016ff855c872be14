-- ===== src/Tests/Run.antt =====
-- Runs of the engine by evaluation: one name to unfold for all its functions.
use hunsu.Base.{◌==◌, template, join}
use hunsu.Text.{utf16}
use hunsu.Lists.{set_of, all_unique}
use hunsu.Protocol.{
  node_payload_for, managed_node_ref, max_node_payload_decoded_bytes,
  max_node_payload_encoded_bytes, run_branch_name,
}
use hunsu.Engine.Apply.{apply_root_node, apply_event_body, apply_domain_event, apply_domain_events}
use hunsu.Engine.Coaching.{
  validate_review_target, validate_coach_review, find_open_coaching_proposal,
  find_confirmable_coaching_proposal, build_coaching_rejection, validate_coaching_proposal,
  validate_coaching_proposal_command, validate_coaching_child, build_coaching_confirmation,
  validate_coaching_child_event,
}
use hunsu.Engine.Decide.{decide_events, decide_project_command, apply_project_command}
use hunsu.Engine.Decisions.{
  find_comparison, validate_selection_decision, build_selection, selected_shas, rejected_shas,
  validate_rejection_decision, build_rejection,
}
use hunsu.Engine.Journal.{
  empty_project_state, validate_decision_id, validate_additional_event_id, validate_event_identity,
  decide_retry, finish,
}
use hunsu.Engine.Lookup.{
  find_project, find_node, find_run, find_running_run, find_completed_run, replace_run,
  is_rejected_node,
}
use hunsu.Engine.Nodes.{
  validate_goals, validate_plan, validate_payload_sizes, validate_node_content, validate_parent,
  validate_place, validate_new_node, inherit_run_child_plan,
}
use hunsu.Engine.Projects.{
  validate_project_event, validate_project_rebuild, validate_project_creation,
}
use hunsu.Engine.Replay.{
  same_domain_actor, check_batch, turn_batch, scan_event, scan_events,
  validate_domain_event_batches, replay_domain_events,
}
use hunsu.Engine.Runs.{
  validate_checkpoint, validate_evidence, validate_verified_run_result, only_goal,
  build_running_run, validate_running_run_event, validate_run_child_node, validate_run_completion,
}
use hunsu.Engine.Comparisons.{
  kind_cohort_key, validate_comparison_cohort_overlap, comparison_kind, build_comparison,
  validate_comparison_kind, validate_comparison, resolve_candidate, resolve_each,
  resolve_completed_run_candidates, validate_coached_source, validate_experiment_source,
  validate_experiment_sources, validate_coached_how_experiment_candidates,
  validate_comparison_findings,
}
use hunsu.Base.{List, [], ◌∷◌}
use hunsu.Protocol.{ok, err, ◌>>=◌, ProjectState, ProjectCommand, DomainEvent}
use hunsu.Engine.Errors.{Outcome}
use hunsu.Engine.Journal.{CommandDecision, accepted}
use hunsu.Tests.Sample.{trusting, sample_digests}

unfoldable pub engine : Unit {0}
unfolding ◌==◌ template join set_of all_unique node_payload_for managed_node_ref
    max_node_payload_decoded_bytes max_node_payload_encoded_bytes run_branch_name apply_root_node
    apply_event_body apply_domain_event apply_domain_events validate_review_target
    validate_coach_review find_open_coaching_proposal find_confirmable_coaching_proposal
    build_coaching_rejection validate_coaching_proposal validate_coaching_proposal_command
    validate_coaching_child build_coaching_confirmation validate_coaching_child_event decide_events
    decide_project_command apply_project_command find_comparison validate_selection_decision
    build_selection selected_shas rejected_shas validate_rejection_decision build_rejection
    empty_project_state validate_decision_id validate_additional_event_id validate_event_identity
    decide_retry finish find_project find_node find_run find_running_run find_completed_run
    replace_run is_rejected_node validate_goals validate_plan validate_payload_sizes utf16
    validate_node_content validate_parent validate_place validate_new_node inherit_run_child_plan
    validate_project_event validate_project_rebuild validate_project_creation same_domain_actor
    check_batch turn_batch scan_event scan_events validate_domain_event_batches replay_domain_events
    validate_checkpoint validate_evidence validate_verified_run_result only_goal build_running_run
    validate_running_run_event validate_run_child_node validate_run_completion kind_cohort_key
    validate_comparison_cohort_overlap comparison_kind build_comparison validate_comparison_kind
    validate_comparison resolve_candidate resolve_each resolve_completed_run_candidates
    validate_coached_source validate_experiment_source validate_experiment_sources
    validate_coached_how_experiment_candidates validate_comparison_findings
engine = tt

-- The commands one after the other.
unfoldable pub run_all : ProjectState → List ProjectCommand → Outcome ProjectState
run_all s [] = ok s
run_all s (c ∷ cs) = do done ← apply_project_command s c trusting; run_all done.state cs

abbrev pub state_of : Outcome ProjectState → ProjectState
state_of (ok s) = s
state_of (err _) = empty_project_state

abbrev pub events_of : Outcome CommandDecision → List DomainEvent
events_of (ok (accepted events)) = events
events_of _ = []
